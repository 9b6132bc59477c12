-- ===== src/Ledger/Reach.antt =====
-- The runs of programs/shadow-lend/src/lib.rs: sequences of calls from a ledger with no accounts.
use shadowlend.Prelude.{◌≡◌, none}
use shadowlend.Result.{ok}
use shadowlend.State.{Clock}
use shadowlend.Runtime.{Runtime}
use shadowlend.Ledger.{Addresses, AddressLaws, Ledger}
use shadowlend.Ledger.Call.{Call}
use shadowlend.Ledger.Execute.{execute}
use shadowlend.Ledger.Sound.{IsSound}
use shadowlend.Ledger.Steps.{supply-IsSound, repay-IsSound, withdraw-IsSound, borrow-IsSound}
use shadowlend.Ledger.Upkeep.{
  initialize_market-IsSound, set_claim_amount-IsSound, claim_faucet-IsSound,
}
use shadowlend.Ledger.Inversion.Upkeep.{run_init_user_stats-eq-ok, run_record_action-eq-ok}
use shadowlend.Ledger.Seizure.{liquidate-IsSound}

module _ (rt : Runtime) where
  abbrev pub no_accounts : rt.Tokens → Ledger rt
  no_accounts tokens = record {
    markets = λ k. none;
    positions = λ k. none;
    receipts = λ k. none;
    stats = λ k. none;
    tokens = tokens;
  }

module _ (rt : Runtime) (ad : Addresses rt) where
  -- A ledger that calls of the program lead to, with whatever else happens to the tokens between.
  pub data Reachable : Ledger rt → Type 0 where
    genesis : (tokens : rt.Tokens) → Reachable (no_accounts rt tokens)
    executed :
        {l l' : Ledger rt}
        → Reachable l
        → (clock : Clock) (call : Call rt) → execute rt ad l clock call ≡ ok l'
        → Reachable l'
    elsewhere :
        {l : Ledger rt}
        → Reachable l
        → (tokens : rt.Tokens) → Reachable (record l { tokens = tokens })

  module _ (laws : AddressLaws rt ad) where
    pub execute-IsSound :
        (l l' : Ledger rt) (clock : Clock) (call : Call rt)
        → IsSound rt ad l.markets l.positions
        → execute rt ad l clock call ≡ ok l'
        → IsSound rt ad l'.markets l'.positions
    unfolding execute
    execute-IsSound l l' clock (Call.initialize_market admin mint claim ltv feed rate) s e =
        initialize_market-IsSound rt ad laws l clock s l' admin mint claim ltv feed rate e
    execute-IsSound l l' clock (Call.set_claim_amount admin key amount) s e =
        set_claim_amount-IsSound rt ad laws l clock s l' admin key amount e
    execute-IsSound l l' clock (Call.claim_faucet user mint) s e =
        claim_faucet-IsSound rt ad laws l clock s l' user mint e
    execute-IsSound l l' clock (Call.supply user mint amount) s e =
        supply-IsSound rt ad laws l clock s user mint amount l' e
    execute-IsSound l l' clock (Call.repay user mint amount) s e =
        repay-IsSound rt ad laws l clock s user mint amount l' e
    execute-IsSound l l' clock (Call.withdraw user mint amount update remaining) s e =
        withdraw-IsSound rt ad laws l clock s user mint amount l' update remaining e
    execute-IsSound l l' clock (Call.borrow user mint amount update remaining) s e =
        borrow-IsSound rt ad laws l clock s user mint amount l' update remaining e
    execute-IsSound l l' clock (Call.liquidate c amount) s e =
        liquidate-IsSound rt ad laws l clock s c amount l' e
    execute-IsSound l l' clock (Call.init_user_stats user) s e =
        let (_, writes) = run_init_user_stats-eq-ok rt ad l clock user e in rw (← writes) s
    execute-IsSound l l' clock (Call.record_action user kind health_bps) s e =
        let (_, _, _, _, writes) = run_record_action-eq-ok rt ad l clock user kind health_bps e in
        rw (← writes) s

    -- With addresses that differ where the seeds do, in every ledger that calls of the program lead
    -- to: a stored market is the market of its mint, with a limit between 0 and 10000 basis points
    -- and an index of at least one that fits a u128; and a stored position is its user's, its market
    -- is stored, its feed, its limit and its nine decimals are the market's, and its snapshot is
    -- between one and the market's index.
    pub Reachable-IsSound : {l : Ledger rt} → Reachable l → IsSound rt ad l.markets l.positions
    Reachable-IsSound (genesis tokens) = record {
      market = λ mint m h. cc;
      position = λ user mint p h. cc;
    }
    Reachable-IsSound (executed {l} {l'} r clock call e) =
        execute-IsSound l l' clock call (Reachable-IsSound r) e
    Reachable-IsSound (elsewhere r tokens) = Reachable-IsSound r
