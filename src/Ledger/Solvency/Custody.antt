-- ===== src/Ledger/Solvency/Custody.antt =====
-- Runs of programs/shadow-lend/src/lib.rs in which wallets sign the calls and only the program takes
-- tokens out of the vaults.
use shadowlend.Prelude.{◌≤◌, ◌≡◌, some, arith, List}
use shadowlend.Result.{ok}
use shadowlend.State.{Pubkey, Market, Clock}
use shadowlend.Runtime.{Runtime, TransferLaws, MintLaws}
use shadowlend.Ledger.{Addresses, AddressLaws, VaultLaws, Ledger, market_seed}
use shadowlend.Ledger.Books.{IsDistinct, deposits}
use shadowlend.Ledger.Call.{Call}
use shadowlend.Ledger.Execute.{execute}
use shadowlend.Ledger.Inversion.Upkeep.{run_init_user_stats-eq-ok, run_record_action-eq-ok}
use shadowlend.Ledger.Reach.{no_accounts, Reachable, Reachable-IsSound}
use shadowlend.Ledger.Reach as Reach
use shadowlend.Ledger.Sound.{IsSound}
use shadowlend.Ledger.Solvency.{IsSolvent, vault_balance}
use shadowlend.Ledger.Solvency.Users.{
  supply-IsSolvent, repay-IsSolvent, withdraw-IsSolvent, borrow-IsSolvent,
}
use shadowlend.Ledger.Solvency.Upkeep.{
  SparesVaults, tokens-IsSolvent, initialize_market-IsSolvent, set_claim_amount-IsSolvent,
  claim_faucet-IsSolvent,
}
use shadowlend.Ledger.Solvency.Seizure.{IsWallet, liquidate-IsSolvent}

module _ (rt : Runtime) where
  -- The signer of a call.
  abbrev pub signer : Call rt → Pubkey
  signer (Call.initialize_market admin mint claim ltv feed rate) = admin
  signer (Call.set_claim_amount admin key amount) = admin
  signer (Call.claim_faucet user mint) = user
  signer (Call.supply user mint amount) = user
  signer (Call.repay user mint amount) = user
  signer (Call.withdraw user mint amount update remaining) = user
  signer (Call.borrow user mint amount update remaining) = user
  signer (Call.liquidate c amount) = c.liquidator
  signer (Call.init_user_stats user) = user
  signer (Call.record_action user kind health_bps) = user

module _ (rt : Runtime) (ad : Addresses rt) where
  pub data Guarded : Ledger rt → Type 0 where
    genesis : (tokens : rt.Tokens) → Guarded (no_accounts rt tokens)
    executed :
        {l l' : Ledger rt}
        → Guarded l
        → (clock : Clock) (call : Call rt) → IsWallet rt ad (signer rt call)
        → execute rt ad l clock call ≡ ok l'
        → Guarded l'
    elsewhere :
        {l : Ledger rt}
        → Guarded l
        → (tokens : rt.Tokens) → SparesVaults rt ad l.tokens tokens
        → Guarded (record l { tokens = tokens })

  Guarded-Reachable : {l : Ledger rt} → Guarded l → Reachable rt ad l
  Guarded-Reachable (genesis tokens) = Reach.genesis tokens
  Guarded-Reachable (executed g clock call wallet e) =
      Reach.executed (Guarded-Reachable g) clock call e
  Guarded-Reachable (elsewhere g tokens spares) = Reach.elsewhere (Guarded-Reachable g) tokens

  module _ (laws : AddressLaws rt ad) (vaults : VaultLaws rt ad) (moves : TransferLaws rt)
      (mints : MintLaws rt) where
    execute-IsSolvent :
        (l l' : Ledger rt) (clock : Clock) (call : Call rt)
        → IsWallet rt ad (signer rt call)
        → IsSound rt ad l.markets l.positions
        → IsSolvent rt ad l.markets l.positions l.tokens
        → execute rt ad l clock call ≡ ok l'
        → IsSolvent rt ad l'.markets l'.positions l'.tokens
    unfolding execute
    execute-IsSolvent l l' clock (Call.initialize_market admin mint claim ltv feed rate) w b s e =
        initialize_market-IsSolvent rt ad laws l clock s l' b admin mint claim ltv feed rate e
    execute-IsSolvent l l' clock (Call.set_claim_amount admin key amount) w b s e =
        set_claim_amount-IsSolvent rt ad laws l clock s l' admin key amount e
    execute-IsSolvent l l' clock (Call.claim_faucet user mint) w b s e =
        claim_faucet-IsSolvent rt ad laws l clock s l' mints user mint e
    execute-IsSolvent l l' clock (Call.supply user mint amount) w b s e =
        supply-IsSolvent rt ad laws vaults moves l clock s user mint amount l' e
    execute-IsSolvent l l' clock (Call.repay user mint amount) w b s e =
        repay-IsSolvent rt ad laws vaults moves l clock s user mint amount l' e
    execute-IsSolvent l l' clock (Call.withdraw user mint amount update remaining) w b s e =
        withdraw-IsSolvent rt ad laws vaults moves l clock s user mint amount l' update remaining e
    execute-IsSolvent l l' clock (Call.borrow user mint amount update remaining) w b s e =
        borrow-IsSolvent rt ad laws vaults moves l clock s user mint amount l' update remaining e
    execute-IsSolvent l l' clock (Call.liquidate c amount) w b s e =
        liquidate-IsSolvent rt ad laws vaults moves l clock s c amount l' w e
    execute-IsSolvent l l' clock (Call.init_user_stats user) w b s e =
        let (_, writes) = run_init_user_stats-eq-ok rt ad l clock user e in rw (← writes) s
    execute-IsSolvent l l' clock (Call.record_action user kind health_bps) w b s e =
        let (_, _, _, _, writes) = run_record_action-eq-ok rt ad l clock user kind health_bps e in
        rw (← writes) s

    -- In every ledger that calls signed by wallets lead to, where the tokens that move otherwise are
    -- not a vault's: the total of a stored market is the sum of the stored deposits of all its
    -- users, and the vault's balance with the market's loans covers it. This takes addresses that
    -- differ where the seeds do, vaults that belong to their authority, and a token program that
    -- keeps its laws.
    pub Guarded-IsSolvent :
        {l : Ledger rt} → Guarded l → IsSolvent rt ad l.markets l.positions l.tokens
    Guarded-IsSolvent (genesis tokens) = record { booked = λ mint m h. cc; backed = λ mint m h. cc }
    Guarded-IsSolvent (executed {l} {l'} g clock call w e) =
        execute-IsSolvent l l' clock call w (Reachable-IsSound rt ad laws (Guarded-Reachable g))
          (Guarded-IsSolvent g) e
    Guarded-IsSolvent (elsewhere g tokens spares) =
        tokens-IsSolvent rt ad (Guarded-IsSolvent g) spares

    -- In such a ledger, a market that has lent nothing out has at least the deposits of any users in
    -- its vault.
    pub Guarded-idle :
        {l : Ledger rt} (mint : Pubkey) {m : Market} (us : List Pubkey)
        → Guarded l
        → l.markets (ad.find (market_seed mint)) ≡ some m
        → m.total_borrowed ≡ 0
        → IsDistinct us
        → deposits rt ad l.positions mint us ≤ vault_balance rt ad l.tokens mint
    Guarded-idle mint {m} us g found idle d =
        let s = Guarded-IsSolvent g in
        omega (arith, (s.booked mint m found).covers us d, s.backed mint m found)
