-- ===== src/Ledger/Terms.antt =====
-- The terms of a stored market of programs/shadow-lend/src/lib.rs along a run.
use mathlib.Core.Option.{some-injective}
use shadowlend.Prelude.{◌≡◌, ◌≢◌, ap, sym, ◌∙◌, inl, inr, some, arith}
use shadowlend.Result.{ok}
use shadowlend.State.{Pubkey, Market, Clock}
use shadowlend.Runtime.{Runtime}
use shadowlend.Instructions.Admin.{set_claim_amount}
use shadowlend.Instructions.Faucet.Receipt.{claim_faucet_effect}
use shadowlend.Ledger.{Addresses, AddressLaws, Ledger, Store, put, context, write_back, market_seed}
use shadowlend.Ledger.Call.{Call}
use shadowlend.Ledger.Claims.{Later, same, executed, elsewhere}
use shadowlend.Ledger.Execute.{execute, write_liquidated}
use shadowlend.Ledger.Inversion.{
  held, run_supply-eq-ok, run_repay-eq-ok, run_withdraw-eq-ok, run_borrow-eq-ok,
}
use shadowlend.Ledger.Inversion.Upkeep.{
  run_initialize_market-eq-ok, run_set_claim_amount-eq-ok, run_claim_faucet-eq-ok,
  run_init_user_stats-eq-ok, run_record_action-eq-ok,
}
use shadowlend.Ledger.Preserve.{
  supply-Keeps, repay-Keeps, withdraw-Keeps, borrow-Keeps, opened, stored_position,
}
use shadowlend.Ledger.Reach.{Reachable, Reachable-IsSound, execute-IsSound}
use shadowlend.Ledger.Seizure.{put_market-Evolves, run_liquidate_keeps}
use shadowlend.Ledger.Sound.{
  Evolves, Evolves-refl, Evolves-trans, IsSound, put_here, put_elsewhere, eq_or_ne,
}

-- The market that stands at a key later is a later state of the one that stood there.
abbrev StaysAt : Store Market → Store Market → Pubkey → Market → Type 0
StaysAt M M' k m = (m' : Market) × (M' k ≡ some m') × Evolves m m'

-- A write of a later state keeps every market.
put-StaysAt :
    (M : Store Market) {key k : Pubkey} {a m : Market} (a' : Market)
    → M key ≡ some a
    → Evolves a a'
    → M k ≡ some m
    → Evolves m m
    → StaysAt M (put M key a') k m
put-StaysAt M {key} {k} {a} {m} a' a_at ev m_at unchanged = elim (eq_or_ne k key) [
  | inl one ↦
      let is : a ≡ m = some-injective _ _ (sym a_at ∙ ap M (sym one) ∙ m_at) in
      (a', rw one (put_here M key a'), rw (← is) ev)
  | inr apart ↦ (m, put_elsewhere M key a' k apart ∙ m_at, unchanged)
]

module _ (rt : Runtime) (ad : Addresses rt) (laws : AddressLaws rt ad) (l l' : Ledger rt)
    (clock : Clock) (s : IsSound rt ad l.markets l.positions) {mint : Pubkey} {m : Market}
    (m_at : l.markets (ad.find (market_seed mint)) ≡ some m) where
  stays : Evolves m m
  stays = Evolves-refl m (s.market mint m m_at).index_bound

  -- One call keeps the terms of a market.
  execute-StaysAt :
      (call : Call rt)
      → execute rt ad l clock call ≡ ok l'
      → StaysAt l.markets l'.markets (ad.find (market_seed mint)) m
  unfolding execute write_back context write_liquidated set_claim_amount
  execute-StaysAt (Call.initialize_market admin new claim ltv feed rate) e =
      let (x, free, _, writes) =
        run_initialize_market-eq-ok rt ad l clock admin new claim ltv feed rate e in
      let apart : ad.find (market_seed mint) ≢ ad.find (market_seed new) =
        λ one. cc (sym free ∙ ap l.markets (sym one) ∙ m_at) in
      rw (← writes) (m, put_elsewhere l.markets (ad.find (market_seed new)) x _ apart ∙ m_at, stays)
  execute-StaysAt (Call.set_claim_amount admin key amount) e =
      let (a, a', found, set, writes) = run_set_claim_amount-eq-ok rt ad l admin key amount e in
      let ev : Evolves a a' = ground (arith, (s.market a.mint a found).index_bound) in
      rw (← writes) (put-StaysAt l.markets a' found ev m_at stays)
  execute-StaysAt (Call.claim_faucet user at_mint) e =
      let (a, r, found, _, claimed, writes) = run_claim_faucet-eq-ok rt ad l clock user at_mint e in
      let (_, _, _, _, counted, _, _) = claim_faucet_effect rt _ l.tokens clock claimed in
      let ev : Evolves a r.market =
        rw counted (ground (arith, (s.market at_mint a found).index_bound)) in
      rw (← writes) (put-StaysAt l.markets r.market found ev m_at stays)
  execute-StaysAt (Call.supply user at_mint amount) e =
      let (a, r, found, r_ok, writes) = run_supply-eq-ok rt ad l clock user at_mint amount e in
      let (ev, _) =
        supply-Keeps rt ad user at_mint a (held rt ad l user at_mint) l.tokens clock amount
          (s.market at_mint a found) (opened rt ad l s user at_mint found) r_ok in
      rw (← writes) (put-StaysAt l.markets r.market found ev m_at stays)
  execute-StaysAt (Call.repay user at_mint amount) e =
      let (a, r, found, r_ok, writes) = run_repay-eq-ok rt ad l clock user at_mint amount e in
      let (ev, _) =
        repay-Keeps rt ad user at_mint a (held rt ad l user at_mint) l.tokens clock amount
          (s.market at_mint a found) (opened rt ad l s user at_mint found) r_ok in
      rw (← writes) (put-StaysAt l.markets r.market found ev m_at stays)
  execute-StaysAt (Call.withdraw user at_mint amount update remaining) e =
      let (a, p, r, found, at, r_ok, writes) =
        run_withdraw-eq-ok rt ad l clock user at_mint amount update remaining e in
      let (ev, _) =
        withdraw-Keeps rt ad user at_mint a p l.tokens clock amount (s.market at_mint a found)
          update remaining (stored_position rt ad l s user at_mint found at) r_ok in
      rw (← writes) (put-StaysAt l.markets r.market found ev m_at stays)
  execute-StaysAt (Call.borrow user at_mint amount update remaining) e =
      let (a, p, r, found, at, r_ok, writes) =
        run_borrow-eq-ok rt ad l clock user at_mint amount update remaining e in
      let (ev, _) =
        borrow-Keeps rt ad user at_mint a p l.tokens clock amount (s.market at_mint a found) update
          remaining (stored_position rt ad l s user at_mint found at) r_ok in
      rw (← writes) (put-StaysAt l.markets r.market found ev m_at stays)
  execute-StaysAt (Call.liquidate c amount) e =
      let (ctx, r, writes, (dm_key, _), (cm_key, _), (dm_at, dm_ev, _), (cm_at, cm_ev, _), both) =
        run_liquidate_keeps rt ad laws l clock s c amount l' e in
      let (a, a_at, a_ev) = put-StaysAt l.markets r.debt_market dm_at dm_ev m_at stays in
      let (x, x_at, x_ev) = put_market-Evolves rt ad laws l clock s dm_at cm_at cm_ev both in
      let (b, b_at, b_ev) =
        put-StaysAt (put l.markets c.debt_market_key r.debt_market) r.collateral_market x_at x_ev
          a_at (Evolves-refl a a_ev.index_bound) in
      rw (← writes) (b, b_at, Evolves-trans a_ev b_ev)
  execute-StaysAt (Call.init_user_stats user) e =
      let (_, writes) = run_init_user_stats-eq-ok rt ad l clock user e in
      rw (← writes) (m, m_at, stays)
  execute-StaysAt (Call.record_action user kind health_bps) e =
      let (_, _, _, _, writes) = run_record_action-eq-ok rt ad l clock user kind health_bps e in
      rw (← writes) (m, m_at, stays)

module _ (rt : Runtime) (ad : Addresses rt) (laws : AddressLaws rt ad) where
  Later-IsSound :
      {l l' : Ledger rt}
      → Later rt ad l l'
      → IsSound rt ad l.markets l.positions
      → IsSound rt ad l'.markets l'.positions
  Later-IsSound same s = s
  Later-IsSound (executed {l' = l'} {l'' = l''} before clock call e) s =
      execute-IsSound rt ad laws l' l'' clock call (Later-IsSound before s) e
  Later-IsSound (elsewhere before tokens) s = Later-IsSound before s

  -- From a ledger that calls lead to, whatever calls are made and whatever happens to the tokens, a
  -- stored market stays stored, with the admin, the mint, the limit, the feed, the rate and the bumps
  -- that it has, and an index that has not fallen and fits a u128. This takes addresses that differ
  -- where the seeds do.
  pub Later-Evolves :
      {l l' : Ledger rt} (mint : Pubkey) {m : Market}
      → Reachable rt ad l
      → Later rt ad l l'
      → l.markets (ad.find (market_seed mint)) ≡ some m
      → (m' : Market) × (l'.markets (ad.find (market_seed mint)) ≡ some m') × Evolves m m'
  Later-Evolves {l} mint {m} r between m_at = go between (Reachable-IsSound rt ad laws r) m_at
    where
      go :
          {a b : Ledger rt}
          → Later rt ad a b
          → IsSound rt ad a.markets a.positions
          → a.markets (ad.find (market_seed mint)) ≡ some m
          → (m' : Market) × (b.markets (ad.find (market_seed mint)) ≡ some m') × Evolves m m'
      go same s at = (m, at, Evolves-refl m (s.market mint m at).index_bound)
      go (executed {l' = b} {l'' = c} before clock call e) s at =
          let (x, x_at, x_ev) = go before s at in
          let (y, y_at, y_ev) =
            execute-StaysAt rt ad laws b c clock (Later-IsSound before s) x_at call e in
          (y, y_at, Evolves-trans x_ev y_ev)
      go (elsewhere before tokens) s at = go before s at
