-- ===== src/Ledger/Ranges/Calls.antt =====
-- The ranges of the Rust types of the stored accounts of programs/shadow-lend/src/lib.rs, call by call.
use shadowlend.Prelude.{ℕ, ◌≤◌, ◌≡◌, arith}
use shadowlend.Machine.{u64_max, checked_add}
use shadowlend.Result.{ok}
use shadowlend.State.{Pubkey, UserStats, ActionKind, Clock}
use shadowlend.Runtime.{Runtime}
use shadowlend.Instructions.Admin.{initialize_market, set_claim_amount}
use shadowlend.Instructions.Faucet.Receipt.{claim_faucet_effect}
use shadowlend.Instructions.Liquidate.{Liquidate, Liquidated, liquidate}
use shadowlend.Instructions.Liquidate.Effect.{
  settle_effect, liquidate_run, debt_market, collateral_market,
}
use shadowlend.Instructions.Stats.{increment, count_action, record_action, init_user_stats}
use shadowlend.Ledger.{Addresses, Ledger, context, stats_seed}
use shadowlend.Ledger.Call.{Call}
use shadowlend.Ledger.Execute.{execute, write_liquidated}
use shadowlend.Ledger.Inversion.{
  run_supply-eq-ok, run_repay-eq-ok, run_withdraw-eq-ok, run_borrow-eq-ok,
}
use shadowlend.Ledger.Inversion.Upkeep.{
  run_initialize_market-eq-ok, run_set_claim_amount-eq-ok, run_claim_faucet-eq-ok,
  run_liquidate-eq-ok, run_init_user_stats-eq-ok, run_record_action-eq-ok,
}
use shadowlend.Ledger.Inversion.Seizure.{liquidate_context-eq-ok}
use shadowlend.Ledger.Ranges.{
  u16_max, IsTypedMarket, IsTypedPosition, IsTypedStats, supply-AreTyped, repay-AreTyped,
  withdraw-AreTyped, borrow-AreTyped, total_supplied-IsTypedMarket, total_borrowed-IsTypedMarket,
  supplied-IsTypedPosition, borrowed-IsTypedPosition, accrue_market-IsTypedMarket,
  accrue_position-IsTypedPosition,
}
use shadowlend.Ledger.Ranges.Store.{
  put-Every, IsTyped, IsTypedCall, held-IsTypedPosition, write_back-IsTyped, market-IsTyped,
  stats-IsTyped,
}

record_action-IsTypedStats :
    (user : Pubkey) (s : UserStats) (clock : Clock) (kind : ActionKind) (health_bps : ℕ)
    {r : UserStats × _}
    → IsTypedStats s
    → health_bps ≤ u16_max
    → record_action user s clock kind health_bps ≡ ok r
    → IsTypedStats r.0
unfolding record_action count_action increment checked_add
record_action-IsTypedStats user s clock ActionKind.supply health_bps h fits e = ground (arith, h)
record_action-IsTypedStats user s clock ActionKind.borrow health_bps h fits e = ground (arith, h)
record_action-IsTypedStats user s clock ActionKind.repay health_bps h fits e = ground (arith, h)
record_action-IsTypedStats user s clock ActionKind.liquidation health_bps h fits e =
    ground (arith, h)

liquidate-AreTyped :
    (rt : Runtime) (ctx : Liquidate rt) (tokens : rt.Tokens) (clock : Clock) (amount : ℕ)
    {r : Liquidated rt.Tokens}
    → clock.slot ≤ u64_max
    → IsTypedMarket ctx.debt_market
    → IsTypedPosition ctx.debt_position
    → IsTypedMarket ctx.collateral_market
    → IsTypedPosition ctx.collateral_position
    → liquidate rt ctx tokens clock amount ≡ ok r
    → (IsTypedMarket r.debt_market × IsTypedPosition r.debt_position)
      × (IsTypedMarket r.collateral_market × IsTypedPosition r.collateral_position)
liquidate-AreTyped rt ctx tokens clock amount now dm dp cm cp e =
    let (_, _, _, _, _, _, _, _, _, settles) = liquidate_run rt ctx clock tokens amount e in
    let (_, _, _, _, _, _, _, dp_is, cp_is, dm_is, cm_is) =
      settle_effect rt ctx _ _ _ _ _ _ tokens amount settles in
    let m = accrue_market-IsTypedMarket ctx.debt_market clock dm now in
    let n = accrue_market-IsTypedMarket ctx.collateral_market clock cm now in
    let p = accrue_position-IsTypedPosition ctx.debt_position (debt_market rt ctx clock) dp m in
    let q =
      accrue_position-IsTypedPosition ctx.collateral_position (collateral_market rt ctx clock) cp
        n in
    rw (dp_is, cp_is, dm_is, cm_is)
      (
        (
          total_borrowed-IsTypedMarket _ m _ (omega (arith, m.total_borrowed)),
          borrowed-IsTypedPosition _ p _ (omega (arith, p.borrowed)),
        ),
        (
          total_supplied-IsTypedMarket _ n _ (omega (arith, n.total_supplied)),
          supplied-IsTypedPosition _ q _ (omega (arith, q.supplied)),
        ),
      )

module _ (rt : Runtime) (ad : Addresses rt) (l : Ledger rt) (h : IsTyped rt l) where
  -- A call that succeeds, with a slot and arguments in the ranges of their types, on a ledger whose
  -- stored numbers fit the Rust types of their fields leaves such a ledger: no stored u8, u16, u64 or
  -- u128 but the bumps, which the addresses give, leaves its range.
  pub execute-IsTyped :
      (clock : Clock) (call : Call rt) {l' : Ledger rt}
      → clock.slot ≤ u64_max
      → IsTypedCall call
      → execute rt ad l clock call ≡ ok l'
      → IsTyped rt l'
  unfolding execute context initialize_market set_claim_amount write_liquidated init_user_stats
  execute-IsTyped clock (Call.initialize_market admin mint claim ltv feed rate) now (c, t, b) e =
      let (m, _, made, writes) =
        run_initialize_market-eq-ok rt ad l clock admin mint claim ltv feed rate e in
      let typed : IsTypedMarket m = ground arith in
      rw (← writes) (market-IsTyped rt ad l h _ m typed)
  execute-IsTyped clock (Call.set_claim_amount admin key amount) now fits e =
      let (m, m', found, set, writes) = run_set_claim_amount-eq-ok rt ad l admin key amount e in
      let typed : IsTypedMarket m' = ground (arith, h.markets _ m found) in
      rw (← writes) (market-IsTyped rt ad l h _ m' typed)
  execute-IsTyped clock (Call.claim_faucet user mint) now _ e =
      let (m, r, found, _, claimed, writes) = run_claim_faucet-eq-ok rt ad l clock user mint e in
      let (_, paid, _, _, counted, fits, _) = claim_faucet_effect rt _ l.tokens clock claimed in
      let old = h.markets _ m found in
      let typed : IsTypedMarket r.market = ground (arith, old) in
      let amount : r.receipt.amount ≤ u64_max = omega (arith, paid, old.amount_per_claim) in
      rw (← writes) (record {
        markets = put-Every l.markets IsTypedMarket _ r.market h.markets typed;
        positions = h.positions;
        receipts = put-Every l.receipts (λ x. x.amount ≤ u64_max) _ r.receipt h.receipts amount;
        stats = h.stats;
      })
  execute-IsTyped clock (Call.supply user mint amount) now _ e =
      let (m, r, found, r_ok, writes) = run_supply-eq-ok rt ad l clock user mint amount e in
      let p = held-IsTypedPosition rt ad l h user mint in
      rw (← writes) (
        write_back-IsTyped rt ad l h user mint m _ r
          (supply-AreTyped rt l.tokens clock amount now _ (h.markets _ m found) p r_ok))
  execute-IsTyped clock (Call.repay user mint amount) now _ e =
      let (m, r, found, r_ok, writes) = run_repay-eq-ok rt ad l clock user mint amount e in
      let p = held-IsTypedPosition rt ad l h user mint in
      rw (← writes) (
        write_back-IsTyped rt ad l h user mint m _ r
          (repay-AreTyped rt l.tokens clock amount now _ (h.markets _ m found) p r_ok))
  execute-IsTyped clock (Call.withdraw user mint amount update remaining) now _ e =
      let (m, p, r, found, at, r_ok, writes) =
        run_withdraw-eq-ok rt ad l clock user mint amount update remaining e in
      rw (← writes) (
        write_back-IsTyped rt ad l h user mint m p r (
          withdraw-AreTyped rt l.tokens clock amount now _ (h.markets _ m found)
            (h.positions _ p at) r_ok))
  execute-IsTyped clock (Call.borrow user mint amount update remaining) now _ e =
      let (m, p, r, found, at, r_ok, writes) =
        run_borrow-eq-ok rt ad l clock user mint amount update remaining e in
      rw (← writes) (
        write_back-IsTyped rt ad l h user mint m p r (
          borrow-AreTyped rt l.tokens clock amount now _ (h.markets _ m found) (h.positions _ p at)
            r_ok))
  execute-IsTyped clock (Call.liquidate c amount) now _ e =
      let (ctx, r, ctx_ok, r_ok, writes) = run_liquidate-eq-ok rt ad l clock c amount e in
      let (dm_at, _, _, dp_at, cm_at, _, _, cp_at, _, _, _, _) =
        liquidate_context-eq-ok rt ad l c ctx_ok in
      let ((dm, dp), (cm, cp)) =
        liquidate-AreTyped rt ctx l.tokens clock amount now (h.markets _ _ dm_at)
          (h.positions _ _ dp_at) (h.markets _ _ cm_at) (h.positions _ _ cp_at) r_ok in
      rw (← writes) (record {
        markets =
            put-Every _ IsTypedMarket _ r.collateral_market
              (put-Every l.markets IsTypedMarket _ r.debt_market h.markets dm) cm;
        positions =
            put-Every _ IsTypedPosition _ r.collateral_position
              (put-Every l.positions IsTypedPosition _ r.debt_position h.positions dp) cp;
        receipts = h.receipts;
        stats = h.stats;
      })
  execute-IsTyped clock (Call.init_user_stats user) now _ e =
      let (_, writes) = run_init_user_stats-eq-ok rt ad l clock user e in
      let fresh = init_user_stats user (ad.bump (stats_seed user)) clock in
      let typed : IsTypedStats fresh = ground arith in
      rw (← writes) (stats-IsTyped rt ad l h _ fresh typed)
  execute-IsTyped clock (Call.record_action user kind health_bps) now fits e =
      let (s, r, at, done, writes) = run_record_action-eq-ok rt ad l clock user kind health_bps e in
      let typed =
        record_action-IsTypedStats user s clock kind health_bps (h.stats _ s at) fits done in
      rw (← writes) (stats-IsTyped rt ad l h _ r.0 typed)
