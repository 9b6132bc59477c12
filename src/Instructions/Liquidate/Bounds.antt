-- ===== src/Instructions/Liquidate/Bounds.antt =====
-- About what `liquidate` of programs/shadow-lend/src/lib.rs moves.
use shadowlend.Prelude.{ℕ, ◌+◌, ◌≤◌, ◌<◌, ◌≡◌, arith}
use shadowlend.Result.{ok}
use shadowlend.State.{Clock}
use shadowlend.Runtime.{Runtime}
use shadowlend.Instructions.Liquidate.{Liquidate, Liquidated, liquidate}
use shadowlend.Instructions.Liquidate.Effect.{
  seize_for-le, settle_effect, liquidate_run, debt, collateral,
}

module _ (rt : Runtime) (ctx : Liquidate rt) (tokens : rt.Tokens) (clock : Clock)
    (repay_amount : ℕ) where
  -- Between the accrued positions that the handler begins with and the two that it returns, which
  -- are not both stored where they are one account, the debt falls by exactly what is repaid, at most
  -- the offer, and the collateral by exactly what is seized, more than nothing; the rest stays.
  pub liquidate_amounts :
      {r : Liquidated rt.Tokens}
      → liquidate rt ctx tokens clock repay_amount ≡ ok r
      → (r.debt_position.borrowed + r.event.repaid ≡ (debt rt ctx clock).borrowed)
        × (r.collateral_position.supplied + r.event.seized ≡ (collateral rt ctx clock).supplied)
        × (r.event.repaid ≤ repay_amount)
        × (0 < r.event.seized)
        × (r.debt_position.supplied ≡ (debt rt ctx clock).supplied)
        × (r.collateral_position.borrowed ≡ (collateral rt ctx clock).borrowed)
  liquidate_amounts {r} e =
      let run = liquidate_run rt ctx clock tokens repay_amount e in
      let d = debt rt ctx clock in
      let c = collateral rt ctx clock in
      let effect = settle_effect rt ctx _ _ d c run.0 run.1 tokens repay_amount run.9 in
      let seizes =
        seize_for-le r.event.repaid run.0 d.decimals run.1 c.decimals c.supplied effect.2 in
      ground (arith, effect, seizes)
