-- ===== src/Ledger/Seizure/Shortfall.antt =====
-- About the health of a borrower after `liquidate` of programs/shadow-lend/src/lib.rs, on the ledger.
use shadowlend.Prelude.{ℕ, ◌≤◌, ◌≡◌, ◌≢◌, sym, ◌∙◌, some}
use shadowlend.Result.{ok, ok-inj}
use shadowlend.State as State
use shadowlend.State.{Position, Price, Clock}
use shadowlend.Runtime.{Runtime}
use shadowlend.Health.{fresh_price}
use shadowlend.Pricing.Worth.{IsScaled}
use shadowlend.Instructions.Liquidate.{Liquidate}
use shadowlend.Instructions.Liquidate.Effect.{
  liquidate_run, debt_market, collateral_market, debt, collateral,
}
use shadowlend.Instructions.Liquidate.Shortfall.{IsSpared, accrue_position-Fits, settle-IsSpared}
use shadowlend.Ledger.{Addresses, AddressLaws, Ledger}
use shadowlend.Ledger.Call.{LiquidateCall}
use shadowlend.Ledger.Execute.{liquidate_context, run_liquidate}
use shadowlend.Ledger.Inversion.Upkeep.{run_liquidate-eq-ok}
use shadowlend.Ledger.Seizure.Outcome.{write_liquidated_lem}

module _ (rt : Runtime) (ad : Addresses rt) (l : Ledger rt) (clock : Clock) (c : LiquidateCall rt)
    (amount : ℕ) (ctx : Liquidate rt) (debt_price collat_price : Price) (n k : ℕ) where
  -- With two different markets and addresses that differ where the seeds do, prices of both sides whose
  -- scale is a negative power of ten down to -38, a collateral limit of at most 95%, and stored amounts
  -- and prices in their ranges: after a liquidation that succeeds, the debts of the two positions as
  -- they are stored, valued at the prices of the liquidation, exceed their collaterals at the limits by
  -- at most one unit, 10^-8 dollars, more than those of the positions stored before with their interest
  -- did, whatever is repaid and seized.
  pub run_liquidate-IsSpared :
      {l' : Ledger rt}
      → AddressLaws rt ad
      → c.debt_market_key ≢ c.collateral_market_key
      → liquidate_context rt ad l c ≡ ok ctx
      → State.IsInRange ctx.debt_position
      → State.IsInRange ctx.collateral_position
      → fresh_price rt ctx.debt_price_update clock (debt_market rt ctx clock).feed_id
        ≡ ok debt_price
      → fresh_price rt ctx.collateral_price_update clock (collateral_market rt ctx clock).feed_id
        ≡ ok collat_price
      → IsScaled debt_price (debt rt ctx clock).decimals n
      → IsScaled collat_price (collateral rt ctx clock).decimals k
      → (collateral rt ctx clock).max_ltv_bps ≤ 9500
      → run_liquidate rt ad l clock c amount ≡ ok l'
      → (p q : Position) × (l'.positions ctx.debt_position_key ≡ some p)
        × (l'.positions ctx.collateral_position_key ≡ some q)
        × IsSpared debt_price collat_price (debt rt ctx clock) (collateral rt ctx clock) p q
  run_liquidate-IsSpared laws apart found dp_range cp_range debt_fresh collat_fresh d s low e =
      let (ctx', r, ctx_ok, r_ok, writes) = run_liquidate-eq-ok rt ad l clock c amount e in
      let one : ctx' ≡ ctx = ok-inj (sym ctx_ok ∙ found) in
      let ran = rw one at r_ok in
      let written = rw one at writes in
      let (debt_at, collat_at, _, _, _, priced, priced', _, _, settles) =
        liquidate_run rt ctx clock l.tokens amount ran in
      let same : debt_at ≡ debt_price = ok-inj (sym priced ∙ debt_fresh) in
      let same' : collat_at ≡ collat_price = ok-inj (sym priced' ∙ collat_fresh) in
      let (p_at, q_at, _, _) = write_liquidated_lem rt ad l clock c amount laws apart ctx found r in
      let spared =
        settle-IsSpared rt ctx _ _ (debt rt ctx clock) (collateral rt ctx clock) debt_price
          collat_price n k l.tokens amount
          (accrue_position-Fits ctx.debt_position (debt_market rt ctx clock) dp_range)
          (accrue_position-Fits ctx.collateral_position (collateral_market rt ctx clock) cp_range) d
          s low (rw (same, same') at settles) in
      rw (← written) (r.debt_position, r.collateral_position, p_at, q_at, spared)
