-- ===== src/Instructions/Liquidate/Effect.antt =====
-- About the course of `liquidate` of programs/shadow-lend/src/lib.rs.
use shadowlend.Prelude.{ℕ, ◌-◌, ◌≤◌, ◌<◌, ◌≡◌, ◌≢◌, some, arith, ltb, leb, min, not, ◌==◌}
use shadowlend.Result.{ok, market, MarketError, >>=-eq-ok, >>-eq-ok, require, require_keys_eq}
use shadowlend.State.{Market, Position, Clock, Price}
use shadowlend.Runtime.{Runtime}
use shadowlend.Pricing.{token_usd_8dp, usd_8dp_to_token}
use shadowlend.Interest.{accrue_market, accrue_position}
use shadowlend.Health.{Totals, fresh_price}
use shadowlend.Instructions.Accounts.{transfer}
use shadowlend.Instructions.Liquidate.{
  Liquidate, Liquidated, liquidation_totals, seize_for, seize_value, liquidator_pays, settle,
  vault_releases, liquidate,
}

-- The collateral taken is at most what is held, and at most what the dollars with the bonus buy.
pub seize_for-le :
    (repay : ℕ) (debt_price : Price) (debt_decimals : ℕ) (collat_price : Price)
    (collat_decimals supplied : ℕ) {seized : ℕ}
    → seize_for repay debt_price debt_decimals collat_price collat_decimals supplied ≡ ok seized
    → (value bought : ℕ) × (token_usd_8dp repay debt_price debt_decimals ≡ ok value)
      × (usd_8dp_to_token (seize_value value) collat_price collat_decimals ≡ ok bought)
      × (seized ≡ min bought supplied)
unfolding seize_for
seize_for-le repay debt_price debt_decimals collat_price collat_decimals supplied e =
    let (value, priced, e₁) = >>=-eq-ok (token_usd_8dp repay debt_price debt_decimals) _ e in
    let (bought, buys, e₂) =
      >>=-eq-ok (usd_8dp_to_token (seize_value value) collat_price collat_decimals) _ e₁ in
    (value, bought, priced, buys, ground arith)

module _ (rt : Runtime) (ctx : Liquidate rt) (dm cm : Market) (dp cp : Position)
    (debt_price collat_price : Price) (tokens : rt.Tokens) (repay_amount : ℕ) where
  -- The repayment is the offer or the whole debt; what is seized is priced from it.
  pub settle_effect :
      {r : Liquidated rt.Tokens}
      → settle rt ctx dm cm dp cp debt_price collat_price tokens repay_amount ≡ ok r
      → (paid : rt.Tokens) × (r.event.repaid ≡ min repay_amount dp.borrowed)
        × (seize_for r.event.repaid debt_price dp.decimals collat_price cp.decimals cp.supplied
            ≡ ok r.event.seized)
        × (0 < r.event.seized)
        × (r.event.seized ≤ rt.balance tokens ctx.collateral_vault)
        × (rt.transfer tokens (liquidator_pays rt ctx) r.event.repaid ≡ some paid)
        × (rt.transfer paid (vault_releases rt ctx) r.event.seized ≡ some r.tokens)
        × (r.debt_position ≡ record dp { borrowed = dp.borrowed - r.event.repaid })
        × (r.collateral_position ≡ record cp { supplied = cp.supplied - r.event.seized })
        × (r.debt_market ≡ record dm { total_borrowed = dm.total_borrowed - r.event.repaid })
        × (r.collateral_market ≡ record cm { total_supplied = cm.total_supplied - r.event.seized })
  unfolding settle transfer
  settle_effect {r} e =
      let (seized, seizes, e₁) =
        >>=-eq-ok
          (seize_for (min repay_amount dp.borrowed) debt_price dp.decimals collat_price cp.decimals
            cp.supplied)
          _ e in
      let (_, e₂) = >>-eq-ok (require (ltb 0 seized) MarketError.nothing_to_liquidate) _ e₁ in
      let (_, e₃) =
        >>-eq-ok
          (require (leb seized (rt.balance tokens ctx.collateral_vault))
            MarketError.insufficient_liquidity)
          _ e₂ in
      let (paid, pays, e₄) =
        >>=-eq-ok (transfer rt tokens (liquidator_pays rt ctx) (min repay_amount dp.borrowed)) _
          e₃ in
      let (released, releases, e₅) =
        >>=-eq-ok (transfer rt paid (vault_releases rt ctx) seized) _ e₄ in
      (
        paid,
        ground arith,
        ground arith,
        ground arith,
        ground arith,
        ground arith,
        ground arith,
        ground arith,
        ground arith,
        ground arith,
        ground arith,
      )

module _ (rt : Runtime) (ctx : Liquidate rt) (clock : Clock) where
  -- The markets and positions of a liquidation with the interest up to the clock.
  abbrev pub debt_market : Market
  debt_market = accrue_market ctx.debt_market clock

  abbrev pub collateral_market : Market
  collateral_market = accrue_market ctx.collateral_market clock

  abbrev pub debt : Position
  debt = accrue_position ctx.debt_position debt_market

  abbrev pub collateral : Position
  collateral = accrue_position ctx.collateral_position collateral_market

  -- A liquidation is of another's position, which the prices and the listed accounts show to be
  -- under water, and ends in `settle`.
  pub liquidate_run :
      (tokens : rt.Tokens) (repay_amount : ℕ) {r : Liquidated rt.Tokens}
      → liquidate rt ctx tokens clock repay_amount ≡ ok r
      → (debt_price collat_price : Price) × (t : Totals) × (0 < repay_amount)
        × (ctx.liquidator ≢ ctx.borrower)
        × (fresh_price rt ctx.debt_price_update clock debt_market.feed_id ≡ ok debt_price)
        × (fresh_price rt ctx.collateral_price_update clock collateral_market.feed_id
            ≡ ok collat_price)
        × (liquidation_totals rt ctx debt collateral debt_price collat_price clock ≡ ok t)
        × (t.collat_at_ltv < t.debt)
        × (settle rt ctx debt_market collateral_market debt collateral debt_price collat_price
              tokens repay_amount
            ≡ ok r)
  unfolding liquidate
  liquidate_run tokens repay_amount {r} e =
      let (offers, e₁) = >>-eq-ok (require (ltb 0 repay_amount) MarketError.zero_amount) _ e in
      let (other, e₂) =
        >>-eq-ok (require (not (ctx.liquidator == ctx.borrower)) MarketError.self_liquidation) _
          e₁ in
      let (_, e₃) =
        >>-eq-ok (require_keys_eq debt.user ctx.borrower (market MarketError.bad_position_account))
          _ e₂ in
      let (_, e₄) =
        >>-eq-ok
          (require_keys_eq collateral.user ctx.borrower (market MarketError.bad_position_account)) _
          e₃ in
      let (_, e₅) =
        >>-eq-ok (require (ltb 0 debt.borrowed) MarketError.nothing_to_liquidate) _ e₄ in
      let (_, e₆) =
        >>-eq-ok (require (ltb 0 collateral.supplied) MarketError.nothing_to_liquidate) _ e₅ in
      let (debt_price, debt_priced, e₇) =
        >>=-eq-ok (fresh_price rt ctx.debt_price_update clock debt_market.feed_id) _ e₆ in
      let (collat_price, collat_priced, e₈) =
        >>=-eq-ok (fresh_price rt ctx.collateral_price_update clock collateral_market.feed_id) _
          e₇ in
      let (t, sums, e₉) =
        >>=-eq-ok (liquidation_totals rt ctx debt collateral debt_price collat_price clock) _ e₈ in
      let (unhealthy, e₁₀) =
        >>-eq-ok (require (ltb t.collat_at_ltv t.debt) MarketError.position_healthy) _ e₉ in
      (
        debt_price,
        collat_price,
        t,
        ground arith,
        ground arith,
        debt_priced,
        collat_priced,
        sums,
        ground arith,
        e₁₀,
      )
