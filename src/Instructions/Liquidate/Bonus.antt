-- ===== src/Instructions/Liquidate/Bonus.antt =====
-- About the value that `liquidate` of programs/shadow-lend/src/lib.rs lets a liquidator seize.
use native.Mathlib.Nat.{le_of_mul-le-mul_right, mul-le-mul_right, one-le-pow}
use shadowlend.Prelude.{ℕ, suc, ◌+◌, ◌*◌, ◌/◌, ◌^◌, ◌≤◌, ◌<◌, ◌≡◌, inl, inr, arith, Bool-cases}
use shadowlend.Prelude.Int.{pos, negsuc, pos_part, leb_ℤ}
use shadowlend.Machine.{saturating_mul, to_u64_or_max}
use shadowlend.Machine.Laws.{saturating_mul-le-mul, to_u64_or_max-le_self, checked_pow_small}
use shadowlend.Machine.Division.{div-mul-le}
use shadowlend.Result.{ok}
use shadowlend.State.{Price, bps_denominator, liquidation_bonus_bps}
use shadowlend.Pricing.{shift_8dp, scale, unscale, token_usd_8dp, usd_8dp_to_token}
use shadowlend.Pricing.Value.{negated_small}
use shadowlend.Instructions.Liquidate.{seize_value, seize_for}
use shadowlend.Instructions.Liquidate.Effect.{seize_for-le}

module _ (price : Price) (decimals n : ℕ) where
  worth-le :
      (amount : ℕ) {worth : ℕ}
      → shift_8dp price.exponent decimals ≡ ok (negsuc n)
      → n ≤ 37
      → token_usd_8dp amount price decimals ≡ ok worth
      → worth * 10 ^ suc n ≤ amount * pos_part price.price
  unfolding token_usd_8dp scale
  worth-le amount {worth} e small w =
      let p : ℕ = pos_part price.price in
      let d : ℕ = 10 ^ suc n in
      let w' = rw (e, negated_small n small, checked_pow_small (suc n) (omega arith)) at w in
      let exact : worth ≡ saturating_mul amount p / d = ground arith in
      rw exact
        (omega (arith, div-mul-le (saturating_mul amount p) d, saturating_mul-le-mul amount p))

  bought-le :
      (value : ℕ) {bought : ℕ}
      → shift_8dp price.exponent decimals ≡ ok (negsuc n)
      → n ≤ 37
      → usd_8dp_to_token value price decimals ≡ ok bought
      → bought * pos_part price.price ≤ value * 10 ^ suc n
  unfolding usd_8dp_to_token unscale
  bought-le value {bought} e small b = elim (Bool-cases (leb_ℤ price.price (pos 0))) [
    | inl free ↦
        let worthless : pos_part price.price ≡ 0 = ground arith in rw worthless (omega arith)
    | inr priced ↦
        let p : ℕ = pos_part price.price in
        let m : ℕ = saturating_mul value (10 ^ suc n) in
        let b' =
          rw (priced, e, negated_small n small, checked_pow_small (suc n) (omega arith)) at b in
        let exact : bought ≡ to_u64_or_max (m / p) = ground arith in
        let bound : to_u64_or_max (m / p) * p ≤ m / p * p =
          mul-le-mul_right p (to_u64_or_max-le_self (m / p)) in
        rw exact (omega (arith, bound, div-mul-le m p, saturating_mul-le-mul value (10 ^ suc n)))
  ]

  -- Dollars never buy tokens that are worth more than those dollars.
  pub bought_worth :
      (value seized : ℕ) {bought worth : ℕ}
      → shift_8dp price.exponent decimals ≡ ok (negsuc n)
      → n ≤ 37
      → usd_8dp_to_token value price decimals ≡ ok bought
      → seized ≤ bought
      → token_usd_8dp seized price decimals ≡ ok worth
      → worth ≤ value
  bought_worth value seized {bought} {worth} e small b fewer w =
      let d : ℕ = 10 ^ suc n in
      let some_d : 0 < d = one-le-pow (suc n) 10 (omega arith) in
      let fewer' : seized * pos_part price.price ≤ bought * pos_part price.price =
        mul-le-mul_right (pos_part price.price) fewer in
      let bound : worth * d ≤ value * d =
        omega (arith, worth-le seized e small w, fewer', bought-le value e small b) in
      le_of_mul-le-mul_right bound some_d

seize_value-le : (value : ℕ) → seize_value value * 10_000 ≤ value * 10_500
unfolding seize_value
seize_value-le value = omega (
  arith,
  div-mul-le (saturating_mul value (bps_denominator + liquidation_bonus_bps)) bps_denominator,
  saturating_mul-le-mul value (bps_denominator + liquidation_bonus_bps),
)

-- At the prices of the liquidation, what is seized is worth at most 105% of what is repaid, for a
-- collateral feed and mint whose scale is a negative power of ten down to -38.
pub seize_for_bonus :
    (repay : ℕ) (debt_price : Price) (debt_decimals : ℕ) (collat_price : Price)
    (collat_decimals supplied n : ℕ) {seized repaid worth : ℕ}
    → shift_8dp collat_price.exponent collat_decimals ≡ ok (negsuc n)
    → n ≤ 37
    → seize_for repay debt_price debt_decimals collat_price collat_decimals supplied ≡ ok seized
    → token_usd_8dp repay debt_price debt_decimals ≡ ok repaid
    → token_usd_8dp seized collat_price collat_decimals ≡ ok worth
    → worth * 10_000 ≤ repaid * 10_500
seize_for_bonus repay debt_price debt_decimals collat_price collat_decimals supplied n {seized}
      {repaid} e small seizes priced w =
    let (value, bought, values, buys, capped) =
      seize_for-le repay debt_price debt_decimals collat_price collat_decimals supplied seizes in
    let same : value ≡ repaid = ground arith in
    let bound =
      bought_worth collat_price collat_decimals n (seize_value value) seized e small buys
        (omega arith) w in
    omega (arith, bound, seize_value-le value, same)
