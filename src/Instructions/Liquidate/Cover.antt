-- ===== src/Instructions/Liquidate/Cover.antt =====
-- About the collateral that `liquidate` of programs/shadow-lend/src/lib.rs takes at a limit of up to 95%,
-- against the debt that it repays.
use native.Mathlib.Nat.{mul-le-mul}
use shadowlend.Prelude.{ℕ, ◌+◌, ◌-◌, ◌*◌, ◌≤◌, ◌≡◌, arith}
use shadowlend.Machine.{u64_max, saturating_mul, saturating_add, clamp_u128}
use shadowlend.Result.{ok}
use shadowlend.State.{Price}
use shadowlend.Pricing.Worth.{IsScaled, worth, token_usd_8dp-worth, worth-split}
use shadowlend.Health.{at_ltv}
use shadowlend.Instructions.Liquidate.{seize_for}
use shadowlend.Instructions.Liquidate.Bonus.{seize_for_bonus}

-- Collateral that loses a value loses less than 95% of it, and of two units, at a limit up to that.
at_ltv-lost :
    (before after lost ltv : ℕ)
    → before ≤ after + lost + 1
    → ltv ≤ 9500
    → at_ltv before ltv * 10_000 ≤ at_ltv after ltv * 10_000 + (lost + 1) * 9500 + 10_000
unfolding at_ltv saturating_mul clamp_u128
at_ltv-lost before after lost ltv h low =
    let more : before * ltv ≤ (after + lost + 1) * ltv = mul-le-mul h (omega arith) in
    let apart : (after + lost + 1) * ltv ≡ after * ltv + (lost + 1) * ltv = omega arith in
    let less : (lost + 1) * ltv ≤ (lost + 1) * 9500 = mul-le-mul (omega arith) low in ground arith

-- The collateral at the limit falls by at most what the debt falls by, and one unit.
pub seize_for-covered :
    (repaid owed supplied ltv : ℕ) (debt_price : Price) (debt_decimals n : ℕ) (collat_price : Price)
    (collat_decimals k : ℕ) {seized : ℕ}
    → IsScaled debt_price debt_decimals n
    → IsScaled collat_price collat_decimals k
    → repaid ≤ owed
    → owed ≤ u64_max
    → supplied ≤ u64_max
    → ltv ≤ 9500
    → seized ≤ supplied
    → seize_for repaid debt_price debt_decimals collat_price collat_decimals supplied ≡ ok seized
    → at_ltv (worth collat_price k supplied) ltv + worth debt_price n (owed - repaid)
      ≤ at_ltv (worth collat_price k (supplied - seized)) ltv + worth debt_price n owed + 1
seize_for-covered repaid owed supplied ltv debt_price debt_decimals n collat_price collat_decimals k
      {seized} d c less owed_fits supplied_fits low held e =
    let bonus =
      seize_for_bonus repaid debt_price debt_decimals collat_price collat_decimals supplied k
        c.shift c.small e (token_usd_8dp-worth debt_price debt_decimals n d repaid (omega arith))
        (token_usd_8dp-worth collat_price collat_decimals k c seized (omega arith)) in
    let (_, kept) = worth-split collat_price collat_decimals k c supplied seized held in
    let (fell, _) = worth-split debt_price debt_decimals n d owed repaid less in
    let lost =
      at_ltv-lost (worth collat_price k supplied) (worth collat_price k (supplied - seized))
        (worth collat_price k seized) ltv kept low in
    omega (arith, bonus, fell, lost)

pub clamp_u128-sum :
    (a b c : ℕ) → clamp_u128 (saturating_add (saturating_add 0 a) b + c) ≡ clamp_u128 (a + b + c)
unfolding saturating_add clamp_u128
clamp_u128-sum a b c = ground arith
