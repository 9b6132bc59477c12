-- ===== src/Pricing/RoundTrip.antt =====
-- About `usd_8dp_to_token` of programs/shadow-lend/src/lib.rs after `token_usd_8dp`.
use native.Mathlib.Nat.{lt_of_mul-lt-mul_right, one-le-pow}
use shadowlend.Prelude.{ℕ, suc, ◌+◌, ◌*◌, ◌/◌, ◌^◌, ◌≤◌, ◌<◌, ◌≡◌, false, arith}
use shadowlend.Prelude.Int.{pos, negsuc, pos_part, leb_ℤ}
use shadowlend.Machine.{u64_max, u128_max}
use shadowlend.Machine.Laws.{saturating_mul_exact, to_u64_or_max_exact, checked_pow_small}
use shadowlend.Machine.Division.{div-mul-le, lt-div-mul, div-le, div-le_self}
use shadowlend.Result.{ok}
use shadowlend.State.{Price}
use shadowlend.Pricing.{shift_8dp, unscale, token_usd_8dp, usd_8dp_to_token}
use shadowlend.Pricing.Value.{IsPriced, raw-le, negated_small, token_usd_8dp_exact}

-- floor (floor (a * p / d) * d / p) is a or a - 1 where d ≤ p.
back-le : (a p d : ℕ) → 0 < p → a * p / d * d / p ≤ a
back-le a p d h = div-le a (a * p / d * d) p h (div-mul-le (a * p) d)

back-ge : (a p d : ℕ) → 0 < d → d ≤ p → a ≤ a * p / d * d / p + 1
back-ge a p d h k =
    let pos_p : 0 < p = omega arith in
    let v : ℕ = a * p / d * d in
    let lo : a * p < v + d = lt-div-mul (a * p) d h in
    let hi : v < v / p * p + p = lt-div-mul v p pos_p in
    let below : a < v / p + 2 = lt_of_mul-lt-mul_right p (omega (arith, lo, hi)) in omega arith

unscale_exact :
    (value p n : ℕ)
    → n ≤ 37
    → value * 10 ^ suc n ≤ u128_max
    → unscale value p (negsuc n) ≡ ok (value * 10 ^ suc n / p)
unfolding unscale
unscale_exact value p n small fits =
    rw (negated_small n small, checked_pow_small (suc n) (omega arith))
      (rw (saturating_mul_exact value (10 ^ suc n) fits))

bought :
    (value : ℕ) (price : Price) (decimals n : ℕ)
    → shift_8dp price.exponent decimals ≡ ok (negsuc n)
    → n ≤ 37
    → 0 < pos_part price.price
    → value * 10 ^ suc n ≤ u128_max
    → value * 10 ^ suc n / pos_part price.price ≤ u64_max
    → usd_8dp_to_token value price decimals ≡ ok (value * 10 ^ suc n / pos_part price.price)
unfolding usd_8dp_to_token
bought value price decimals n e small some_p fits few =
    let positive : leb_ℤ price.price (pos 0) ≡ false = ground arith in
    rw (positive, e, unscale_exact value (pos_part price.price) n small fits)
      (rw (to_u64_or_max_exact (value * 10 ^ suc n / pos_part price.price) few))

-- For an amount of a u64, a price of an i64, a shift from -1 to -38 and a price of at least
-- 10^-shift, both conversions succeed, and the dollars of the amount buy back that amount or one
-- atom less.
pub usd_8dp_to_token-token_usd_8dp :
    (amount : ℕ) (price : Price) (decimals n : ℕ)
    → IsPriced amount price
    → shift_8dp price.exponent decimals ≡ ok (negsuc n)
    → n ≤ 37
    → 10 ^ suc n ≤ pos_part price.price
    → (value back : ℕ) × (token_usd_8dp amount price decimals ≡ ok value)
      × (usd_8dp_to_token value price decimals ≡ ok back)
      × (back ≤ amount)
      × (amount ≤ back + 1)
usd_8dp_to_token-token_usd_8dp amount price decimals n h e small dear =
    let p : ℕ = pos_part price.price in
    let d : ℕ = 10 ^ suc n in
    let some_d : 0 < d = one-le-pow (suc n) 10 (omega arith) in
    let some_p : 0 < p = omega arith in
    let bound : amount * p ≤ 2 ^ 127 = raw-le amount price h in
    let whole : amount * p / d * d ≤ amount * p = div-mul-le (amount * p) d in
    let fits : amount * p / d ≤ u128_max = omega (arith, div-le_self (amount * p) d) in
    let lower = back-le amount p d some_p in
    (
      amount * p / d,
      amount * p / d * d / p,
      token_usd_8dp_exact amount price decimals h e (omega arith) fits,
      bought (amount * p / d) price decimals n e small some_p (omega arith)
          (omega (arith, h.amount_fits, lower)),
      lower,
      back-ge amount p d some_d dear,
    )
