-- ===== src/Pricing/Value.antt =====
-- About `token_usd_8dp` of programs/shadow-lend/src/lib.rs and the exact value,
-- floor (amount * price * 10^shift).
use native.Mathlib.Nat.{mul-le-mul, pow-le-pow_right, div-eq_of_lt, div-one}
use shadowlend.Prelude.{ℕ, zero, suc, ◌*◌, ◌/◌, ◌^◌, ◌-◌, ◌≤◌, ◌≡◌, refl, ap, arith, unwrap_or}
use shadowlend.Prelude.Int.{ℤ, pos, negsuc, pos_part, ◌≤ℤ◌}
use shadowlend.Machine.{fits_i32, u64_max, u128_max, saturating_mul, checked_pow}
use shadowlend.Machine.Laws.{
  saturating_mul-le, saturating_mul-le-mul, saturating_mul_exact, saturating_mul_mono,
  saturating_mul-zero, checked_pow_small, checked_pow_large, checked_pow_fits,
}
use shadowlend.Machine.Division.{div_mono, div-le_self}
use shadowlend.Result.{ok, >>=-eq-ok}
use shadowlend.State.{Price}
use shadowlend.Pricing.{checked_i32, shift_8dp, negated, scale, token_usd_8dp, usd_8dp_to_token}

-- The mathematical value: `raw` times a power of ten, rounded down.
abbrev pub scaled : ℕ → ℤ → ℕ
scaled raw (pos s) = raw * 10 ^ s
scaled raw (negsuc n) = raw / 10 ^ suc n

-- An amount of a u64 and a price of an i64.
pub record IsPriced (amount : ℕ) (price : Price) : Type 0 where
  pub amount_fits : amount ≤ u64_max
  pub price_fits : pos_part price.price ≤ 2 ^ 63 - 1

pub raw-le :
    (amount : ℕ) (price : Price) → IsPriced amount price → amount * pos_part price.price ≤ 2 ^ 127
raw-le amount price h =
    let bound : amount * pos_part price.price ≤ u64_max * (2 ^ 63 - 1) =
      mul-le-mul h.amount_fits h.price_fits in
    omega arith

pub negated_small : (n : ℕ) → n ≤ 37 → negated n ≡ ok (suc n)
unfolding negated checked_i32 fits_i32
negated_small n h = ground arith

pow-le-of_mul : (raw k : ℕ) → suc raw * 10 ^ k ≤ u128_max → 10 ^ k ≤ u128_max
pow-le-of_mul raw k h = grind arith

scale_exact :
    (raw : ℕ) (s : ℤ) → negsuc 37 ≤ℤ s → scaled raw s ≤ u128_max → scale raw s ≡ ok (scaled raw s)
unfolding scale
scale_exact zero (pos s) low fits = rw saturating_mul-zero (ground arith)
scale_exact (suc raw) (pos s) low fits =
    rw (checked_pow_fits 10 s (pow-le-of_mul raw s fits))
      (rw (saturating_mul_exact (suc raw) (10 ^ s) fits))
scale_exact raw (negsuc n) low fits =
    rw (negated_small n (omega arith), checked_pow_small (suc n) (omega arith))

-- For an amount of a u64, a price of an i64, a shift that does not overflow an i32 and is at least
-- -38, and an exact value that fits a u128, the result is the exact value, rounded down.
pub token_usd_8dp_exact :
    (amount : ℕ) (price : Price) (decimals : ℕ) {shift : ℤ}
    → IsPriced amount price
    → shift_8dp price.exponent decimals ≡ ok shift
    → negsuc 37 ≤ℤ shift
    → scaled (amount * pos_part price.price) shift ≤ u128_max
    → token_usd_8dp amount price decimals ≡ ok (scaled (amount * pos_part price.price) shift)
unfolding token_usd_8dp
token_usd_8dp_exact amount price decimals {shift} h e low fits =
    let whole : amount * pos_part price.price ≤ u128_max = omega (arith, raw-le amount price h) in
    rw (e, saturating_mul_exact amount (pos_part price.price) whole)
      (scale_exact (amount * pos_part price.price) shift low fits)

scale_mono :
    (a b : ℕ) (s : ℤ) {v : ℕ} → a ≤ b → scale a s ≡ ok v → (w : ℕ) × (scale b s ≡ ok w) × (v ≤ w)
unfolding scale
scale_mono a b (pos s) {v} h e =
    let c : ℕ = unwrap_or (checked_pow 10 s) u128_max in
    (saturating_mul b c, refl, ground (arith, saturating_mul_mono a c b c h (omega arith)))
scale_mono a b (negsuc n) {v} h e =
    let (k, negates, e') = >>=-eq-ok (negated n) _ e in
    let c : ℕ = unwrap_or (checked_pow 10 k) 1 in
    (b / c, rw negates, ground (arith, div_mono a b c h))

-- Where an amount has a value, every larger amount has one that is not less.
pub token_usd_8dp_mono :
    (a b : ℕ) (price : Price) (decimals : ℕ) {v : ℕ}
    → a ≤ b
    → token_usd_8dp a price decimals ≡ ok v
    → (w : ℕ) × (token_usd_8dp b price decimals ≡ ok w) × (v ≤ w)
unfolding token_usd_8dp
token_usd_8dp_mono a b price decimals {v} h e =
    let p : ℕ = pos_part price.price in
    let (shift, shifts, e') = >>=-eq-ok (shift_8dp price.exponent decimals) _ e in
    rw shifts (
      scale_mono (saturating_mul a p) (saturating_mul b p) shift
        (saturating_mul_mono a p b p h (omega arith)) e')

scale-le : (raw : ℕ) (s : ℤ) {v : ℕ} → raw ≤ u128_max → scale raw s ≡ ok v → v ≤ u128_max
unfolding scale
scale-le raw (pos s) h e =
    ground (arith, saturating_mul-le raw (unwrap_or (checked_pow 10 s) u128_max))
scale-le raw (negsuc n) h e =
    let (k, negates, e') = >>=-eq-ok (negated n) _ e in
    ground (arith, div-le_self raw (unwrap_or (checked_pow 10 k) 1))

-- A value fits a u128.
pub token_usd_8dp-le :
    (amount : ℕ) (price : Price) (decimals : ℕ) {v : ℕ}
    → token_usd_8dp amount price decimals ≡ ok v
    → v ≤ u128_max
unfolding token_usd_8dp
token_usd_8dp-le amount price decimals e =
    let (shift, shifts, e') = >>=-eq-ok (shift_8dp price.exponent decimals) _ e in
    scale-le (saturating_mul amount (pos_part price.price)) shift
      (saturating_mul-le amount (pos_part price.price)) e'

scale-zero : (s : ℤ) {v : ℕ} → scale 0 s ≡ ok v → v ≡ 0
unfolding scale
scale-zero (pos s) e = ground (arith, saturating_mul-zero (unwrap_or (checked_pow 10 s) u128_max))
scale-zero (negsuc n) e =
    let (k, negates, e') = >>=-eq-ok (negated n) _ e in
    ground (arith, div-le_self 0 (unwrap_or (checked_pow 10 k) 1))

-- At a price of zero or less, where the exponent does not overflow, any amount is worth nothing and
-- any dollars buy nothing.
pub nonpositive_price :
    (amount value : ℕ) (price : Price) (decimals : ℕ) {v : ℕ}
    → price.price ≤ℤ pos 0
    → token_usd_8dp amount price decimals ≡ ok v
    → (v ≡ 0) × (usd_8dp_to_token value price decimals ≡ ok 0)
unfolding token_usd_8dp usd_8dp_to_token
nonpositive_price amount value price decimals h e =
    let free : pos_part price.price ≡ 0 = ground arith in
    let (shift, shifts, e') = >>=-eq-ok (shift_8dp price.exponent decimals) _ e in
    let none_left : saturating_mul amount (pos_part price.price) ≡ 0 =
      omega (arith, saturating_mul-le-mul amount (pos_part price.price), ap (◌*◌ amount) free) in
    let e'' : scale 0 shift ≡ ok _ = rw none_left at e' in (scale-zero shift e'', ground arith)

scale_deep : (raw n : ℕ) → 38 ≤ n → suc n ≤ 2 ^ 31 - 1 → scale raw (negsuc n) ≡ ok raw
unfolding scale negated checked_i32 fits_i32
scale_deep raw n deep fits = ground (arith, checked_pow_large (suc n), div-one raw)

-- For an amount of a u64, a price of an i64 and a shift of -39 or less, the result is the product of
-- amount and price with no scaling, where the exact value, rounded down, is zero.
pub token_usd_8dp_deep_shift :
    (amount : ℕ) (price : Price) (decimals n : ℕ)
    → IsPriced amount price
    → shift_8dp price.exponent decimals ≡ ok (negsuc n)
    → 38 ≤ n
    → suc n ≤ 2 ^ 31 - 1
    → (token_usd_8dp amount price decimals ≡ ok (amount * pos_part price.price))
      × (scaled (amount * pos_part price.price) (negsuc n) ≡ 0)
unfolding token_usd_8dp
token_usd_8dp_deep_shift amount price decimals n h e deep fits =
    let bound = raw-le amount price h in
    let whole : amount * pos_part price.price ≤ u128_max = omega (arith, bound) in
    let power : 10 ^ 39 ≤ 10 ^ suc n = pow-le-pow_right (omega arith) {i = 39} (omega arith) in
    (
      rw (
        e,
        saturating_mul_exact amount (pos_part price.price) whole,
        scale_deep (amount * pos_part price.price) n deep fits,
      ),
      div-eq_of_lt (omega arith),
    )
