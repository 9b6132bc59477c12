-- ===== src/Machine/Laws.antt =====
-- Laws of the saturating and checked operations.
use native.Mathlib.Nat.{mul-le-mul, pow-le-pow_right}
use shadowlend.Prelude.{ℕ, ◌+◌, ◌*◌, ◌^◌, ◌≤◌, ◌<◌, ◌≡◌, some, none, arith}
use shadowlend.Machine.{
  u64_max, u128_max, clamp_u128, saturating_mul, saturating_add, checked_pow, to_u64_or_max,
}

pub clamp_u128-le : (n : ℕ) → clamp_u128 n ≤ u128_max
unfolding clamp_u128
clamp_u128-le n = ground arith

pub clamp_u128-le_self : (n : ℕ) → clamp_u128 n ≤ n
unfolding clamp_u128
clamp_u128-le_self n = ground arith

pub clamp_u128_mono : (m n : ℕ) → m ≤ n → clamp_u128 m ≤ clamp_u128 n
unfolding clamp_u128
clamp_u128_mono m n h = ground arith

-- Clamping at every step is clamping once.
pub clamp_u128-add : (a b : ℕ) → clamp_u128 (clamp_u128 a + b) ≡ clamp_u128 (a + b)
unfolding clamp_u128
clamp_u128-add a b = ground arith

pub clamp_u128-add_both : (a b : ℕ) → clamp_u128 (clamp_u128 a + clamp_u128 b) ≡ clamp_u128 (a + b)
unfolding clamp_u128
clamp_u128-add_both a b = ground arith

pub clamp_u128-add_right : (a b : ℕ) → clamp_u128 (a + clamp_u128 b) ≡ clamp_u128 (a + b)
unfolding clamp_u128
clamp_u128-add_right a b = ground arith

pub clamp_u128_exact : (n : ℕ) → n ≤ u128_max → clamp_u128 n ≡ n
unfolding clamp_u128
clamp_u128_exact n h = ground arith

pub saturating_mul-le : (a b : ℕ) → saturating_mul a b ≤ u128_max
unfolding saturating_mul
saturating_mul-le a b = clamp_u128-le (a * b)

pub saturating_mul-le-mul : (a b : ℕ) → saturating_mul a b ≤ a * b
unfolding saturating_mul
saturating_mul-le-mul a b = clamp_u128-le_self (a * b)

pub saturating_mul_exact : (a b : ℕ) → a * b ≤ u128_max → saturating_mul a b ≡ a * b
unfolding saturating_mul
saturating_mul_exact a b h = ground arith

pub saturating_mul-zero : (b : ℕ) → saturating_mul 0 b ≡ 0
saturating_mul-zero b = rw (saturating_mul_exact 0 b (omega arith)) (omega arith)

pub saturating_mul_mono : (a b c d : ℕ) → a ≤ c → b ≤ d → saturating_mul a b ≤ saturating_mul c d
unfolding saturating_mul
saturating_mul_mono a b c d h k = clamp_u128_mono (a * b) (c * d) (mul-le-mul h k)

pub saturating_add-le : (a b : ℕ) → saturating_add a b ≤ u128_max
unfolding saturating_add
saturating_add-le a b = clamp_u128-le (a + b)

pub saturating_add_exact : (a b : ℕ) → a + b ≤ u128_max → saturating_add a b ≡ a + b
unfolding saturating_add
saturating_add_exact a b h = ground arith

pub saturating_add_mono : (a b c d : ℕ) → a ≤ c → b ≤ d → saturating_add a b ≤ saturating_add c d
unfolding saturating_add
saturating_add_mono a b c d h k = clamp_u128_mono (a + b) (c + d) (omega arith)

pub le-saturating_add : (a b : ℕ) → a ≤ u128_max → a ≤ saturating_add a b
unfolding saturating_add
le-saturating_add a b h = ground arith

pub to_u64_or_max-le : (n : ℕ) → to_u64_or_max n ≤ u64_max
unfolding to_u64_or_max
to_u64_or_max-le n = ground arith

pub to_u64_or_max-le_self : (n : ℕ) → to_u64_or_max n ≤ n
unfolding to_u64_or_max
to_u64_or_max-le_self n = ground arith

pub to_u64_or_max_exact : (n : ℕ) → n ≤ u64_max → to_u64_or_max n ≡ n
unfolding to_u64_or_max
to_u64_or_max_exact n h = ground arith

pub to_u64_or_max_mono : (m n : ℕ) → m ≤ n → to_u64_or_max m ≤ to_u64_or_max n
unfolding to_u64_or_max
to_u64_or_max_mono m n h = ground arith

pub checked_pow_fits : (b k : ℕ) → b ^ k ≤ u128_max → checked_pow b k ≡ some (b ^ k)
unfolding checked_pow
checked_pow_fits b k h = ground arith

-- 10^38 is the largest power of ten that a u128 holds.
pub checked_pow_small : (k : ℕ) → k ≤ 38 → checked_pow 10 k ≡ some (10 ^ k)
unfolding checked_pow
checked_pow_small k h =
    let bound : 10 ^ k ≤ 10 ^ 38 = pow-le-pow_right (omega arith) h in
    let fits : 10 ^ k ≤ u128_max = omega arith in ground arith

pub checked_pow_large : (k : ℕ) → 39 ≤ k → checked_pow 10 k ≡ none
unfolding checked_pow
checked_pow_large k h =
    let bound : 10 ^ 39 ≤ 10 ^ k = pow-le-pow_right (omega arith) h in
    let over : u128_max < 10 ^ k = omega arith in ground arith
