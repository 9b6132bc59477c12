-- ===== src/Machine.antt =====
-- The integer operations that programs/shadow-lend/src/lib.rs takes from Rust's standard library.
-- A u64 or u128 is a number, an i32 an integer; the operations keep each in its range.
pub mod Laws
pub mod Division
use shadowlend.Prelude.{ℕ, ◌+◌, ◌-◌, ◌*◌, ◌^◌, Bool, ◌&&◌, Option, none, some, leb, if◌then◌else◌}
use shadowlend.Prelude.Int.{ℤ, pos, negsuc, leb_ℤ}

abbrev pub u64_max : ℕ
u64_max = 2 ^ 64 - 1

abbrev pub u128_max : ℕ
u128_max = 2 ^ 128 - 1

abbrev pub i32_max : ℤ
i32_max = pos (2 ^ 31 - 1)

abbrev pub i32_min : ℤ
i32_min = negsuc (2 ^ 31 - 1)

-- `n` clamped to the range of a u128.
unfoldable pub clamp_u128 : ℕ → ℕ
clamp_u128 n = if leb n u128_max then n else u128_max

-- `u128::saturating_mul`
unfoldable pub saturating_mul : ℕ → ℕ → ℕ
unfolding clamp_u128
saturating_mul a b = clamp_u128 (a * b)

-- `u128::saturating_add`
unfoldable pub saturating_add : ℕ → ℕ → ℕ
unfolding clamp_u128
saturating_add a b = clamp_u128 (a + b)

-- `saturating_sub`, of a u64: subtraction on ℕ stops at 0.
unfoldable pub saturating_sub : ℕ → ℕ → ℕ
saturating_sub a b = a - b

-- `u64::checked_add`
unfoldable pub checked_add : ℕ → ℕ → Option ℕ
checked_add a b = if leb (a + b) u64_max then some (a + b) else none

-- `u64::checked_sub`
unfoldable pub checked_sub : ℕ → ℕ → Option ℕ
checked_sub a b = if leb b a then some (a - b) else none

-- `u128::checked_pow`
unfoldable pub checked_pow : ℕ → ℕ → Option ℕ
checked_pow b e = if leb (b ^ e) u128_max then some (b ^ e) else none

-- `u64::try_from(n: u128).unwrap_or(u64::MAX)`
unfoldable pub to_u64_or_max : ℕ → ℕ
to_u64_or_max n = if leb n u64_max then n else u64_max

unfoldable pub fits_i32 : ℤ → Bool
fits_i32 z = leb_ℤ i32_min z && leb_ℤ z i32_max
