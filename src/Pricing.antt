-- ===== src/Pricing.antt =====
-- The value of tokens in dollars: `token_usd_8dp` and its inverse `usd_8dp_to_token` of
-- programs/shadow-lend/src/lib.rs. Exponents are added in i32 arithmetic, which panics on overflow.
pub mod Value
pub mod RoundTrip
pub mod Worth
use shadowlend.Prelude.{ℕ, suc, ◌/◌, ◌==◌, if◌then◌else◌, unwrap_or}
use shadowlend.Prelude.Int.{ℤ, pos, negsuc, ◌+ℤ◌, ◌-ℤ◌, pos_part, leb_ℤ}
use shadowlend.Machine.{fits_i32, u128_max, saturating_mul, checked_pow, to_u64_or_max}
use shadowlend.Result.{Result, ok, err, panic, ◌>>=◌}
use shadowlend.State.{Price}

-- The result of an i32 operation whose exact value is `z`.
unfoldable pub checked_i32 : ℤ → Result ℤ
unfolding fits_i32
checked_i32 z = if fits_i32 z then ok z else err panic

-- `8i32 + price.exponent - decimals as i32`
unfoldable pub shift_8dp : ℤ → ℕ → Result ℤ
shift_8dp exponent decimals = do
  sum ← checked_i32 (pos 8 +ℤ exponent)
  checked_i32 (sum -ℤ pos decimals)

-- `(-shift) as u32`, for a shift of -(n + 1).
unfoldable pub negated : ℕ → Result ℕ
negated n = do z ← checked_i32 (pos (suc n)); ok (pos_part z)

-- `raw` scaled by 10^shift: saturating upwards, rounding down. A power that does not fit a u128 is
-- u128::MAX as a factor, and 1 as a divisor.
unfoldable pub scale : ℕ → ℤ → Result ℕ
scale raw (pos s) = ok (saturating_mul raw (unwrap_or (checked_pow 10 s) u128_max))
scale raw (negsuc n) = do k ← negated n; ok (raw / unwrap_or (checked_pow 10 k) 1)

unfoldable pub token_usd_8dp : ℕ → Price → ℕ → Result ℕ
token_usd_8dp amount price decimals = do
  let p = pos_part price.price
  let raw = saturating_mul amount p
  shift ← shift_8dp price.exponent decimals
  scale raw shift

-- The division of `usd_8dp_to_token`, at a price of `p`.
unfoldable pub unscale : ℕ → ℕ → ℤ → Result ℕ
unscale value p (pos s) =
    let denom = saturating_mul p (unwrap_or (checked_pow 10 s) u128_max) in
    ok (if denom == 0 then 0 else value / denom)
unscale value p (negsuc n) = do
  k ← negated n
  ok (saturating_mul value (unwrap_or (checked_pow 10 k) 1) / p)

unfoldable pub usd_8dp_to_token : ℕ → Price → ℕ → Result ℕ
usd_8dp_to_token value price decimals = if leb_ℤ price.price (pos 0) then ok 0 else do
  shift ← shift_8dp price.exponent decimals
  result ← unscale value (pos_part price.price) shift
  ok (to_u64_or_max result)
