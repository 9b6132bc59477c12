-- ===== src/Circuits.antt =====
-- The circuits of arcium/src/circuits.rs, a sketch that no other part of the program calls. `none` is
-- an overflow that Rust's overflow checks turn into a panic.
pub mod Limits
use shadowlend.Prelude.{
  ℕ, ◌+◌, ◌*◌, ◌/◌, ◌%◌, ◌^◌, Bool, Option, none, some, ltb, leb, if◌then◌else◌,
}
use shadowlend.Machine.{u64_max, u128_max, checked_add}

-- `(borrow as u128) * 10_000 <= (collateral as u128) * (max_ltv_bps as u128)`; no product of a u64
-- with either factor leaves the range of a u128.
unfoldable pub check_ltv : ℕ → ℕ → ℕ → Bool
check_ltv collateral_value borrow_value max_ltv_bps =
    let borrow_scaled = borrow_value * 10_000 in
    let collateral_scaled = collateral_value * max_ltv_bps in leb borrow_scaled collateral_scaled

unfoldable pub check_liquidatable : ℕ → ℕ → ℕ → Bool
check_liquidatable collateral_value borrow_with_interest collateral_factor_bps =
    let left = collateral_value * collateral_factor_bps in
    let right = borrow_with_interest * 10_000 in ltb left right

-- `n as u64`, of a u128
unfoldable pub as_u64 : ℕ → ℕ
as_u64 n = n % 2 ^ 64

unfoldable pub accrue_interest : ℕ → ℕ → ℕ → Option ℕ
accrue_interest borrow rate_bps slots_elapsed =
    if leb (borrow * rate_bps * slots_elapsed) u128_max
    then checked_add borrow (as_u64 (borrow * rate_bps * slots_elapsed / 10_000))
    else none
