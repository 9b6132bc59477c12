-- ===== src/Examples/Circuits.antt =====
-- The circuits at concrete inputs.
use shadowlend.Prelude.{◌+◌, ◌*◌, ◌/◌, ◌^◌, ◌≤◌, ◌≡◌, ◌↔◌, refl, true, not, arith}
use shadowlend.Machine.{checked_add}
use shadowlend.Circuits.{check_ltv, check_liquidatable, as_u64, accrue_interest}
use shadowlend.Circuits.Limits.{check_liquidatable-check_ltv, accrue_interest_truncates}

check_liquidatable-check_ltv_example :
    (check_liquidatable 1000 801 8000 ≡ not (check_ltv 1000 801 8000))
    × ((check_ltv 1000 801 8000 ≡ true) ↔ (801 * 10_000 ≤ 1000 * 8000))
check_liquidatable-check_ltv_example = check_liquidatable-check_ltv 1000 801 8000

-- Interest of 2^64 exactly vanishes.
accrue_interest_truncates_example : 5 + 2 ^ 64 ≤ 5 + 5 * 2_000 * 2 ^ 64 / 10_000
unfolding accrue_interest as_u64 checked_add
accrue_interest_truncates_example = accrue_interest_truncates 5 2_000 (2 ^ 64) (omega arith) refl
