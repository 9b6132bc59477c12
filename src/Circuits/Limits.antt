-- ===== src/Circuits/Limits.antt =====
-- About the circuits of arcium/src/circuits.rs.
use shadowlend.Prelude.{ℕ, ◌+◌, ◌*◌, ◌/◌, ◌^◌, ◌≤◌, ◌≡◌, ◌↔◌, true, not, some, arith}
use shadowlend.Machine.{u64_max, u128_max, checked_add}
use shadowlend.Circuits.{check_ltv, check_liquidatable, as_u64, accrue_interest}

-- At the same values an account is liquidatable exactly when it fails the check of its limit, which
-- it passes exactly when debt * 10000 is at most collateral * limit.
pub check_liquidatable-check_ltv :
    (collateral borrow limit : ℕ)
    → (check_liquidatable collateral borrow limit ≡ not (check_ltv collateral borrow limit))
      × ((check_ltv collateral borrow limit ≡ true) ↔ (borrow * 10_000 ≤ collateral * limit))
unfolding check_ltv check_liquidatable
check_liquidatable-check_ltv collateral borrow limit = ground arith

as_u64_exact : (n : ℕ) → n ≤ u64_max → as_u64 n ≡ n
unfolding as_u64
as_u64_exact n h = omega arith

as_u64_cut : (n : ℕ) → 2 ^ 64 ≤ n → as_u64 n + 2 ^ 64 ≤ n
unfolding as_u64
as_u64_cut n h = omega arith

-- Where the product of debt, rate and slots fits a u128, and the debt with the interest a u64, the
-- result is the debt with the interest, rounded down.
pub accrue_interest_exact :
    (borrow rate slots : ℕ)
    → borrow * rate * slots ≤ u128_max
    → borrow + borrow * rate * slots / 10_000 ≤ u64_max
    → accrue_interest borrow rate slots ≡ some (borrow + borrow * rate * slots / 10_000)
unfolding accrue_interest checked_add
accrue_interest_exact borrow rate slots fits small =
    let kept = as_u64_exact (borrow * rate * slots / 10_000) (omega arith) in ground (arith, kept)

-- Where the interest is 2^64 or more and a result comes out, it falls short of the debt with the
-- interest by at least 2^64.
pub accrue_interest_truncates :
    (borrow rate slots : ℕ) {owed : ℕ}
    → 2 ^ 64 ≤ borrow * rate * slots / 10_000
    → accrue_interest borrow rate slots ≡ some owed
    → owed + 2 ^ 64 ≤ borrow + borrow * rate * slots / 10_000
unfolding accrue_interest checked_add
accrue_interest_truncates borrow rate slots large e =
    let cut = as_u64_cut (borrow * rate * slots / 10_000) large in ground (arith, cut)
