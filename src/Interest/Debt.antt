-- ===== src/Interest/Debt.antt =====
-- About `accrue_position` of programs/shadow-lend/src/lib.rs.
use native.Mathlib.Nat.{div-lt_iff_lt-mul, mul-le-mul_left, mul-div_cancel, zero-div}
use shadowlend.Prelude.{ap, ℕ, ◌*◌, ◌/◌, ◌≤◌, ◌<◌, ◌≡◌, ◌≢◌, arith}
use shadowlend.Machine.{u64_max, u128_max, saturating_mul}
use shadowlend.Machine.Laws.{
  saturating_mul_exact, saturating_mul-le, to_u64_or_max-le, to_u64_or_max-le_self,
  to_u64_or_max_exact,
}
use shadowlend.Machine.Division.{le-div}
use shadowlend.State.{Market, Position}
use shadowlend.Interest.{accrue_position, restate}

restate-le : (borrowed index snapshot : ℕ) → restate borrowed index snapshot ≤ u64_max
unfolding restate
restate-le borrowed index snapshot = to_u64_or_max-le (saturating_mul borrowed index / snapshot)

restate_exact :
    (borrowed index snapshot : ℕ)
    → borrowed * index ≤ u128_max
    → borrowed * index / snapshot ≤ u64_max
    → restate borrowed index snapshot ≡ borrowed * index / snapshot
unfolding restate
restate_exact borrowed index snapshot fits small =
    rw (saturating_mul_exact borrowed index fits)
      (to_u64_or_max_exact (borrowed * index / snapshot) small)

restate_saturated :
    (borrowed index snapshot : ℕ)
    → 0 < snapshot
    → u128_max < borrowed * snapshot
    → restate borrowed index snapshot < borrowed
unfolding restate
restate_saturated borrowed index snapshot some_snapshot over =
    let capped = saturating_mul borrowed index in
    let below : capped / snapshot < borrowed =
      (div-lt_iff_lt-mul some_snapshot).1 (omega (arith, saturating_mul-le borrowed index)) in
    omega (arith, to_u64_or_max-le_self (capped / snapshot))

-- A second accrual of a position to the same market changes nothing.
pub accrue_position_again :
    (p : Position) (m : Market) → accrue_position (accrue_position p m) m ≡ accrue_position p m
unfolding accrue_position
accrue_position_again p m = ground arith

-- From a debt that fits a u64, an accrual leaves the market's index as the snapshot and a debt that
-- fits a u64, and changes nothing else of the position.
pub accrue_position_lem :
    (p : Position) (m : Market)
    → p.borrowed ≤ u64_max
    → let p' = accrue_position p m in
      (p'.borrow_index_snapshot_e18 ≡ m.borrow_index_e18)
      × (p'.borrowed ≤ u64_max)
      × (p' ≡ record p {
        borrowed = p'.borrowed;
        borrow_index_snapshot_e18 = p'.borrow_index_snapshot_e18;
      })
unfolding accrue_position
accrue_position_lem p m h =
    ground (arith, restate-le p.borrowed m.borrow_index_e18 p.borrow_index_snapshot_e18)

-- From a snapshot above zero and not above the market's index, where the product of debt and index
-- fits a u128 and the new debt a u64, the debt is multiplied by the ratio of the indices, rounded
-- down, and does not fall.
pub accrue_position_grows :
    (p : Position) (m : Market)
    → 0 < p.borrow_index_snapshot_e18
    → p.borrow_index_snapshot_e18 ≤ m.borrow_index_e18
    → p.borrowed * m.borrow_index_e18 ≤ u128_max
    → p.borrowed * m.borrow_index_e18 / p.borrow_index_snapshot_e18 ≤ u64_max
    → let p' = accrue_position p m in
      (p'.borrowed ≡ p.borrowed * m.borrow_index_e18 / p.borrow_index_snapshot_e18)
      × (p.borrowed ≤ p'.borrowed)
unfolding accrue_position
accrue_position_grows p m some_snapshot up fits small =
    let index = m.borrow_index_e18 in
    let snapshot = p.borrow_index_snapshot_e18 in
    let grown : p.borrowed ≤ p.borrowed * index / snapshot =
      le-div p.borrowed (p.borrowed * index) snapshot some_snapshot
        (mul-le-mul_left p.borrowed up) in
    let same : p.borrowed * snapshot / snapshot ≡ p.borrowed =
      mul-div_cancel p.borrowed some_snapshot in
    let free : 0 / snapshot ≡ 0 = zero-div snapshot in
    ground (arith, restate_exact p.borrowed index snapshot fits small)

-- Where the product of debt and snapshot is above a u128, an accrual to any higher index makes the
-- debt smaller.
pub accrue_position_shrinks :
    (p : Position) (m : Market)
    → u128_max < p.borrowed * p.borrow_index_snapshot_e18
    → p.borrow_index_snapshot_e18 < m.borrow_index_e18
    → (accrue_position p m).borrowed < p.borrowed
unfolding accrue_position
accrue_position_shrinks p m over up =
    let nonzero : p.borrow_index_snapshot_e18 ≢ 0 =
      λ e. absurd (omega (arith, ap (◌*◌ p.borrowed) e)) in
    let owed : p.borrowed ≢ 0 =
      λ e. absurd (omega (arith, ap (λ (t : ℕ). t * p.borrow_index_snapshot_e18) e)) in
    ground (arith, restate_saturated p.borrowed m.borrow_index_e18 p.borrow_index_snapshot_e18)
