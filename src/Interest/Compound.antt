-- ===== src/Interest/Compound.antt =====
-- About several runs of `accrue_market` of programs/shadow-lend/src/lib.rs against a single one.
use shadowlend.Prelude.{ℕ, ◌+◌, ◌-◌, ◌*◌, ◌≤◌, ◌≡◌, arith, Bool-cases, leb, inl, inr, false}
use shadowlend.Machine.{u128_max, clamp_u128, saturating_mul, saturating_add}
use shadowlend.Machine.Laws.{saturating_mul_mono, le-saturating_add}
use shadowlend.State.{Market, Clock}
use shadowlend.Interest.{accrue_market, index_growth}

saturating_mul-split :
    (x a b : ℕ) → saturating_mul x (a + b) ≤ saturating_mul x a + saturating_mul x b
unfolding saturating_mul clamp_u128
saturating_mul-split x a b =
    let distributes : x * (a + b) ≡ x * a + x * b = omega arith in ground arith

-- The growth of an index over two spans of slots is that over both, or one more than it.
growth-split :
    (index rate a b : ℕ)
    → index_growth index rate (a + b) ≤ index_growth index rate a + index_growth index rate b + 1
unfolding index_growth
growth-split index rate a b = omega (arith, saturating_mul-split (saturating_mul index rate) a b)

growth_mono : (i j rate slots : ℕ) → i ≤ j → index_growth i rate slots ≤ index_growth j rate slots
unfolding index_growth
growth_mono i j rate slots h = omega (
  arith,
  saturating_mul_mono (saturating_mul i rate) slots (saturating_mul j rate) slots
      (saturating_mul_mono i rate j rate h (omega arith)) (omega arith),
)

saturating_add-twice :
    (i g a b : ℕ) → g ≤ a + b + 1 → saturating_add i g ≤ saturating_add (saturating_add i a) b + 1
unfolding saturating_add clamp_u128
saturating_add-twice i g a b h = ground arith

-- Growth over two spans, the second from the index that the first leaves.
two_spans :
    (index rate a b : ℕ)
    → index ≤ u128_max
    → let next = saturating_add index (index_growth index rate a) in
      saturating_add index (index_growth index rate (a + b))
      ≤ saturating_add next (index_growth next rate b) + 1
two_spans index rate a b fits =
    let next = saturating_add index (index_growth index rate a) in
    let up = le-saturating_add index (index_growth index rate a) fits in
    saturating_add-twice index (index_growth index rate (a + b)) (index_growth index rate a)
      (index_growth next rate b)
      (omega (arith, growth-split index rate a b, growth_mono index next rate b up))

-- From an index in the range of a u128, an accrual on the way to a later slot loses at most one unit
-- of the index, which is 10^-18, against a single accrual, also where the arithmetic saturates.
pub accrue_market_twice :
    (m : Market) (first second : Clock)
    → m.borrow_index_e18 ≤ u128_max
    → first.slot ≤ second.slot
    → (accrue_market m second).borrow_index_e18
      ≤ (accrue_market (accrue_market m first) second).borrow_index_e18 + 1
unfolding accrue_market
accrue_market_twice m first second fits h =
    let a = first.slot - m.last_update_slot in
    let b = second.slot - first.slot in
    let index = m.borrow_index_e18 in
    let rate = m.borrow_rate_per_slot_e18 in
    elim (Bool-cases (leb first.slot m.last_update_slot)) [
      | inl late ↦ rw late (omega arith)
      | inr early ↦ rw early (elim (Bool-cases (leb second.slot first.slot)) [
        | inl same ↦
            let one : second.slot ≡ first.slot = ground arith in rw (one, early) (ground arith)
        | inr later ↦
            let whole : second.slot - m.last_update_slot ≡ a + b = ground arith in
            let on_time : leb second.slot m.last_update_slot ≡ false = ground arith in
            rw (on_time, later, whole) (two_spans index rate a b fits)
      ])
    ]
