-- ===== src/Interest/Index.antt =====
-- About `accrue_market` of programs/shadow-lend/src/lib.rs.
use shadowlend.Prelude.{ℕ, ◌+◌, ◌-◌, ◌*◌, ◌/◌, ◌≤◌, ◌<◌, ◌≡◌, arith, max}
use shadowlend.Machine.{u128_max, saturating_add}
use shadowlend.Machine.Laws.{
  saturating_mul_exact, saturating_add_exact, saturating_add-le, le-saturating_add,
}
use shadowlend.State.{Market, Clock, rate_scale_e18}
use shadowlend.Interest.{accrue_market, index_growth}

-- From an index in the range of a u128, accrual does not lower the index nor take it out of that
-- range, sets the slot to the later of the two, and leaves every other field of the market alone.
pub accrue_market_lem :
    (m : Market) (clock : Clock)
    → m.borrow_index_e18 ≤ u128_max
    → let m' = accrue_market m clock in
      (m.borrow_index_e18 ≤ m'.borrow_index_e18)
      × (m'.borrow_index_e18 ≤ u128_max)
      × (m'.last_update_slot ≡ max m.last_update_slot clock.slot)
      × (m' ≡ record m {
        borrow_index_e18 = m'.borrow_index_e18;
        last_update_slot = m'.last_update_slot;
      })
unfolding accrue_market
accrue_market_lem m clock h =
    let growth =
      index_growth m.borrow_index_e18 m.borrow_rate_per_slot_e18
        (clock.slot - m.last_update_slot) in
    ground (
      arith,
      saturating_add-le m.borrow_index_e18 growth,
      le-saturating_add m.borrow_index_e18 growth h,
    )

-- A second accrual in the same slot, or with an older clock, changes nothing.
pub accrue_market_again :
    (m : Market) (clock earlier : Clock)
    → earlier.slot ≤ clock.slot
    → accrue_market (accrue_market m clock) earlier ≡ accrue_market m clock
unfolding accrue_market
accrue_market_again m clock earlier h = ground arith

saturated-le :
    (index rate slots : ℕ) → index * rate * slots ≤ u128_max → 0 < slots → index * rate ≤ u128_max
saturated-le index rate slots h some_slots = grind arith

linear_growth :
    (index rate slots : ℕ)
    → index * rate * slots ≤ u128_max
    → index + index * rate * slots / rate_scale_e18 ≤ u128_max
    → 0 < slots
    → saturating_add index (index_growth index rate slots)
      ≡ index + index * rate * slots / rate_scale_e18
unfolding index_growth
linear_growth index rate slots h k some_slots =
    rw
      (
        saturating_mul_exact index rate (saturated-le index rate slots h some_slots),
        saturating_mul_exact (index * rate) slots h,
      )
      (saturating_add_exact index (index * rate * slots / rate_scale_e18) k)

-- With a clock that is not behind the market, and the product index * rate * slots and the new index
-- within a u128, an accrual adds index * rate * slots / 10^18 to the index, rounded down.
pub accrue_market_linear :
    (m : Market) (clock : Clock)
    → m.last_update_slot ≤ clock.slot
    → m.borrow_index_e18 * m.borrow_rate_per_slot_e18 * (clock.slot - m.last_update_slot) ≤ u128_max
    → m.borrow_index_e18
        + m.borrow_index_e18
          * m.borrow_rate_per_slot_e18
          * (clock.slot - m.last_update_slot)
          / rate_scale_e18
      ≤ u128_max
    → (accrue_market m clock).borrow_index_e18
      ≡ m.borrow_index_e18
        + m.borrow_index_e18
          * m.borrow_rate_per_slot_e18
          * (clock.slot - m.last_update_slot)
          / rate_scale_e18
unfolding accrue_market
accrue_market_linear m clock later h k = ground (
  arith,
  linear_growth m.borrow_index_e18 m.borrow_rate_per_slot_e18 (clock.slot - m.last_update_slot) h k,
)
