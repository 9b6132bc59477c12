-- ===== src/Interest.antt =====
-- Interest: `accrue_market` and `accrue_position` of programs/shadow-lend/src/lib.rs.
pub mod Index
pub mod Compound
pub mod Debt
use shadowlend.Prelude.{ℕ, ◌-◌, ◌/◌, ◌==◌, ◌||◌, leb, if◌then◌else◌}
use shadowlend.Machine.{saturating_mul, saturating_add, to_u64_or_max}
use shadowlend.State.{Market, Position, Clock, rate_scale_e18}

-- The growth of a borrow index over `slots` slots at a rate.
unfoldable pub index_growth : ℕ → ℕ → ℕ → ℕ
index_growth index rate slots = saturating_mul (saturating_mul index rate) slots / rate_scale_e18

unfoldable pub accrue_market : Market → Clock → Market
accrue_market market clock =
    if leb clock.slot market.last_update_slot
    then market
    else let slots = clock.slot - market.last_update_slot in
      let growth = index_growth market.borrow_index_e18 market.borrow_rate_per_slot_e18 slots in
      record market {
        borrow_index_e18 = saturating_add market.borrow_index_e18 growth;
        last_update_slot = clock.slot;
      }

-- A debt restated from one index to another.
unfoldable pub restate : ℕ → ℕ → ℕ → ℕ
restate borrowed index snapshot = to_u64_or_max (saturating_mul borrowed index / snapshot)

unfoldable pub accrue_position : Position → Market → Position
accrue_position position market =
    if position.borrow_index_snapshot_e18 == 0
      || position.borrowed == 0
      || position.borrow_index_snapshot_e18 == market.borrow_index_e18
    then record position { borrow_index_snapshot_e18 = market.borrow_index_e18 }
    else record position {
      borrowed =
          restate position.borrowed market.borrow_index_e18 position.borrow_index_snapshot_e18;
      borrow_index_snapshot_e18 = market.borrow_index_e18;
    }
