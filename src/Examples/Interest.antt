-- ===== src/Examples/Interest.antt =====
-- Some unit tests of the interest, and the theorems at such inputs.
use shadowlend.Prelude.{◌+◌, ◌-◌, ◌*◌, ◌/◌, ◌≤◌, ◌<◌, ◌≡◌, refl, arith}
use shadowlend.Prelude.Int.{pos}
use shadowlend.State.{Market, Position, rate_scale_e18}
use shadowlend.Interest.{accrue_market, accrue_position}
use shadowlend.Interest.Index.{accrue_market_linear}
use shadowlend.Interest.Compound.{accrue_market_twice}
use shadowlend.Interest.Debt.{accrue_position_grows, accrue_position_shrinks}
use shadowlend.Examples.World.{program, now, sol, usdc, alice_usdc}

accrue_grows_index_linearly :
    (accrue_market sol now).borrow_index_e18 ≡ 1_000_000_000_000_000_000 + 100_000_000_000
unfolding program
accrue_grows_index_linearly = refl

-- The index has doubled.
abbrev dear : Market
dear = record usdc { borrow_index_e18 = 2_000_000_000_000_000_000 }

accrue_position_grows_debt_proportionally :
    (accrue_position alice_usdc dear).borrowed ≡ 1_000_000_000_000
unfolding program
accrue_position_grows_debt_proportionally = refl

accrue_market_linear_example :
    (accrue_market sol now).borrow_index_e18
    ≡ 1_000_000_000_000_000_000
      + 1_000_000_000_000_000_000 * 1_000_000_000 * (1000 - 900) / rate_scale_e18
accrue_market_linear_example =
    accrue_market_linear sol now (omega arith) (omega arith) (omega arith)

accrue_market_twice_example :
    (accrue_market sol now).borrow_index_e18
    ≤ (accrue_market
        (accrue_market sol (record { slot = 950; unix_timestamp = pos 490 }))
        now).borrow_index_e18
      + 1
accrue_market_twice_example =
    accrue_market_twice sol (record { slot = 950; unix_timestamp = pos 490 }) now (omega arith)
      (omega arith)

accrue_position_grows_example :
    let p' = accrue_position alice_usdc dear in
    (p'.borrowed ≡ 500_000_000_000 * 2_000_000_000_000_000_000 / 1_000_000_000_000_000_000)
    × (500_000_000_000 ≤ p'.borrowed)
accrue_position_grows_example =
    accrue_position_grows alice_usdc dear (omega arith) (omega arith) (omega arith) (omega arith)

-- A debt of 10^19 atoms at an index of 10^20, and the next index.
abbrev huge : Position
huge = record alice_usdc {
  borrowed = 10_000_000_000_000_000_000;
  borrow_index_snapshot_e18 = 100_000_000_000_000_000_000;
}

accrue_position_shrinks_example :
    (accrue_position huge (record usdc { borrow_index_e18 = 100_000_000_000_000_000_001 })).borrowed
    < 10_000_000_000_000_000_000
accrue_position_shrinks_example =
    accrue_position_shrinks huge (record usdc { borrow_index_e18 = 100_000_000_000_000_000_001 })
      (omega arith) (omega arith)
