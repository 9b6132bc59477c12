-- ===== src/Examples/Seizures.antt =====
-- Bob liquidates Carol on a ledger of two markets, and the theorems at that run.
use shadowlend.Prelude.{ℕ, ◌≡◌, ◌≢◌, refl, none, some, [], arith}
use shadowlend.Result.{ok}
use shadowlend.State.{Position}
use shadowlend.Instructions.Liquidate.{Liquidate}
use shadowlend.Instructions.Liquidate.Effect.{debt, collateral}
use shadowlend.Instructions.Liquidate.Shortfall.{IsSpared}
use shadowlend.Pricing.Worth.{IsScaled}
use shadowlend.Ledger.{
  Ledger, put, market_at, position_of, market_seed, position_seed, auth_seed, vault_seed,
}
use shadowlend.Ledger.Call.{LiquidateCall}
use shadowlend.Ledger.Execute.{run_liquidate, liquidate_context, write_liquidated}
use shadowlend.Ledger.Seizure.Outcome.{IsLiquidated, run_liquidate-IsLiquidated}
use shadowlend.Ledger.Seizure.Underwater.{IsUnderwater, run_liquidate-IsUnderwater}
use shadowlend.Ledger.Seizure.Shortfall.{run_liquidate-IsSpared}
use shadowlend.Examples.World.{
  program, sample, now, sol, usdc, carol_sol, carol_usdc, sol_update, usdc_update, sol_price,
  usdc_price,
}
use shadowlend.Examples.Accounts.{sample_addresses, sample-AddressLaws}
use shadowlend.Examples.Runs.{ledger_or, wealthy}

abbrev sol_side : ℕ
sol_side = sample_addresses.find (market_seed 101)

abbrev usdc_side : ℕ
usdc_side = sample_addresses.find (market_seed 102)

abbrev in_sol : Position
in_sol = record carol_sol { bump = 254 }

abbrev in_usdc : Position
in_usdc = record carol_usdc { bump = 254 }

two_sides : Ledger sample
unfolding put
two_sides = record {
  markets = put (put (λ k. none) sol_side sol) usdc_side usdc;
  positions =
      put (put (λ k. none) (sample_addresses.find (position_seed 9 101)) in_sol)
        (sample_addresses.find (position_seed 9 102)) in_usdc;
  receipts = λ k. none;
  stats = λ k. none;
  tokens = wealthy;
}

abbrev bob_call : LiquidateCall sample
bob_call = record {
  liquidator = 8;
  borrower = 9;
  debt_market_key = usdc_side;
  collateral_market_key = sol_side;
  liquidator_debt_ata = 816_000_070;
  liquidator_collateral_ata = 808_000_070;
  debt_price_update = usdc_update;
  collateral_price_update = sol_update;
  remaining_accounts = [];
}

relieved : Ledger sample
unfolding two_sides program put market_at position_of liquidate_context write_liquidated
    run_liquidate
relieved =
    ledger_or (run_liquidate sample sample_addresses two_sides now bob_call 40_000_000_000)
      two_sides

relieves : run_liquidate sample sample_addresses two_sides now bob_call 40_000_000_000 ≡ ok relieved
unfolding two_sides relieved program put market_at position_of liquidate_context write_liquidated
    run_liquidate
relieves = refl

sides_apart : usdc_side ≢ sol_side
sides_apart = omega arith

-- The run is not one that was refused: 40 USDC are repaid, and 0.42 SOL seized.
debt_left :
    relieved.positions (sample_addresses.find (position_seed 9 102))
    ≡ some (record (record in_usdc { borrowed = 50_000_009_000 }) {
      borrow_index_snapshot_e18 = 1_000_000_100_000_000_000;
    })
unfolding two_sides relieved program put market_at position_of liquidate_context write_liquidated
    run_liquidate
debt_left = refl

run_liquidate-IsLiquidated_example :
    IsLiquidated sample sample_addresses two_sides now bob_call 40_000_000_000 relieved
run_liquidate-IsLiquidated_example =
    run_liquidate-IsLiquidated sample sample_addresses two_sides now bob_call 40_000_000_000
      sample-AddressLaws sides_apart relieves

run_liquidate-IsUnderwater_example :
    IsUnderwater sample sample_addresses two_sides now bob_call relieved
run_liquidate-IsUnderwater_example =
    run_liquidate-IsUnderwater sample sample_addresses two_sides now bob_call 40_000_000_000
      relieves

sol-IsScaled : IsScaled sol_price 9 8
unfolding program
sol-IsScaled = record { fits = omega arith; shift = refl; small = omega arith }

usdc-IsScaled : IsScaled usdc_price 9 8
unfolding program
usdc-IsScaled = record { fits = omega arith; shift = refl; small = omega arith }

abbrev bob_accounts : Liquidate sample
bob_accounts = record {
  liquidator = 8;
  borrower = 9;
  debt_market = usdc;
  debt_position_key = sample_addresses.find (position_seed 9 102);
  debt_position = in_usdc;
  debt_vault = sample_addresses.find (vault_seed 102);
  debt_price_update = usdc_update;
  liquidator_debt_ata = 816_000_070;
  collateral_market = sol;
  collateral_position_key = sample_addresses.find (position_seed 9 101);
  collateral_position = in_sol;
  collateral_vault = sample_addresses.find (vault_seed 101);
  collateral_authority = sample_addresses.find (auth_seed 101);
  collateral_price_update = sol_update;
  liquidator_collateral_ata = 808_000_070;
  remaining_accounts = [];
}

finds : liquidate_context sample sample_addresses two_sides bob_call ≡ ok bob_accounts
unfolding two_sides put market_at position_of liquidate_context
finds = refl

-- 80 dollars at the limit against 90 dollars of debt, and after it 46.4 against 50.
run_liquidate-IsSpared_example :
    (p q : Position) × (relieved.positions (sample_addresses.find (position_seed 9 102)) ≡ some p)
    × (relieved.positions (sample_addresses.find (position_seed 9 101)) ≡ some q)
    × IsSpared usdc_price sol_price
        (debt sample bob_accounts now)
        (collateral sample bob_accounts now)
        p
        q
unfolding program
run_liquidate-IsSpared_example =
    run_liquidate-IsSpared sample sample_addresses two_sides now bob_call 40_000_000_000
      bob_accounts usdc_price sol_price 8 8 sample-AddressLaws sides_apart finds
      (record { supplied = omega arith; borrowed = omega arith; snapshot = omega arith })
      (record { supplied = omega arith; borrowed = omega arith; snapshot = omega arith }) refl refl
      usdc-IsScaled sol-IsScaled (omega arith) relieves
