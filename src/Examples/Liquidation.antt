-- ===== src/Examples/Liquidation.antt =====
-- Bob liquidates Carol, and the theorems at that run.
use shadowlend.Prelude.{ℕ, ◌*◌, ◌≤◌, refl, [], arith}
use shadowlend.Instructions.Liquidate.{Liquidate, Liquidated, liquidator_pays, vault_releases}
use shadowlend.Instructions.Liquidate.Effect.{debt_market, collateral_market}
use shadowlend.Instructions.Liquidate.Bonus.{seize_for_bonus}
use shadowlend.Examples.World.{
  program, sample, moved, now, sol, usdc, carol_sol, carol_usdc, sol_update, usdc_update, sol_price,
  usdc_price, tokens,
}

abbrev bob_on_carol : Liquidate sample
bob_on_carol = record {
  liquidator = 8;
  borrower = 9;
  debt_market = usdc;
  debt_position_key = 604;
  debt_position = carol_usdc;
  debt_vault = 302;
  debt_price_update = usdc_update;
  liquidator_debt_ata = 508;
  collateral_market = sol;
  collateral_position_key = 605;
  collateral_position = carol_sol;
  collateral_vault = 301;
  collateral_authority = 303;
  collateral_price_update = sol_update;
  liquidator_collateral_ata = 408;
  remaining_accounts = [];
}

-- 40 USDC repaid, 0.42 SOL seized.
abbrev liquidated : Liquidated (ℕ → ℕ)
liquidated = record {
  debt_market = record (debt_market sample bob_on_carol now) { total_borrowed = 550_000_000_000 };
  debt_position = record carol_usdc {
    borrowed = 50_000_009_000;
    borrow_index_snapshot_e18 = 1_000_000_100_000_000_000;
  };
  collateral_market = record (collateral_market sample bob_on_carol now) {
    total_supplied = 11_580_000_000;
  };
  collateral_position = record carol_sol {
    supplied = 580_000_000;
    borrow_index_snapshot_e18 = 1_000_000_100_000_000_000;
  };
  tokens =
      moved (moved tokens (liquidator_pays sample bob_on_carol) 40_000_000_000)
        (vault_releases sample bob_on_carol) 420_000_000;
  event = record {
    liquidator = 8;
    borrower = 9;
    debt_mint = 102;
    collateral_mint = 101;
    repaid = 40_000_000_000;
    seized = 420_000_000;
  };
}

-- 40 dollars repaid, 42 dollars taken.
seize_for_bonus_example : 4_200_000_000 * 10_000 ≤ 4_000_000_000 * 10_500
unfolding program
seize_for_bonus_example =
    seize_for_bonus 40_000_000_000 usdc_price 9 sol_price 9 1_000_000_000 8 refl (omega arith) refl
      refl refl
