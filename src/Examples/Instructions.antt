-- ===== src/Examples/Instructions.antt =====
-- Runs of the handlers of a position, and the theorems at those runs.
use shadowlend.Prelude.{ℕ, ◌≤◌, ◌<◌, ◌≡◌, ◌⊎◌, ◌+◌, refl, [], ◌∷◌, arith}
use shadowlend.Result.{ok, err, market, MarketError}
use shadowlend.State.{Market, Position, MarketAction, MarketActionKind}
use shadowlend.Interest.{accrue_market, accrue_position}
use shadowlend.Instructions.Accounts.{ModifyPositionWithPrice, Modified, pay_in, pay_out}
use shadowlend.Instructions.Specs.{IsHealthy, IsConserved, TracksSupply, TracksDebt, accrued}
use shadowlend.Instructions.Supply.{supply}
use shadowlend.Instructions.Supply.Effect.{supply-IsConserved, supply_succeeds}
use shadowlend.Instructions.Withdraw.{withdraw}
use shadowlend.Instructions.Withdraw.Effect.{withdraw-IsHealthy, withdraw-IsConserved}
use shadowlend.Instructions.Borrow.{borrow}
use shadowlend.Instructions.Borrow.Effect.{borrow-IsHealthy, borrow-IsConserved}
use shadowlend.Instructions.Borrow.Duplicates.{borrow_with_duplicates, doubled}
use shadowlend.Instructions.Repay.{repay}
use shadowlend.Instructions.Repay.Effect.{repay-IsConserved, repay_in_full}
use shadowlend.Examples.World.{
  program, sample, sample_laws, moved, now, sol, usdc, alice_sol, alice_usdc, holding, sol_update,
  usdc_update, position_info, update_info, tokens, in_sol, in_usdc, usdc_price,
}

-- The markets and positions once the interest of 100 slots is added: an index of 1.0000001.
abbrev later : Market → Market
later m = record m { borrow_index_e18 = 1_000_000_100_000_000_000; last_update_slot = 1000 }

abbrev settled : Position → ℕ → Position
settled p owed = record p { borrowed = owed; borrow_index_snapshot_e18 = 1_000_000_100_000_000_000 }

abbrev acted : MarketActionKind → ℕ → Market → Position → MarketAction
acted kind user m p = record {
  user = user;
  mint = m.mint;
  kind = kind;
  supplied = p.supplied;
  borrowed = p.borrowed;
}

-- Alice adds 2 SOL.
abbrev topped : Position
topped = settled (holding 7 12_000_000_000 0 sol) 0

abbrev supplied : Modified (ℕ → ℕ) MarketAction
supplied = record {
  market = record (later sol) { total_supplied = 14_000_000_000 };
  position = topped;
  tokens = moved tokens (pay_in (in_sol 7 alice_sol)) 2_000_000_000;
  event = acted MarketActionKind.supply 7 sol topped;
}

supply_runs : supply sample (in_sol 7 alice_sol) tokens now 2_000_000_000 ≡ ok supplied
unfolding program
supply_runs = refl

supply-IsConserved_example :
    IsConserved 12_000_000_000
      (accrue_position alice_sol (accrue_market sol now))
      14_000_000_000
      topped
    × TracksSupply
        (accrue_market sol now)
        (accrue_position alice_sol (accrue_market sol now))
        supplied.market
        topped
    × (0 ≡ (accrue_position alice_sol (accrue_market sol now)).borrowed)
    × ((accrue_position alice_sol (accrue_market sol now)).supplied < 12_000_000_000)
unfolding program
supply-IsConserved_example =
    supply-IsConserved sample (in_sol 7 alice_sol) tokens now 2_000_000_000 sample_laws
      (omega arith) supply_runs

supply_succeeds_example :
    (r : Modified (ℕ → ℕ) MarketAction) × (supply sample
        (in_sol 7 alice_sol)
        tokens
        now
        2_000_000_000
      ≡ ok r)
unfolding program
supply_succeeds_example =
    supply_succeeds sample (in_sol 7 alice_sol) tokens now 2_000_000_000 (omega arith) refl
      (omega arith) (omega arith)

-- Alice takes 1 SOL out; her USDC debt comes with the remaining accounts.
abbrev alice_out : ModifyPositionWithPrice sample
alice_out = record {
  base = in_sol 7 alice_sol;
  price_update = sol_update;
  remaining_accounts = position_info 601 alice_usdc ∷ update_info usdc_update ∷ [];
}

abbrev lighter : Position
lighter = settled (holding 7 9_000_000_000 0 sol) 0

abbrev withdrawn : Modified (ℕ → ℕ) MarketAction
withdrawn = record {
  market = record (later sol) { total_supplied = 11_000_000_000 };
  position = lighter;
  tokens = moved tokens (pay_out (in_sol 7 alice_sol) sol) 1_000_000_000;
  event = acted MarketActionKind.withdraw 7 sol lighter;
}

withdraw_runs : withdraw sample alice_out tokens now 1_000_000_000 ≡ ok withdrawn
unfolding program
withdraw_runs = refl

-- A withdrawal of 4 SOL would leave 480 dollars of collateral at the limit, for a debt of 500.
withdraw_too_much :
    withdraw sample alice_out tokens now 4_000_000_000 ≡ err (market MarketError.would_be_unhealthy)
unfolding program
withdraw_too_much = refl

withdraw-IsHealthy_example : IsHealthy sample alice_out now 11 lighter
withdraw-IsHealthy_example =
    withdraw-IsHealthy sample alice_out tokens now 1_000_000_000 withdraw_runs

withdraw-IsConserved_example :
    IsConserved 12_000_000_000 (accrued (in_sol 7 alice_sol) now) 11_000_000_000 lighter
    × TracksSupply
        (accrue_market sol now)
        (accrued (in_sol 7 alice_sol) now)
        withdrawn.market
        lighter
    × (0 ≡ (accrued (in_sol 7 alice_sol) now).borrowed)
    × (9_000_000_000 < (accrued (in_sol 7 alice_sol) now).supplied)
unfolding program
withdraw-IsConserved_example =
    withdraw-IsConserved sample alice_out tokens now 1_000_000_000 sample_laws (omega arith)
      withdraw_runs

-- Alice borrows 100 USDC more.
abbrev alice_loan : ModifyPositionWithPrice sample
alice_loan = record {
  base = in_usdc 7 alice_usdc;
  price_update = usdc_update;
  remaining_accounts = position_info 600 alice_sol ∷ update_info sol_update ∷ [];
}

abbrev deeper : Position
deeper = settled alice_usdc 600_000_050_000

abbrev borrowed : Modified (ℕ → ℕ) MarketAction
borrowed = record {
  market = record (later usdc) { total_borrowed = 690_000_000_000 };
  position = deeper;
  tokens = moved tokens (pay_out (in_usdc 7 alice_usdc) usdc) 100_000_000_000;
  event = acted MarketActionKind.borrow 7 usdc deeper;
}

borrow_runs : borrow sample alice_loan tokens now 100_000_000_000 ≡ ok borrowed
unfolding program
borrow_runs = refl

borrow-IsHealthy_example : IsHealthy sample alice_loan now 12 deeper
borrow-IsHealthy_example = borrow-IsHealthy sample alice_loan tokens now 100_000_000_000 borrow_runs

borrow-IsConserved_example :
    IsConserved 400_000_000_000 (accrued (in_usdc 7 alice_usdc) now) 300_000_000_000 deeper
    × TracksDebt
        (accrue_market usdc now)
        (accrued (in_usdc 7 alice_usdc) now)
        borrowed.market
        deeper
    × (0 ≡ (accrued (in_usdc 7 alice_usdc) now).supplied)
    × ((accrued (in_usdc 7 alice_usdc) now).borrowed < 600_000_050_000)
unfolding program
borrow-IsConserved_example =
    borrow-IsConserved sample alice_loan tokens now 100_000_000_000 sample_laws (omega arith)
      borrow_runs

-- Dave has 1 SOL, worth 80 dollars at the limit, and asks for 100 USDC.
abbrev dave_loan : ModifyPositionWithPrice sample
dave_loan = record {
  base = in_usdc 6 (holding 6 0 0 usdc);
  price_update = usdc_update;
  remaining_accounts =
      position_info 602 (holding 6 1_000_000_000 0 sol) ∷ update_info sol_update ∷ [];
}

borrow_with_duplicates_example :
    (borrow sample dave_loan tokens now 100_000_000_000 ≡ err (market MarketError.exceeds_ltv))
    × ((r : Modified (ℕ → ℕ) MarketAction) × (borrow sample
            (doubled sample dave_loan tokens now 100_000_000_000)
            tokens
            now
            100_000_000_000
          ≡ ok r)
        × (r.tokens ≡ moved tokens (pay_out (in_usdc 6 (holding 6 0 0 usdc)) usdc) 100_000_000_000))
unfolding program
borrow_with_duplicates_example =
    borrow_with_duplicates sample dave_loan tokens now 100_000_000_000 usdc_price
      (record { collat_at_ltv = 0; debt = 10_000_000_000 })
      (record { collat_at_ltv = 8_000_000_000; debt = 0 })
      (moved tokens (pay_out (in_usdc 6 (holding 6 0 0 usdc)) usdc) 100_000_000_000) (omega arith)
      refl (omega arith) (omega arith) (omega arith) refl refl refl (omega arith) (omega arith)
      (omega arith) refl

-- Alice pays 200 USDC back, and then all that is left.
abbrev relieved : Position
relieved = settled alice_usdc 300_000_050_000

abbrev repaid : Modified (ℕ → ℕ) MarketAction
repaid = record {
  market = record (later usdc) { total_borrowed = 390_000_000_000 };
  position = relieved;
  tokens = moved tokens (pay_in (in_usdc 7 alice_usdc)) 200_000_000_000;
  event = acted MarketActionKind.repay 7 usdc relieved;
}

repay_runs : repay sample (in_usdc 7 alice_usdc) tokens now 200_000_000_000 ≡ ok repaid
unfolding program
repay_runs = refl

repay-IsConserved_example :
    IsConserved 400_000_000_000 (accrued (in_usdc 7 alice_usdc) now) 600_000_000_000 relieved
    × (0 ≡ (accrued (in_usdc 7 alice_usdc) now).supplied)
    × (300_000_050_000 < (accrued (in_usdc 7 alice_usdc) now).borrowed)
    × ((accrued (in_usdc 7 alice_usdc) now).borrowed ≤ 300_000_050_000 + 200_000_000_000)
    × ((◌≡◌ {A = ℕ} 390_000_000_000 0)
        ⊎ TracksDebt
            (accrue_market usdc now)
            (accrued (in_usdc 7 alice_usdc) now)
            repaid.market
            relieved)
unfolding program
repay-IsConserved_example =
    repay-IsConserved sample (in_usdc 7 alice_usdc) tokens now 200_000_000_000 sample_laws
      (omega arith) repay_runs

repay_in_full_example :
    (r : Modified (ℕ → ℕ) MarketAction) × (repay sample
        (in_usdc 7 alice_usdc)
        tokens
        now
        900_000_000_000
      ≡ ok r)
    × (r.position.borrowed ≡ 0)
    × (r.tokens ≡ moved tokens (pay_in (in_usdc 7 alice_usdc)) 500_000_050_000)
unfolding program
repay_in_full_example =
    repay_in_full sample (in_usdc 7 alice_usdc) tokens now 900_000_000_000 (omega arith)
      (omega arith) refl
