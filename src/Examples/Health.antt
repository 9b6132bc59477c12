-- ===== src/Examples/Health.antt =====
-- The walk over the remaining accounts at a concrete list, and its theorems there.
use mathlib.Core.List.{Permᴰ}
use shadowlend.Prelude.{some, ◌==◌, ◌%◌, ◌≤◌, ◌≡◌, refl, List, [], ◌∷◌, ◌++◌, arith}
use shadowlend.Result.{ok, err, market, MarketError, ◌>>=◌, ◌>>◌, require}
use shadowlend.Runtime.{AccountInfo}
use shadowlend.Health.{Totals, no_totals, accumulate_remaining, accumulate_remaining_skip}
use shadowlend.Health.Loop.{
  accumulate_remaining_loop, accumulate_remaining_skip_loop, accumulate_remaining_loop_ends,
}
use shadowlend.Health.Order.{Pair, accumulate_remaining_skip_perm}
use shadowlend.Health.Walk.{clamped, contributions, accumulate_remaining_skip-clamped}
use shadowlend.Health.Skips.{
  accumulate_remaining-accumulate_remaining_skip, accumulate_remaining_omits,
}
use shadowlend.Examples.World.{
  program, sample, now, alice_sol, alice_usdc, sol_update, usdc_update, position_info, update_info,
}

abbrev sol_pair : List (AccountInfo sample)
sol_pair = position_info 600 alice_sol ∷ update_info sol_update ∷ []

abbrev usdc_pair : List (AccountInfo sample)
usdc_pair = position_info 601 alice_usdc ∷ update_info usdc_update ∷ []

-- 800 dollars at the limit, and 500 dollars of debt.
abbrev alice_totals : Totals
alice_totals = record { collat_at_ltv = 80_000_000_000; debt = 50_000_000_000 }

walk_runs : accumulate_remaining sample (usdc_pair ++ sol_pair) 7 0 now no_totals ≡ ok alice_totals
unfolding program
walk_runs = refl

odd_list :
    accumulate_remaining sample (position_info 600 alice_sol ∷ []) 7 0 now no_totals
    ≡ err (market MarketError.bad_remaining_accounts)
unfolding program
odd_list = refl

another_user :
    accumulate_remaining sample sol_pair 8 0 now no_totals
    ≡ err (market MarketError.bad_position_account)
unfolding program
another_user = refl

accumulate_remaining_skip-clamped_example :
    accumulate_remaining_skip sample (usdc_pair ++ sol_pair) 7 (600 ∷ 605 ∷ []) now alice_totals
    ≡ (do
      require (4 % 2 == 0) MarketError.bad_remaining_accounts
      cs ← contributions sample 7 (600 ∷ 605 ∷ []) now (usdc_pair ++ sol_pair)
      ok (clamped alice_totals cs))
accumulate_remaining_skip-clamped_example =
    accumulate_remaining_skip-clamped sample 7 (600 ∷ 605 ∷ []) now (usdc_pair ++ sol_pair)
      alice_totals (omega arith)

accumulate_remaining-accumulate_remaining_skip_example :
    accumulate_remaining sample (usdc_pair ++ sol_pair) 7 600 now no_totals
    ≡ accumulate_remaining_skip sample (usdc_pair ++ sol_pair) 7 (600 ∷ []) now no_totals
accumulate_remaining-accumulate_remaining_skip_example =
    accumulate_remaining-accumulate_remaining_skip sample 7 600 now (usdc_pair ++ sol_pair)
      no_totals

-- Alice leaves her debt out.
accumulate_remaining_omits_example :
    (part : Totals) × (accumulate_remaining sample sol_pair 7 0 now no_totals ≡ ok part)
    × (part.collat_at_ltv ≤ 80_000_000_000)
    × (part.debt ≤ 50_000_000_000)
accumulate_remaining_omits_example =
    accumulate_remaining_omits sample 7 0 now usdc_pair sol_pair (omega arith) walk_runs

abbrev debt_pair : Pair sample
debt_pair = (position_info 601 alice_usdc, update_info usdc_update)

abbrev collateral_pair : Pair sample
collateral_pair = (position_info 600 alice_sol, update_info sol_update)

skip_walk_runs :
    accumulate_remaining_skip sample (usdc_pair ++ sol_pair) 7 (605 ∷ []) now no_totals
    ≡ ok alice_totals
unfolding program
skip_walk_runs = refl

accumulate_remaining_skip_perm_example :
    accumulate_remaining_skip sample (sol_pair ++ usdc_pair) 7 (605 ∷ []) now no_totals
    ≡ ok alice_totals
accumulate_remaining_skip_perm_example =
    accumulate_remaining_skip_perm sample 7 (605 ∷ []) now (debt_pair ∷ collateral_pair ∷ [])
      (collateral_pair ∷ debt_pair ∷ []) no_totals
      (record { collat_at_ltv = omega arith; debt = omega arith }) (Permᴰ.swap refl refl)
      skip_walk_runs

-- Three rounds for two pairs.
accumulate_remaining_loop_ends_example :
    (accumulate_remaining_loop sample 3 (usdc_pair ++ sol_pair) 7 600 now no_totals
      ≡ some (accumulate_remaining sample (usdc_pair ++ sol_pair) 7 600 now no_totals))
    × (accumulate_remaining_skip_loop sample 3 (usdc_pair ++ sol_pair) 7 (605 ∷ []) now no_totals
        ≡ some
            (accumulate_remaining_skip sample (usdc_pair ++ sol_pair) 7 (605 ∷ []) now no_totals))
accumulate_remaining_loop_ends_example =
    accumulate_remaining_loop_ends sample 7 now 3 (usdc_pair ++ sol_pair) 600 (605 ∷ []) no_totals
      (omega arith)
