-- ===== src/Examples/Loans.antt =====
-- Alice borrows on a ledger of two markets, with her collateral listed.
use shadowlend.Prelude.{ℕ, ◌≡◌, refl, none, inr, List, [], ◌∷◌}
use shadowlend.Result.{ok}
use shadowlend.State.{Position}
use shadowlend.Runtime.{AccountInfo}
use shadowlend.Ledger.{
  Ledger, put, market_of, position_of, context, modify_position_with_price, write_back, market_seed,
  position_seed,
}
use shadowlend.Ledger.Execute.{run_borrow}
use shadowlend.Ledger.Listed.{AreStored}
use shadowlend.Ledger.Listed.Covered.{IsCovered, withdraw_or_borrow-IsCovered}
use shadowlend.Examples.World.{
  program, sample, now, sol, usdc, alice_sol, alice_usdc, sol_update, usdc_update, position_info,
  update_info,
}
use shadowlend.Examples.Accounts.{sample_addresses}
use shadowlend.Examples.Runs.{ledger_or, wealthy}

abbrev sol_key : ℕ
sol_key = sample_addresses.find (position_seed 7 101)

abbrev in_sol : Position
in_sol = record alice_sol { bump = 254 }

abbrev in_usdc : Position
in_usdc = record alice_usdc { bump = 254 }

two_markets : Ledger sample
unfolding put
two_markets = record {
  markets =
      put (put (λ k. none) (sample_addresses.find (market_seed 101)) sol)
        (sample_addresses.find (market_seed 102)) usdc;
  positions =
      put (put (λ k. none) sol_key in_sol) (sample_addresses.find (position_seed 7 102)) in_usdc;
  receipts = λ k. none;
  stats = λ k. none;
  tokens = wealthy;
}

abbrev listed : List (AccountInfo sample)
listed = position_info sol_key in_sol ∷ update_info sol_update ∷ []

listed-stored : AreStored sample two_markets.positions listed
unfolding two_markets put program
listed-stored =
    (record { stored = λ p owned reads. reads }, (record { stored = λ p owned reads. cc }, _))

lent : Ledger sample
unfolding two_markets program put market_of position_of context modify_position_with_price
    write_back run_borrow
lent =
    ledger_or
      (run_borrow sample sample_addresses two_markets now 7 102 100_000_000_000 usdc_update listed)
      two_markets

lends :
    run_borrow sample sample_addresses two_markets now 7 102 100_000_000_000 usdc_update listed
    ≡ ok lent
unfolding two_markets lent program put market_of position_of context modify_position_with_price
    write_back run_borrow
lends = refl

withdraw_or_borrow-IsCovered_example :
    IsCovered sample sample_addresses now 7 102 usdc_update listed lent
withdraw_or_borrow-IsCovered_example =
    withdraw_or_borrow-IsCovered sample sample_addresses now 7 102 usdc_update listed two_markets
      lent listed-stored 100_000_000_000 (inr lends)
