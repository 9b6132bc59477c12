-- ===== src/Examples/Typed.antt =====
-- The ranges of the stored numbers along a run.
use shadowlend.Prelude.{◌≡◌, refl, arith}
use shadowlend.Result.{ok}
use shadowlend.Instructions.Admin.{initialize_market}
use shadowlend.Ledger.{put, init, init_if_needed, market_of, context, modify_position, write_back}
use shadowlend.Ledger.Execute.{execute, run_initialize_market, run_supply}
use shadowlend.Ledger.Reach.{no_accounts}
use shadowlend.Examples.World.{program, sample, now}
use shadowlend.Examples.Accounts.{sample_addresses}
use shadowlend.Ledger.Ranges.Store.{IsTyped}
use shadowlend.Ledger.Ranges.Calls.{execute-IsTyped}
use shadowlend.Examples.Runs.{opening, deposit, wealthy, opened, deposited}

no_accounts-IsTyped : IsTyped sample (no_accounts sample wealthy)
no_accounts-IsTyped = record {
  markets = λ k a e. cc;
  positions = λ k a e. cc;
  receipts = λ k a e. cc;
  stats = λ k a e. cc;
}

opens : execute sample sample_addresses (no_accounts sample wealthy) now opening ≡ ok opened
unfolding opened program put init run_initialize_market initialize_market execute
opens = refl

opened-IsTyped : IsTyped sample opened
opened-IsTyped =
    execute-IsTyped sample sample_addresses (no_accounts sample wealthy) no_accounts-IsTyped now
      opening (omega arith) (omega arith, omega arith, omega arith) opens

deposits_more : execute sample sample_addresses opened now deposit ≡ ok deposited
unfolding opened deposited program put init init_if_needed market_of context modify_position
    write_back run_supply run_initialize_market initialize_market execute
deposits_more = refl

execute-IsTyped_example : IsTyped sample deposited
execute-IsTyped_example =
    execute-IsTyped sample sample_addresses opened opened-IsTyped now deposit (omega arith) tt
      deposits_more
