-- ===== src/Examples/Runs.antt =====
-- Runs of calls on a ledger of the concrete runtime, and the theorems at those runs.
use shadowlend.Prelude.{ℕ, ◌≡◌, ◌≢◌, refl, none, some, [], min}
use shadowlend.Result.{Result, ok, err}
use shadowlend.State.{Market, Position, rate_scale_e18}
use shadowlend.Interest.{accrue_market, accrue_position}
use shadowlend.Instructions.Liquidate.{Liquidate, Liquidated, liquidate}
use shadowlend.Instructions.Admin.{initialize_market}
use shadowlend.Instructions.Faucet.{faucet_mint, claim_faucet}
use shadowlend.Ledger.{
  Ledger, put, init, init_if_needed, market_of, market_at, position_of, context, modify_position,
  write_back, market_seed, position_seed,
}
use shadowlend.Ledger.Call.{Call, LiquidateCall}
use shadowlend.Ledger.Execute.{
  execute, run_initialize_market, run_claim_faucet, run_supply, run_liquidate, liquidate_context,
  write_liquidated,
}
use shadowlend.Ledger.Sound.{Evolves, IsSound}
use shadowlend.Ledger.Reach
use shadowlend.Ledger.Reach.{no_accounts, Reachable, Reachable-IsSound}
use shadowlend.Ledger.Solvency.{IsSolvent}
use shadowlend.Ledger.Solvency.Custody.{Guarded, genesis, executed, Guarded-IsSolvent}
use shadowlend.Ledger.Aliasing.{liquidate_same_market}
use shadowlend.Ledger.Claims
use shadowlend.Ledger.Claims.{Later, same, claim_faucet_once}
use shadowlend.Ledger.Terms.{Later-Evolves}
use shadowlend.Examples.World.{program, sample, sample_laws, now, usdc, holding, usdc_update}
use shadowlend.Examples.Accounts.{
  sample_addresses, sample-AddressLaws, sample-VaultLaws, sample-MintLaws, sevens-IsWallet,
}

abbrev pub ledger_or : Result (Ledger sample) → Ledger sample → Ledger sample
ledger_or (err e) l = l
ledger_or (ok l) l' = l

abbrev pub opening : Call sample
opening = Call.initialize_market 15 101 10_000_000_000 8000 11 1_000_000_000

abbrev pub deposit : Call sample
deposit = Call.supply 407 101 3_000_000_000

abbrev pub wealthy : ℕ → ℕ
wealthy k = 1_000_000_000_000

-- A market is opened, and a user supplies to it.
unfoldable pub opened : Ledger sample
unfolding program put init run_initialize_market initialize_market execute
opened =
    ledger_or (execute sample sample_addresses (no_accounts sample wealthy) now opening)
      (no_accounts sample wealthy)

unfoldable pub deposited : Ledger sample
unfolding opened program put init_if_needed market_of context modify_position write_back run_supply
    execute init run_initialize_market initialize_market
deposited = ledger_or (execute sample sample_addresses opened now deposit) opened

deposited-Reachable : Reachable sample sample_addresses deposited
unfolding opened deposited program put init init_if_needed market_of context modify_position
    write_back run_supply run_initialize_market initialize_market execute
deposited-Reachable =
    Reach.executed (Reach.executed (Reach.genesis wealthy) now opening refl) now deposit refl

Reachable-IsSound_example : IsSound sample sample_addresses deposited.markets deposited.positions
Reachable-IsSound_example =
    Reachable-IsSound sample sample_addresses sample-AddressLaws deposited-Reachable

claimed : Ledger sample
unfolding opened program put init market_of run_claim_faucet claim_faucet faucet_mint execute
    run_initialize_market initialize_market
claimed = ledger_or (run_claim_faucet sample sample_addresses opened now 407 101) opened

claims : run_claim_faucet sample sample_addresses opened now 407 101 ≡ ok claimed
unfolding opened claimed program put init market_of run_claim_faucet claim_faucet faucet_mint
    execute run_initialize_market initialize_market
claims = refl

claim_faucet_once_example :
    run_claim_faucet sample sample_addresses claimed now 407 101 ≢ ok claimed
claim_faucet_once_example =
    claim_faucet_once sample sample_addresses opened claimed claimed claimed now now 407 101 claims
      same

-- Carol holds 50 USDC and owes 90 USDC in the one market.
abbrev carol_both : Position
carol_both = record (holding 9 50_000_000_000 90_000_000_000 usdc) { bump = 254 }

one_market : Ledger sample
unfolding put
one_market = record {
  markets = put (λ k. none) (sample_addresses.find (market_seed 102)) usdc;
  positions = put (λ k. none) (sample_addresses.find (position_seed 9 102)) carol_both;
  receipts = λ k. none;
  stats = λ k. none;
  tokens = wealthy;
}

abbrev same_market_call : LiquidateCall sample
same_market_call = record {
  liquidator = 8;
  borrower = 9;
  debt_market_key = sample_addresses.find (market_seed 102);
  collateral_market_key = sample_addresses.find (market_seed 102);
  liquidator_debt_ata = 816_000_070;
  liquidator_collateral_ata = 816_000_070;
  debt_price_update = usdc_update;
  collateral_price_update = usdc_update;
  remaining_accounts = [];
}

seized : Ledger sample
unfolding one_market program put market_at position_of liquidate_context write_liquidated
    run_liquidate
seized =
    ledger_or (run_liquidate sample sample_addresses one_market now same_market_call 40_000_000_000)
      one_market

seizes :
    run_liquidate sample sample_addresses one_market now same_market_call 40_000_000_000 ≡ ok seized
unfolding one_market seized program put market_at position_of liquidate_context write_liquidated
    run_liquidate
seizes = refl

liquidate_same_market_example :
    (ctx : Liquidate sample) × (r : Liquidated (ℕ → ℕ)) × (liquidate_context sample sample_addresses
        one_market same_market_call
      ≡ ok ctx)
    × (liquidate sample ctx one_market.tokens now 40_000_000_000 ≡ ok r)
    × let p = accrue_position ctx.debt_position (accrue_market ctx.debt_market now) in
      (p' : Position) × (seized.positions ctx.debt_position_key ≡ some p')
      × (p'.borrowed ≡ p.borrowed)
      × (r.event.repaid ≡ min 40_000_000_000 p.borrowed)
liquidate_same_market_example =
    liquidate_same_market sample sample_addresses one_market now same_market_call 40_000_000_000
      refl seizes

deposited-Guarded : Guarded sample sample_addresses deposited
unfolding opened deposited program put init init_if_needed market_of context modify_position
    write_back run_supply run_initialize_market initialize_market execute
deposited-Guarded =
    executed (executed (genesis wealthy) now opening (sevens-IsWallet 15 refl) refl) now deposit
      (sevens-IsWallet 407 refl) refl

Guarded-IsSolvent_example :
    IsSolvent sample sample_addresses deposited.markets deposited.positions deposited.tokens
Guarded-IsSolvent_example =
    Guarded-IsSolvent sample sample_addresses sample-AddressLaws sample-VaultLaws sample_laws
      sample-MintLaws deposited-Guarded

abbrev opened_market : Market
opened_market = record {
  admin = 15;
  mint = 101;
  amount_per_claim = 10_000_000_000;
  max_ltv_bps = 8000;
  feed_id = 11;
  borrow_rate_per_slot_e18 = 1_000_000_000;
  borrow_index_e18 = rate_scale_e18;
  last_update_slot = 1000;
  total_supplied = 0;
  total_borrowed = 0;
  claim_count = 0;
  bump = 250;
  authority_bump = 251;
}

opened-Reachable : Reachable sample sample_addresses opened
unfolding opened program put init run_initialize_market initialize_market execute
opened-Reachable = Reach.executed (Reach.genesis wealthy) now opening refl

opened-deposited : Later sample sample_addresses opened deposited
unfolding opened deposited program put init init_if_needed market_of context modify_position
    write_back run_supply run_initialize_market initialize_market execute
opened-deposited = Claims.executed Claims.same now deposit refl

holds_market : opened.markets (sample_addresses.find (market_seed 101)) ≡ some opened_market
unfolding opened program put init run_initialize_market initialize_market execute
holds_market = refl

Later-Evolves_example :
    (m : Market) × (deposited.markets (sample_addresses.find (market_seed 101)) ≡ some m)
    × Evolves opened_market m
Later-Evolves_example =
    Later-Evolves sample sample_addresses sample-AddressLaws 101 opened-Reachable opened-deposited
      holds_market
