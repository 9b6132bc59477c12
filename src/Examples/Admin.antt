-- ===== src/Examples/Admin.antt =====
-- Markets, claims and counters at concrete inputs.
use shadowlend.Prelude.{ℕ, ◌+◌, ◌≤◌, ◌≡◌, ◌≢◌, ◌⊎◌, ◌↔◌, refl, some, arith}
use shadowlend.Prelude.Int.{pos}
use shadowlend.Machine.{u64_max, checked_add}
use shadowlend.Result.{ok, err, market, MarketError}
use shadowlend.State.{Pubkey, UserStats, ActionKind, ActionRecorded, bps_denominator}
use shadowlend.Instructions.Admin.{InitializeMarket, initialize_market, set_claim_amount}
use shadowlend.Instructions.Admin.Guards.{initialize_market_refuses, set_claim_amount_lem}
use shadowlend.Instructions.Faucet.{ClaimFaucet, Claimed, faucet_mint, claim_faucet}
use shadowlend.Instructions.Faucet.Receipt.{claim_faucet_effect}
use shadowlend.Instructions.Stats.{increment, count_action, record_action}
use shadowlend.Instructions.Stats.Tally.{IsTallied, record_action-IsTallied}
use shadowlend.Examples.World.{sample, now, sol, tokens, put}

abbrev new_market : InitializeMarket
new_market = record { admin = 3; mint = 101; market_bump = 250; authority_bump = 251 }

initialize_market_refuses_example :
    (initialize_market new_market now 5 10_000 11 7 ≡ err (market MarketError.bad_ltv))
    ↔ ((◌≡◌ {A = ℕ} 10_000 0) ⊎ (bps_denominator ≤ 10_000))
initialize_market_refuses_example = initialize_market_refuses new_market now 5 10_000 11 7

set_claim_amount_lem_example :
    ((◌≡◌ {A = ℕ} 4 3) × (set_claim_amount 4 sol 9 ≡ ok (record sol { amount_per_claim = 9 })))
    ⊎ ((◌≢◌ {A = ℕ} 4 3) × (set_claim_amount 4 sol 9 ≡ err (market MarketError.not_admin)))
set_claim_amount_lem_example = set_claim_amount_lem 4 sol 9

abbrev claim : ClaimFaucet
claim = record {
  user = 7;
  market = sol;
  mint = 101;
  authority = 303;
  recipient_ata = 407;
  receipt_bump = 249;
}

abbrev claimed : Claimed (Pubkey → ℕ)
claimed = record {
  market = record sol { claim_count = 5 };
  receipt = record {
    user = 7;
    mint = 101;
    amount = 10_000_000_000;
    claimed_at = pos 500;
    bump = 249;
  };
  tokens = put tokens 407 1_010_000_000_000;
  event = record { user = 7; mint = 101; amount = 10_000_000_000; claimed_at = pos 500 };
}

claim_faucet_effect_example :
    (sample.mint_to tokens (faucet_mint claim) 10_000_000_000 ≡ some claimed.tokens)
    × (◌≡◌ {A = ℕ} 10_000_000_000 10_000_000_000)
    × (◌≡◌ {A = ℕ} 7 7)
    × (◌≡◌ {A = ℕ} 101 101)
    × (claimed.market ≡ record sol { claim_count = 4 + 1 })
    × (5 ≤ u64_max)
    × (◌≡◌ {A = ℕ} 10_000_000_000 10_000_000_000)
unfolding claim_faucet checked_add faucet_mint
claim_faucet_effect_example = claim_faucet_effect sample claim tokens now {r = claimed} refl

abbrev start : UserStats
start = record {
  user = 7;
  created_at = pos 500;
  last_action_at = pos 500;
  proofs_submitted = 0;
  supplies = 0;
  borrows = 0;
  repays = 0;
  liquidations = 0;
  last_health_bps = 0;
  bump = 248;
}

abbrev counted : UserStats
counted = record start { proofs_submitted = 1; borrows = 1; last_health_bps = 1500 }

abbrev recorded : ActionRecorded
recorded = record { user = 7; kind = ActionKind.borrow; health_bps = 1500; recorded_at = pos 500 }

record_action-IsTallied_example : IsTallied counted × (◌≡◌ {A = ℕ} 1 (0 + 1)) × (◌≡◌ {A = ℕ} 7 7)
unfolding record_action count_action increment checked_add
record_action-IsTallied_example =
    record_action-IsTallied 7 start now ActionKind.borrow 1500 {s' = counted} {event = recorded}
      (omega arith) refl
