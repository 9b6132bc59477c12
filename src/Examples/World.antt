-- ===== src/Examples/World.antt =====
-- A concrete runtime, two markets and their users. Alice (7) is healthy, Carol (9) is under water;
-- Bob (8) liquidates, Dave (6) has collateral and no debt.
use shadowlend.Prelude.{
  ℕ, ◌+◌, ◌-◌, ◌==◌, ◌&&◌, ◌≤◌, ◌≡◌, Option, none, some, arith, leb, leb→le, inl, inr, Bool-cases,
  if◌then◌else◌,
}
use mathlib.Core.Option.{some-injective}
use shadowlend.Prelude.Int.{pos, negsuc, pos_part, ◌+ℤ◌, ◌-ℤ◌}
use shadowlend.Machine.{
  saturating_mul, saturating_add, checked_add, checked_sub, checked_pow, to_u64_or_max, fits_i32,
}
use shadowlend.State.{Pubkey, Market, Position, Clock, Price}
use shadowlend.Runtime.{Runtime, TransferLaws, Transfer, AccountInfo}
use shadowlend.Pricing.{
  checked_i32, shift_8dp, negated, scale, unscale, token_usd_8dp, usd_8dp_to_token,
}
use shadowlend.Interest.{index_growth, accrue_market, restate, accrue_position}
use shadowlend.Health.{
  at_ltv, accumulate_position, contains, fresh_price, add_found, read_pair, add_pair, walk_skip,
  walk, accumulate_remaining, accumulate_remaining_skip,
}
use shadowlend.Instructions.Accounts.{ModifyPosition, transfer, pay_in, pay_out}
use shadowlend.Instructions.Supply.{open_or_accrue, supply}
use shadowlend.Instructions.Withdraw.{withdraw}
use shadowlend.Instructions.Borrow.{borrow}
use shadowlend.Instructions.Repay.{repay}
use shadowlend.Instructions.Liquidate.{
  seize_value, seize_for, liquidation_totals, liquidator_pays, vault_releases, settle, liquidate,
}

-- Names every definition that a run goes through, for the `unfolding` lines of the runs.
unfoldable pub program : ℕ
unfolding saturating_mul saturating_add checked_add checked_sub checked_pow to_u64_or_max fits_i32
    ◌+ℤ◌ ◌-ℤ◌ checked_i32 shift_8dp negated scale unscale token_usd_8dp usd_8dp_to_token
    index_growth accrue_market restate accrue_position at_ltv accumulate_position contains
    fresh_price add_found read_pair add_pair walk_skip walk accumulate_remaining
    accumulate_remaining_skip transfer pay_in pay_out open_or_accrue supply withdraw borrow repay
    seize_value seize_for liquidation_totals liquidator_pays vault_releases settle liquidate
program = 0

-- A price of a feed, published at a time in seconds.
pub record Update : Type 0 where
  pub price : Price
  pub feed_id : ℕ
  pub published : ℕ

pub data Blob : Type 0 where
  position : Position → Blob
  update : Update → Blob

abbrev pub as_position : Blob → Option Position
as_position (position p) = some p
as_position (update u) = none

abbrev pub as_update : Blob → Option Update
as_update (position p) = none
as_update (update u) = some u

abbrev pub put : (Pubkey → ℕ) → Pubkey → ℕ → Pubkey → ℕ
put t k n j = if j == k then n else t j

abbrev pub moved : (Pubkey → ℕ) → Transfer → ℕ → Pubkey → ℕ
moved t c n =
    let debited = put t c.sender (t c.sender - n) in put debited c.receiver (debited c.receiver + n)

abbrev pub sample : Runtime
sample = record {
  program_id = 1;
  pyth_id = 2;
  Bytes = Blob;
  deserialize_position = as_position;
  PriceUpdate = Update;
  deserialize_price_update = as_update;
  get_price_no_older_than = λ u clock age feed.
      if u.feed_id == feed && leb (pos_part clock.unix_timestamp) (u.published + age)
      then some u.price
      else none;
  Tokens = Pubkey → ℕ;
  balance = λ t k. t k;
  transfer = λ t c n. if leb n (t c.sender) then some (moved t c n) else none;
  mint_to = λ t c n. some (put t c.receiver (t c.receiver + n));
}

sample_moves :
    (t t' : Pubkey → ℕ) (c : Transfer) (n : ℕ)
    → sample.transfer t c n ≡ some t'
    → (n ≤ t c.sender) × (moved t c n ≡ t')
sample_moves t t' c n e = elim (Bool-cases (leb n (t c.sender))) [
  | inl covered ↦ (leb→le n (t c.sender) covered, some-injective _ _ (rw covered at e))
  | inr short ↦ cc (rw short at e)
]

pub sample_laws : TransferLaws sample
sample_laws = record {
  debits = λ t t' c n e apart.
      let (covered, same) = sample_moves t t' c n e in rw (← same) (ground arith);
  credits = λ t t' c n e apart.
      let (covered, same) = sample_moves t t' c n e in rw (← same) (ground arith);
  spares = λ t t' c n k e left right.
      let (covered, same) = sample_moves t t' c n e in rw (← same) (ground arith);
}

abbrev pub now : Clock
now = record { slot = 1000; unix_timestamp = pos 500 }

abbrev pub sol : Market
sol = record {
  admin = 3;
  mint = 101;
  amount_per_claim = 10_000_000_000;
  max_ltv_bps = 8000;
  feed_id = 11;
  borrow_rate_per_slot_e18 = 1_000_000_000;
  borrow_index_e18 = 1_000_000_000_000_000_000;
  last_update_slot = 900;
  total_supplied = 12_000_000_000;
  total_borrowed = 0;
  claim_count = 4;
  bump = 250;
  authority_bump = 251;
}

abbrev pub usdc : Market
usdc = record sol {
  mint = 102;
  max_ltv_bps = 8500;
  feed_id = 12;
  total_supplied = 0;
  total_borrowed = 590_000_000_000;
}

abbrev pub holding : ℕ → ℕ → ℕ → Market → Position
holding user supplied borrowed m = record {
  user = user;
  market = m.mint + 100;
  supplied = supplied;
  borrowed = borrowed;
  feed_id = m.feed_id;
  max_ltv_bps = m.max_ltv_bps;
  decimals = 9;
  bump = 252;
  borrow_index_snapshot_e18 = 1_000_000_000_000_000_000;
}

-- 10 SOL against 500 USDC
abbrev pub alice_sol : Position
alice_sol = holding 7 10_000_000_000 0 sol

abbrev pub alice_usdc : Position
alice_usdc = holding 7 0 500_000_000_000 usdc

-- 1 SOL against 90 USDC
abbrev pub carol_sol : Position
carol_sol = holding 9 1_000_000_000 0 sol

abbrev pub carol_usdc : Position
carol_usdc = holding 9 0 90_000_000_000 usdc

-- 100 dollars and 1 dollar
abbrev pub sol_price : Price
sol_price = record { price = pos 10_000_000_000; exponent = negsuc 7 }

abbrev pub usdc_price : Price
usdc_price = record { price = pos 100_000_000; exponent = negsuc 7 }

abbrev pub sol_update : Update
sol_update = record { price = sol_price; feed_id = 11; published = 400 }

abbrev pub usdc_update : Update
usdc_update = record { price = usdc_price; feed_id = 12; published = 450 }

abbrev pub position_info : Pubkey → Position → AccountInfo sample
position_info k p = record { key = k; owner = 1; bytes = position p }

abbrev pub update_info : Update → AccountInfo sample
update_info u = record { key = 700; owner = 2; bytes = update u }

-- The vaults of the markets are 301 and 302; the wallets of user u have the accounts 400 + u (SOL)
-- and 500 + u (USDC).
abbrev pub tokens : Pubkey → ℕ
tokens k =
    if k == 301
    then 12_000_000_000
    else if k == 302
    then 400_000_000_000
    else if leb 400 k
    then 1_000_000_000_000
    else 0

abbrev pub in_sol : ℕ → Position → ModifyPosition
in_sol user p = record {
  user = user;
  market_key = 201;
  market = sol;
  position_key = 600;
  position = p;
  position_bump = 252;
  vault = 301;
  authority = 303;
  user_ata = 400 + user;
}

abbrev pub in_usdc : ℕ → Position → ModifyPosition
in_usdc user p = record {
  user = user;
  market_key = 202;
  market = usdc;
  position_key = 601;
  position = p;
  position_bump = 252;
  vault = 302;
  authority = 304;
  user_ata = 500 + user;
}
