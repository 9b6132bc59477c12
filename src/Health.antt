-- ===== src/Health.antt =====
-- The cross-market health check of programs/shadow-lend/src/lib.rs: `accumulate_position`,
-- `accumulate_remaining` and `accumulate_remaining_skip`. The two running totals that the Rust
-- functions take by mutable reference are a record that goes through.
pub mod Sums
pub mod Walk
pub mod Worth
pub mod Skips
pub mod Order
pub mod Loop
use shadowlend.Prelude.{
  ℕ, ◌/◌, ◌%◌, ◌==◌, ◌&&◌, ◌||◌, Bool, false, Option, none, some, List, [], ◌∷◌, if◌then◌else◌,
  length,
}
use shadowlend.Machine.{saturating_mul, saturating_add}
use shadowlend.Result.{
  Result, ok, err, market, panic, MarketError, ◌>>=◌, ◌>>◌, require, require_keys_eq, ok_or,
}
use shadowlend.State.{Pubkey, Clock, Price, Position, bps_denominator, max_price_age_sec}
use shadowlend.Runtime.{Runtime, AccountInfo}
use shadowlend.Pricing.{token_usd_8dp}

pub record Totals : Type 0 where
  pub collat_at_ltv : ℕ
  pub debt : ℕ

abbrev pub no_totals : Totals
no_totals = record { collat_at_ltv = 0; debt = 0 }

unfoldable pub at_ltv : ℕ → ℕ → ℕ
at_ltv collat max_ltv_bps = saturating_mul collat max_ltv_bps / bps_denominator

unfoldable pub accumulate_position : ℕ → ℕ → Price → ℕ → ℕ → Totals → Result Totals
accumulate_position supplied borrowed price decimals max_ltv_bps totals = do
  collat ← token_usd_8dp supplied price decimals
  owed ← token_usd_8dp borrowed price decimals
  ok (record {
    collat_at_ltv = saturating_add totals.collat_at_ltv (at_ltv collat max_ltv_bps);
    debt = saturating_add totals.debt owed;
  })

-- `skip_keys.iter().any(|k| k == key)`
unfoldable pub contains : List Pubkey → Pubkey → Bool
contains [] key = false
contains (k ∷ ks) key = k == key || contains ks key

unfoldable pub add_found : Option (Position × Price) → Totals → Result Totals
add_found none totals = ok totals
add_found (some (pos, price)) totals =
    accumulate_position pos.supplied pos.borrowed price pos.decimals pos.max_ltv_bps totals

module _ (rt : Runtime) where
  -- A price from an update that is fresh enough and of the feed.
  unfoldable pub fresh_price : rt.PriceUpdate → Clock → ℕ → Result Price
  fresh_price update clock feed_id =
      ok_or (rt.get_price_no_older_than update clock max_price_age_sec feed_id)
        (market MarketError.stale_price)

  -- A pair of accounts, checked and priced; `none` where the round continues without counting.
  unfoldable pub read_pair :
      Pubkey → Clock → AccountInfo rt → AccountInfo rt → Result (Option (Position × Price))
  read_pair user clock pos_ai pu_ai = do
    require (pos_ai.owner == rt.program_id) MarketError.bad_position_account
    pos ← ok_or (rt.deserialize_position pos_ai.bytes) (market MarketError.bad_position_account)
    require_keys_eq pos.user user (market MarketError.bad_position_account)
    if pos.supplied == 0 && pos.borrowed == 0 then ok none else do
      require (pu_ai.owner == rt.pyth_id) MarketError.bad_price_feed
      pu ← ok_or (rt.deserialize_price_update pu_ai.bytes) (market MarketError.bad_price_feed)
      price ← fresh_price pu clock pos.feed_id
      ok (some (pos, price))

  -- The rest of a round once the position is not skipped; a round that continues leaves the totals.
  unfoldable pub add_pair :
      Pubkey → Clock → AccountInfo rt → AccountInfo rt → Totals → Result Totals
  add_pair user clock pos_ai pu_ai totals = do
    found ← read_pair user clock pos_ai pu_ai
    add_found found totals

  -- The loop of `accumulate_remaining_skip`; an index past the end would panic.
  unfoldable pub walk_skip :
      Pubkey → List Pubkey → Clock → List (AccountInfo rt) → Totals → Result Totals
  walk_skip user skip_keys clock [] totals = ok totals
  walk_skip user skip_keys clock (pos_ai ∷ []) totals = err panic
  walk_skip user skip_keys clock (pos_ai ∷ pu_ai ∷ ras) totals = do
    totals' ←
        if contains skip_keys pos_ai.key then ok totals else add_pair user clock pos_ai pu_ai totals
    walk_skip user skip_keys clock ras totals'

  unfoldable pub accumulate_remaining_skip :
      List (AccountInfo rt) → Pubkey → List Pubkey → Clock → Totals → Result Totals
  accumulate_remaining_skip ras user skip_keys clock totals = do
    require (length ras % 2 == 0) MarketError.bad_remaining_accounts
    walk_skip user skip_keys clock ras totals

  -- The loop of `accumulate_remaining`.
  unfoldable pub walk : Pubkey → Pubkey → Clock → List (AccountInfo rt) → Totals → Result Totals
  walk user skip clock [] totals = ok totals
  walk user skip clock (pos_ai ∷ []) totals = err panic
  walk user skip clock (pos_ai ∷ pu_ai ∷ ras) totals = do
    totals' ← if pos_ai.key == skip then ok totals else add_pair user clock pos_ai pu_ai totals
    walk user skip clock ras totals'

  unfoldable pub accumulate_remaining :
      List (AccountInfo rt) → Pubkey → Pubkey → Clock → Totals → Result Totals
  accumulate_remaining ras user skip clock totals = do
    require (length ras % 2 == 0) MarketError.bad_remaining_accounts
    walk user skip clock ras totals
