-- ===== src/Instructions/Admin.antt =====
-- `initialize_market` and `set_claim_amount` of programs/shadow-lend/src/lib.rs.
pub mod Guards
use shadowlend.Prelude.{ℕ, ltb, ◌&&◌}
use shadowlend.Result.{Result, ok, market, MarketError, ◌>>◌, require, require_keys_eq}
use shadowlend.State.{Pubkey, Market, Clock, bps_denominator, rate_scale_e18}

-- The keys and bumps of `InitializeMarket` that the handler writes down.
pub record InitializeMarket : Type 0 where
  pub admin : Pubkey
  pub mint : Pubkey
  pub market_bump : ℕ
  pub authority_bump : ℕ

unfoldable pub initialize_market : InitializeMarket → Clock → ℕ → ℕ → ℕ → ℕ → Result Market
initialize_market ctx clock amount_per_claim max_ltv_bps feed_id borrow_rate_per_slot_e18 = do
  require (ltb 0 max_ltv_bps && ltb max_ltv_bps bps_denominator) MarketError.bad_ltv
  ok (record {
    admin = ctx.admin;
    mint = ctx.mint;
    amount_per_claim = amount_per_claim;
    max_ltv_bps = max_ltv_bps;
    feed_id = feed_id;
    borrow_rate_per_slot_e18 = borrow_rate_per_slot_e18;
    borrow_index_e18 = rate_scale_e18;
    last_update_slot = clock.slot;
    total_supplied = 0;
    total_borrowed = 0;
    claim_count = 0;
    bump = ctx.market_bump;
    authority_bump = ctx.authority_bump;
  })

-- `AdminUpdate` holds the signer and the market.
unfoldable pub set_claim_amount : Pubkey → Market → ℕ → Result Market
set_claim_amount admin m amount = do
  require_keys_eq m.admin admin (market MarketError.not_admin)
  ok (record m { amount_per_claim = amount })
