-- ===== src/Instructions/Admin/Guards.antt =====
-- About `initialize_market` and `set_claim_amount` of programs/shadow-lend/src/lib.rs.
use shadowlend.Prelude.{ℕ, ◌≤◌, ◌<◌, ◌≡◌, ◌≢◌, ◌⊎◌, ◌↔◌, arith}
use shadowlend.Result.{ok, err, market, MarketError}
use shadowlend.State.{Pubkey, Market, Clock, bps_denominator, rate_scale_e18}
use shadowlend.Instructions.Admin.{InitializeMarket, initialize_market, set_claim_amount}

module _ (ctx : InitializeMarket) (clock : Clock) (claim ltv feed rate : ℕ) where
  -- A new market is refused with `bad_ltv` exactly when its limit is zero or at least 10000 basis
  -- points, whoever signs.
  pub initialize_market_refuses :
      (initialize_market ctx clock claim ltv feed rate ≡ err (market MarketError.bad_ltv))
      ↔ ((ltv ≡ 0) ⊎ (bps_denominator ≤ ltv))
  unfolding initialize_market
  initialize_market_refuses = ground arith

  -- A new market has a limit in range, belongs to whoever signed, is empty, and has an index of one.
  pub initialize_market_effect :
      {m : Market}
      → initialize_market ctx clock claim ltv feed rate ≡ ok m
      → (0 < m.max_ltv_bps)
        × (m.max_ltv_bps < bps_denominator)
        × (m.admin ≡ ctx.admin)
        × (m.borrow_index_e18 ≡ rate_scale_e18)
        × (m.last_update_slot ≡ clock.slot)
        × (m.total_supplied ≡ 0)
        × (m.total_borrowed ≡ 0)
        × (m.claim_count ≡ 0)
  unfolding initialize_market
  initialize_market_effect e = ground arith

-- Either the signer is the market's admin and just the amount per claim is changed, or it is another
-- and the call is refused with `not_admin`.
pub set_claim_amount_lem :
    (admin : Pubkey) (m : Market) (amount : ℕ)
    → ((admin ≡ m.admin)
        × (set_claim_amount admin m amount ≡ ok (record m { amount_per_claim = amount })))
      ⊎ ((admin ≢ m.admin) × (set_claim_amount admin m amount ≡ err (market MarketError.not_admin)))
unfolding set_claim_amount
set_claim_amount_lem admin m amount = ground arith
