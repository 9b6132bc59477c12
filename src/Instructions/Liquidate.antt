-- ===== src/Instructions/Liquidate.antt =====
-- `liquidate` of programs/shadow-lend/src/lib.rs.
pub mod Effect
pub mod Bounds
pub mod Bonus
pub mod Cover
pub mod Shortfall
use shadowlend.Prelude.{ℕ, ◌+◌, ◌/◌, ◌==◌, ltb, leb, min, not, List, [], ◌∷◌, if◌then◌else◌}
use shadowlend.Machine.{saturating_mul, saturating_sub}
use shadowlend.Result.{Result, ok, market, MarketError, ◌>>=◌, ◌>>◌, require, require_keys_eq}
use shadowlend.State.{
  Pubkey, Market, Position, Price, Clock, Liquidation, bps_denominator, liquidation_bonus_bps,
}
use shadowlend.Runtime.{Runtime, AccountInfo, Transfer, Signing}
use shadowlend.Pricing.{token_usd_8dp, usd_8dp_to_token}
use shadowlend.Interest.{accrue_market, accrue_position}
use shadowlend.Health.{
  Totals, no_totals, accumulate_position, accumulate_remaining_skip, fresh_price,
}
use shadowlend.Instructions.Accounts.{transfer}

-- `Liquidate`, with `ctx.remaining_accounts`.
pub record Liquidate (rt : Runtime) : Type 0 where
  pub liquidator : Pubkey
  pub borrower : Pubkey
  pub debt_market : Market
  pub debt_position_key : Pubkey
  pub debt_position : Position
  pub debt_vault : Pubkey
  pub debt_price_update : rt.PriceUpdate
  pub liquidator_debt_ata : Pubkey
  pub collateral_market : Market
  pub collateral_position_key : Pubkey
  pub collateral_position : Position
  pub collateral_vault : Pubkey
  pub collateral_authority : Pubkey
  pub collateral_price_update : rt.PriceUpdate
  pub liquidator_collateral_ata : Pubkey
  pub remaining_accounts : List (AccountInfo rt)

-- What the handler leaves: the four accounts that it writes, the tokens, and the event.
pub record Liquidated (Tokens : Type 0) : Type 0 where
  pub debt_market : Market
  pub debt_position : Position
  pub collateral_market : Market
  pub collateral_position : Position
  pub tokens : Tokens
  pub event : Liquidation

-- The dollars to seize for dollars repaid: the bonus on top.
unfoldable pub seize_value : ℕ → ℕ
seize_value repay_value_usd =
    saturating_mul repay_value_usd (bps_denominator + liquidation_bonus_bps) / bps_denominator

-- The collateral to seize for a repayment, capped to what is supplied.
unfoldable pub seize_for : ℕ → Price → ℕ → Price → ℕ → ℕ → Result ℕ
seize_for actual_repay debt_price debt_decimals collat_price collat_decimals supplied = do
  repay_value_usd ← token_usd_8dp actual_repay debt_price debt_decimals
  seize_amount ← usd_8dp_to_token (seize_value repay_value_usd) collat_price collat_decimals
  ok (if ltb supplied seize_amount then supplied else seize_amount)

module _ (rt : Runtime) where
  -- The borrower's totals: both positions of the instruction and the remaining accounts.
  unfoldable pub liquidation_totals :
      Liquidate rt → Position → Position → Price → Price → Clock → Result Totals
  liquidation_totals ctx debt collat debt_price collat_price clock = do
    totals ←
        accumulate_position debt.supplied debt.borrowed debt_price debt.decimals debt.max_ltv_bps
          no_totals
    totals' ←
        accumulate_position collat.supplied collat.borrowed collat_price collat.decimals
          collat.max_ltv_bps totals
    accumulate_remaining_skip rt ctx.remaining_accounts ctx.borrower
        (ctx.debt_position_key ∷ ctx.collateral_position_key ∷ []) clock totals'

  unfoldable pub liquidator_pays : Liquidate rt → Transfer
  liquidator_pays ctx = record {
    sender = ctx.liquidator_debt_ata;
    receiver = ctx.debt_vault;
    authority = ctx.liquidator;
    signing = Signing.wallet;
  }

  unfoldable pub vault_releases : Liquidate rt → Transfer
  vault_releases ctx = record {
    sender = ctx.collateral_vault;
    receiver = ctx.liquidator_collateral_ata;
    authority = ctx.collateral_authority;
    signing =
        Signing.authority_seeds ctx.collateral_market.mint ctx.collateral_market.authority_bump;
  }

  -- The second half of `liquidate`, on accrued accounts: the seizure, the transfers, the new state.
  unfoldable pub settle :
      Liquidate rt
      → Market
      → Market
      → Position
      → Position
      → Price
      → Price
      → rt.Tokens
      → ℕ
      → Result (Liquidated rt.Tokens)
  unfolding saturating_sub
  settle ctx dm cm dp cp debt_price collat_price tokens repay_amount = do
    let actual_repay = min repay_amount dp.borrowed
    seize_amount ←
        seize_for actual_repay debt_price dp.decimals collat_price cp.decimals cp.supplied
    require (ltb 0 seize_amount) MarketError.nothing_to_liquidate
    require (leb seize_amount (rt.balance tokens ctx.collateral_vault))
        MarketError.insufficient_liquidity
    paid ← transfer rt tokens (liquidator_pays ctx) actual_repay
    released ← transfer rt paid (vault_releases ctx) seize_amount
    ok (record {
      debt_market = record dm { total_borrowed = saturating_sub dm.total_borrowed actual_repay };
      debt_position = record dp { borrowed = saturating_sub dp.borrowed actual_repay };
      collateral_market = record cm {
        total_supplied = saturating_sub cm.total_supplied seize_amount;
      };
      collateral_position = record cp { supplied = saturating_sub cp.supplied seize_amount };
      tokens = released;
      event = record {
        liquidator = ctx.liquidator;
        borrower = ctx.borrower;
        debt_mint = dm.mint;
        collateral_mint = cm.mint;
        repaid = actual_repay;
        seized = seize_amount;
      };
    })

  unfoldable pub liquidate : Liquidate rt → rt.Tokens → Clock → ℕ → Result (Liquidated rt.Tokens)
  liquidate ctx tokens clock repay_amount = do
    require (ltb 0 repay_amount) MarketError.zero_amount
    let dm = accrue_market ctx.debt_market clock
    let cm = accrue_market ctx.collateral_market clock
    let dp = accrue_position ctx.debt_position dm
    let cp = accrue_position ctx.collateral_position cm
    require (not (ctx.liquidator == ctx.borrower)) MarketError.self_liquidation
    require_keys_eq dp.user ctx.borrower (market MarketError.bad_position_account)
    require_keys_eq cp.user ctx.borrower (market MarketError.bad_position_account)
    require (ltb 0 dp.borrowed) MarketError.nothing_to_liquidate
    require (ltb 0 cp.supplied) MarketError.nothing_to_liquidate
    debt_price ← fresh_price rt ctx.debt_price_update clock dm.feed_id
    collat_price ← fresh_price rt ctx.collateral_price_update clock cm.feed_id
    totals ← liquidation_totals ctx dp cp debt_price collat_price clock
    require (ltb totals.collat_at_ltv totals.debt) MarketError.position_healthy
    settle ctx dm cm dp cp debt_price collat_price tokens repay_amount
