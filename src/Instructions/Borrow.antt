-- ===== src/Instructions/Borrow.antt =====
-- `borrow` of programs/shadow-lend/src/lib.rs.
pub mod Effect
pub mod Duplicates
use shadowlend.Prelude.{ℕ, ltb, leb, ◌==◌}
use shadowlend.Machine.{checked_add}
use shadowlend.Result.{Result, ok, market, MarketError, ◌>>=◌, ◌>>◌, require, ok_or}
use shadowlend.State.{Clock, MarketAction, MarketActionKind}
use shadowlend.Runtime.{Runtime}
use shadowlend.Interest.{accrue_market, accrue_position}
use shadowlend.Health.{no_totals, accumulate_position, accumulate_remaining, fresh_price}
use shadowlend.Instructions.Accounts.{ModifyPositionWithPrice, Modified, transfer, pay_out}

module _ (rt : Runtime) where
  -- `ctx.accounts.vault.amount` is the balance of the vault when the instruction begins.
  unfoldable pub borrow :
      ModifyPositionWithPrice rt → rt.Tokens → Clock → ℕ → Result (Modified rt.Tokens MarketAction)
  borrow ctx tokens clock amount = do
    require (ltb 0 amount) MarketError.zero_amount
    let m = accrue_market ctx.market clock
    let p = accrue_position ctx.position m
    require (p.supplied == 0) MarketError.same_mint_borrow
    new_borrowed ← ok_or (checked_add p.borrowed amount) (market MarketError.overflow)
    require (leb amount (rt.balance tokens ctx.vault)) MarketError.insufficient_liquidity
    cur_price ← fresh_price rt ctx.price_update clock m.feed_id
    totals ←
        accumulate_position p.supplied new_borrowed cur_price p.decimals p.max_ltv_bps no_totals
    totals' ← accumulate_remaining rt ctx.remaining_accounts ctx.user ctx.position_key clock totals
    require (leb totals'.debt totals'.collat_at_ltv) MarketError.exceeds_ltv
    tokens' ← transfer rt tokens (pay_out ctx.base m) amount
    total ← ok_or (checked_add m.total_borrowed amount) (market MarketError.overflow)
    ok (record {
      market = record m { total_borrowed = total };
      position = record p { borrowed = new_borrowed };
      tokens = tokens';
      event = record {
        user = ctx.user;
        mint = m.mint;
        kind = MarketActionKind.borrow;
        supplied = p.supplied;
        borrowed = new_borrowed;
      };
    })
