-- ===== src/Instructions/Withdraw.antt =====
-- `withdraw` of programs/shadow-lend/src/lib.rs.
pub mod Effect
use shadowlend.Prelude.{ℕ, ltb, leb}
use shadowlend.Machine.{checked_sub}
use shadowlend.Result.{Result, ok, market, MarketError, ◌>>=◌, ◌>>◌, require, ok_or}
use shadowlend.State.{Clock, MarketAction, MarketActionKind}
use shadowlend.Runtime.{Runtime}
use shadowlend.Interest.{accrue_market, accrue_position}
use shadowlend.Health.{no_totals, accumulate_position, accumulate_remaining, fresh_price}
use shadowlend.Instructions.Accounts.{ModifyPositionWithPrice, Modified, transfer, pay_out}

module _ (rt : Runtime) where
  unfoldable pub withdraw :
      ModifyPositionWithPrice rt → rt.Tokens → Clock → ℕ → Result (Modified rt.Tokens MarketAction)
  withdraw ctx tokens clock amount = do
    require (ltb 0 amount) MarketError.zero_amount
    let m = accrue_market ctx.market clock
    let p = accrue_position ctx.position m
    new_supplied ←
        ok_or (checked_sub p.supplied amount) (market MarketError.insufficient_collateral)
    cur_price ← fresh_price rt ctx.price_update clock m.feed_id
    totals ←
        accumulate_position new_supplied p.borrowed cur_price p.decimals p.max_ltv_bps no_totals
    totals' ← accumulate_remaining rt ctx.remaining_accounts ctx.user ctx.position_key clock totals
    require (leb totals'.debt totals'.collat_at_ltv) MarketError.would_be_unhealthy
    tokens' ← transfer rt tokens (pay_out ctx.base m) amount
    total ← ok_or (checked_sub m.total_supplied amount) (market MarketError.overflow)
    ok (record {
      market = record m { total_supplied = total };
      position = record p { supplied = new_supplied };
      tokens = tokens';
      event = record {
        user = ctx.user;
        mint = m.mint;
        kind = MarketActionKind.withdraw;
        supplied = new_supplied;
        borrowed = p.borrowed;
      };
    })
