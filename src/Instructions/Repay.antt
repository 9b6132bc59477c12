-- ===== src/Instructions/Repay.antt =====
-- `repay` of programs/shadow-lend/src/lib.rs.
pub mod Effect
use shadowlend.Prelude.{ℕ, ltb, min}
use shadowlend.Machine.{saturating_sub}
use shadowlend.Result.{Result, ok, MarketError, ◌>>=◌, ◌>>◌, require}
use shadowlend.State.{Clock, MarketAction, MarketActionKind}
use shadowlend.Runtime.{Runtime}
use shadowlend.Interest.{accrue_market, accrue_position}
use shadowlend.Instructions.Accounts.{ModifyPosition, Modified, transfer, pay_in}

module _ (rt : Runtime) where
  unfoldable pub repay :
      ModifyPosition → rt.Tokens → Clock → ℕ → Result (Modified rt.Tokens MarketAction)
  unfolding saturating_sub
  repay ctx tokens clock amount = do
    require (ltb 0 amount) MarketError.zero_amount
    let m = accrue_market ctx.market clock
    let p = accrue_position ctx.position m
    let pay = min amount p.borrowed
    require (ltb 0 pay) MarketError.nothing_to_repay
    tokens' ← transfer rt tokens (pay_in ctx) pay
    let left = saturating_sub p.borrowed pay
    ok (record {
      market = record m { total_borrowed = saturating_sub m.total_borrowed pay };
      position = record p { borrowed = left };
      tokens = tokens';
      event = record {
        user = ctx.user;
        mint = m.mint;
        kind = MarketActionKind.repay;
        supplied = p.supplied;
        borrowed = left;
      };
    })
