-- ===== src/Instructions/Supply.antt =====
-- `supply` of programs/shadow-lend/src/lib.rs.
pub mod Effect
use shadowlend.Prelude.{ℕ, ◌==◌, ltb, if◌then◌else◌}
use shadowlend.Machine.{checked_add}
use shadowlend.Result.{Result, ok, market, MarketError, ◌>>=◌, ◌>>◌, require, ok_or}
use shadowlend.State.{
  Market, Position, Clock, MarketAction, MarketActionKind, default_key, mint_decimals,
}
use shadowlend.Runtime.{Runtime}
use shadowlend.Interest.{accrue_market, accrue_position}
use shadowlend.Instructions.Accounts.{ModifyPosition, Modified, transfer, pay_in}

-- A position that was just created is filled from its market; any other is accrued.
unfoldable pub open_or_accrue : ModifyPosition → Market → Position
open_or_accrue ctx m =
    if ctx.position.user == default_key
    then record ctx.position {
      user = ctx.user;
      market = ctx.market_key;
      bump = ctx.position_bump;
      feed_id = m.feed_id;
      max_ltv_bps = m.max_ltv_bps;
      decimals = mint_decimals;
      borrow_index_snapshot_e18 = m.borrow_index_e18;
    }
    else accrue_position ctx.position m

module _ (rt : Runtime) where
  unfoldable pub supply :
      ModifyPosition → rt.Tokens → Clock → ℕ → Result (Modified rt.Tokens MarketAction)
  supply ctx tokens clock amount = do
    require (ltb 0 amount) MarketError.zero_amount
    let m = accrue_market ctx.market clock
    let p = open_or_accrue ctx m
    tokens' ← transfer rt tokens (pay_in ctx) amount
    supplied ← ok_or (checked_add p.supplied amount) (market MarketError.overflow)
    total ← ok_or (checked_add m.total_supplied amount) (market MarketError.overflow)
    ok (record {
      market = record m { total_supplied = total };
      position = record p { supplied = supplied };
      tokens = tokens';
      event = record {
        user = ctx.user;
        mint = m.mint;
        kind = MarketActionKind.supply;
        supplied = supplied;
        borrowed = p.borrowed;
      };
    })
