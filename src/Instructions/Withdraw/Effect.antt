-- ===== src/Instructions/Withdraw/Effect.antt =====
-- About `withdraw` of programs/shadow-lend/src/lib.rs.
use shadowlend.Prelude.{ℕ, ◌-◌, ◌≤◌, ◌<◌, ◌≡◌, ◌≢◌, some, arith, ltb}
use shadowlend.Machine.{checked_sub}
use shadowlend.Result.{ok, err, market, MarketError, >>=-eq-ok, >>-eq-ok, require, ok_or}
use shadowlend.State.{Clock, MarketAction}
use shadowlend.Runtime.{Runtime, TransferLaws}
use shadowlend.Interest.{accrue_market, accrue_position}
use shadowlend.Health.{no_totals, accumulate_position, accumulate_remaining, fresh_price}
use shadowlend.Instructions.Accounts.{ModifyPositionWithPrice, Modified, transfer, pay_out}
use shadowlend.Instructions.Specs.{IsConserved, TracksSupply, user_totals, IsHealthy, accrued}
use shadowlend.Instructions.Withdraw.{withdraw}

module _ (rt : Runtime) (ctx : ModifyPositionWithPrice rt) (tokens : rt.Tokens) (clock : Clock)
    (amount : ℕ) where
  pub withdraw_effect :
      {r : Modified rt.Tokens MarketAction}
      → withdraw rt ctx tokens clock amount ≡ ok r
      → let m = accrue_market ctx.market clock in
        let p = accrue_position ctx.position m in
        (0 < amount)
        × (rt.transfer tokens (pay_out ctx.base m) amount ≡ some r.tokens)
        × (amount ≤ p.supplied)
        × (amount ≤ m.total_supplied)
        × (r.position ≡ record p { supplied = p.supplied - amount })
        × (r.market ≡ record m { total_supplied = m.total_supplied - amount })
  unfolding withdraw transfer checked_sub
  withdraw_effect e = ground arith

  -- After a successful withdrawal the totals of the user, computed from the new position and the
  -- listed accounts, exist and the collateral at the limit covers the debt.
  pub withdraw-IsHealthy :
      {r : Modified rt.Tokens MarketAction}
      → withdraw rt ctx tokens clock amount ≡ ok r
      → IsHealthy rt ctx clock r.market.feed_id r.position
  unfolding withdraw transfer checked_sub user_totals
  withdraw-IsHealthy {r} e =
      let m = accrue_market ctx.market clock in
      let p = accrue_position ctx.position m in
      let (_, e₁) = >>-eq-ok (require (ltb 0 amount) MarketError.zero_amount) _ e in
      let (left, covers, e₂) =
        >>=-eq-ok
          (ok_or (checked_sub p.supplied amount) (market MarketError.insufficient_collateral)) _
          e₁ in
      let (price, priced, e₃) = >>=-eq-ok (fresh_price rt ctx.price_update clock m.feed_id) _ e₂ in
      let (own, owns, e₄) =
        >>=-eq-ok (accumulate_position left p.borrowed price p.decimals p.max_ltv_bps no_totals) _
          e₃ in
      let (t, sums, e₅) =
        >>=-eq-ok
          (accumulate_remaining rt ctx.remaining_accounts ctx.user ctx.position_key clock own) _
          e₄ in
      (t, ground arith, ground arith)

  -- After a successful withdrawal to an account other than the vault, with a token program that
  -- keeps its laws, the vault gives up what the position and the market's total lose, measured from
  -- the accrued accounts; the collateral falls and the debt stays.
  pub withdraw-IsConserved :
      {r : Modified rt.Tokens MarketAction}
      → TransferLaws rt
      → ctx.vault ≢ ctx.user_ata
      → withdraw rt ctx tokens clock amount ≡ ok r
      → let m = accrue_market ctx.market clock in
        let p = accrue_position ctx.position m in
        IsConserved (rt.balance tokens ctx.vault) p (rt.balance r.tokens ctx.vault) r.position
        × TracksSupply m p r.market r.position
        × (r.position.borrowed ≡ p.borrowed)
        × (r.position.supplied < p.supplied)
  unfolding pay_out
  withdraw-IsConserved {r} laws apart e =
      let (some_amount, pays, covered, total_covered, position, total) = withdraw_effect e in
      let debited =
        laws.debits tokens r.tokens (pay_out ctx.base (accrue_market ctx.market clock)) amount pays
          apart in
      ground arith

  -- More than the position holds is refused, whatever the prices are.
  pub withdraw_more_than_supplied :
      (accrued ctx.base clock).supplied < amount
      → withdraw rt ctx tokens clock amount ≡ err (market MarketError.insufficient_collateral)
  unfolding withdraw checked_sub
  withdraw_more_than_supplied more = ground arith
