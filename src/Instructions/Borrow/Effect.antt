-- ===== src/Instructions/Borrow/Effect.antt =====
-- About `borrow` of programs/shadow-lend/src/lib.rs.
use shadowlend.Prelude.{ℕ, ◌+◌, ◌≤◌, ◌<◌, ◌≡◌, ◌≢◌, some, arith, ltb, leb, ◌==◌}
use shadowlend.Machine.{u64_max, checked_add}
use shadowlend.Result.{ok, err, market, MarketError, >>=-eq-ok, >>-eq-ok, require, ok_or}
use shadowlend.State.{Clock, MarketAction}
use shadowlend.Runtime.{Runtime, TransferLaws}
use shadowlend.Interest.{accrue_market, accrue_position}
use shadowlend.Health.{no_totals, accumulate_position, accumulate_remaining, fresh_price}
use shadowlend.Instructions.Accounts.{ModifyPositionWithPrice, Modified, transfer, pay_out}
use shadowlend.Instructions.Specs.{IsConserved, TracksDebt, user_totals, IsHealthy, accrued}
use shadowlend.Instructions.Borrow.{borrow}

module _ (rt : Runtime) (ctx : ModifyPositionWithPrice rt) (tokens : rt.Tokens) (clock : Clock)
    (amount : ℕ) where
  pub borrow_effect :
      {r : Modified rt.Tokens MarketAction}
      → borrow rt ctx tokens clock amount ≡ ok r
      → let m = accrue_market ctx.market clock in
        let p = accrue_position ctx.position m in
        (0 < amount)
        × (rt.transfer tokens (pay_out ctx.base m) amount ≡ some r.tokens)
        × (p.supplied ≡ 0)
        × (amount ≤ rt.balance tokens ctx.vault)
        × (p.borrowed + amount ≤ u64_max)
        × (m.total_borrowed + amount ≤ u64_max)
        × (r.position ≡ record p { borrowed = p.borrowed + amount })
        × (r.market ≡ record m { total_borrowed = m.total_borrowed + amount })
  unfolding borrow transfer checked_add
  borrow_effect e = ground arith

  -- After a successful loan the totals of the user, computed from the new position and the listed
  -- accounts, exist and the collateral at the limit covers the debt.
  pub borrow-IsHealthy :
      {r : Modified rt.Tokens MarketAction}
      → borrow rt ctx tokens clock amount ≡ ok r
      → IsHealthy rt ctx clock r.market.feed_id r.position
  unfolding borrow transfer checked_add user_totals
  borrow-IsHealthy {r} e =
      let m = accrue_market ctx.market clock in
      let p = accrue_position ctx.position m in
      let (_, e₁) = >>-eq-ok (require (ltb 0 amount) MarketError.zero_amount) _ e in
      let (_, e₂) = >>-eq-ok (require (p.supplied == 0) MarketError.same_mint_borrow) _ e₁ in
      let (owed, fits, e₃) =
        >>=-eq-ok (ok_or (checked_add p.borrowed amount) (market MarketError.overflow)) _ e₂ in
      let (_, e₄) =
        >>-eq-ok
          (require (leb amount (rt.balance tokens ctx.vault)) MarketError.insufficient_liquidity) _
          e₃ in
      let (price, priced, e₅) = >>=-eq-ok (fresh_price rt ctx.price_update clock m.feed_id) _ e₄ in
      let (own, owns, e₆) =
        >>=-eq-ok (accumulate_position p.supplied owed price p.decimals p.max_ltv_bps no_totals) _
          e₅ in
      let (t, sums, e₇) =
        >>=-eq-ok
          (accumulate_remaining rt ctx.remaining_accounts ctx.user ctx.position_key clock own) _
          e₆ in
      (t, ground arith, ground arith)

  -- After a successful loan to an account other than the vault, with a token program that keeps its
  -- laws, the vault gives up what the debt and the market's total gain, measured from the accrued
  -- accounts; the debt rises and the collateral stays.
  pub borrow-IsConserved :
      {r : Modified rt.Tokens MarketAction}
      → TransferLaws rt
      → ctx.vault ≢ ctx.user_ata
      → borrow rt ctx tokens clock amount ≡ ok r
      → let m = accrue_market ctx.market clock in
        let p = accrue_position ctx.position m in
        IsConserved (rt.balance tokens ctx.vault) p (rt.balance r.tokens ctx.vault) r.position
        × TracksDebt m p r.market r.position
        × (r.position.supplied ≡ p.supplied)
        × (p.borrowed < r.position.borrowed)
  unfolding pay_out
  borrow-IsConserved {r} laws apart e =
      let (some_amount, pays, bare, liquid, fits, total_fits, position, total) = borrow_effect e in
      let debited =
        laws.debits tokens r.tokens (pay_out ctx.base (accrue_market ctx.market clock)) amount pays
          apart in
      ground arith

  -- A user with collateral in the market cannot borrow from it.
  pub borrow_with_collateral :
      0 < amount
      → 0 < (accrued ctx.base clock).supplied
      → borrow rt ctx tokens clock amount ≡ err (market MarketError.same_mint_borrow)
  unfolding borrow
  borrow_with_collateral some_amount held = ground arith

  -- No loan exceeds what the vault holds.
  pub borrow_more_than_vault :
      0 < amount
      → (accrued ctx.base clock).supplied ≡ 0
      → (accrued ctx.base clock).borrowed + amount ≤ u64_max
      → rt.balance tokens ctx.vault < amount
      → borrow rt ctx tokens clock amount ≡ err (market MarketError.insufficient_liquidity)
  unfolding borrow checked_add
  borrow_more_than_vault some_amount bare fits dry = ground arith
