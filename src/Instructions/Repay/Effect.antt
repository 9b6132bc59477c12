-- ===== src/Instructions/Repay/Effect.antt =====
-- About `repay` of programs/shadow-lend/src/lib.rs.
use shadowlend.Prelude.{ℕ, ◌+◌, ◌-◌, ◌≤◌, ◌<◌, ◌≡◌, ◌≢◌, ◌⊎◌, inl, inr, some, arith, min}
use shadowlend.Result.{ok, Result-cases}
use shadowlend.State.{Clock, MarketAction}
use shadowlend.Runtime.{Runtime, TransferLaws}
use shadowlend.Interest.{accrue_market, accrue_position}
use shadowlend.Instructions.Accounts.{ModifyPosition, Modified, transfer, pay_in}
use shadowlend.Instructions.Specs.{IsConserved, TracksDebt, accrued}
use shadowlend.Instructions.Repay.{repay}

module _ (rt : Runtime) (ctx : ModifyPosition) (tokens : rt.Tokens) (clock : Clock)
    (amount : ℕ) where
  pub repay_effect :
      {r : Modified rt.Tokens MarketAction}
      → repay rt ctx tokens clock amount ≡ ok r
      → let m = accrue_market ctx.market clock in
        let p = accrue_position ctx.position m in
        let pay = min amount p.borrowed in
        (0 < pay)
        × (rt.transfer tokens (pay_in ctx) pay ≡ some r.tokens)
        × (r.position ≡ record p { borrowed = p.borrowed - pay })
        × (r.market ≡ record m { total_borrowed = m.total_borrowed - pay })
  unfolding repay transfer
  repay_effect e = ground arith

  -- After a successful repayment from an account other than the vault, with a token program that
  -- keeps its laws, the vault gains what the debt loses, measured from the accrued position: more
  -- than nothing and at most the amount offered. The collateral stays, and the market's total falls
  -- by as much or to nothing.
  pub repay-IsConserved :
      {r : Modified rt.Tokens MarketAction}
      → TransferLaws rt
      → ctx.user_ata ≢ ctx.vault
      → repay rt ctx tokens clock amount ≡ ok r
      → let m = accrue_market ctx.market clock in
        let p = accrue_position ctx.position m in
        IsConserved (rt.balance tokens ctx.vault) p (rt.balance r.tokens ctx.vault) r.position
        × (r.position.supplied ≡ p.supplied)
        × (r.position.borrowed < p.borrowed)
        × (p.borrowed ≤ r.position.borrowed + amount)
        × ((r.market.total_borrowed ≡ 0) ⊎ TracksDebt m p r.market r.position)
  unfolding pay_in
  repay-IsConserved {r} laws apart e =
      let (some_pay, pays, position, total) = repay_effect e in
      let m = accrue_market ctx.market clock in
      let p = accrue_position ctx.position m in
      let credited = laws.credits tokens r.tokens (pay_in ctx) (min amount p.borrowed) pays apart in
      ground arith

  -- An offer of at least the accrued debt, which is not nothing, leaves no debt, if the transfer of
  -- just that debt succeeds.
  pub repay_in_full :
      {paid : rt.Tokens}
      → 0 < (accrued ctx clock).borrowed
      → (accrued ctx clock).borrowed ≤ amount
      → rt.transfer tokens (pay_in ctx) (accrued ctx clock).borrowed ≡ some paid
      → (r : Modified rt.Tokens MarketAction) × (repay rt ctx tokens clock amount ≡ ok r)
        × (r.position.borrowed ≡ 0)
        × (r.tokens ≡ paid)
  unfolding repay transfer
  repay_in_full {paid} owed enough pays =
      let whole : min amount (accrued ctx clock).borrowed ≡ (accrued ctx clock).borrowed =
        omega arith in
      let pays' : rt.transfer tokens (pay_in ctx) (min amount (accrued ctx clock).borrowed)
          ≡ some paid =
        rw whole pays in
      elim (Result-cases (repay rt ctx tokens clock amount)) [
        | inl (e, fails) ↦ absurd (ground arith)
        | inr (r, goes) ↦
            (r, goes, ground (arith, repay_effect goes), ground (arith, repay_effect goes))
      ]
