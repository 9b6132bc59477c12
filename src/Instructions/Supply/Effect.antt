-- ===== src/Instructions/Supply/Effect.antt =====
-- About `supply` of programs/shadow-lend/src/lib.rs.
use shadowlend.Prelude.{ℕ, ◌+◌, ◌≤◌, ◌<◌, ◌≡◌, ◌≢◌, inl, inr, some, arith}
use shadowlend.Machine.{u64_max, checked_add}
use shadowlend.Result.{ok, Result-cases}
use shadowlend.State.{Clock, MarketAction}
use shadowlend.Runtime.{Runtime, TransferLaws}
use shadowlend.Interest.{accrue_market}
use shadowlend.Instructions.Accounts.{ModifyPosition, Modified, transfer, pay_in}
use shadowlend.Instructions.Specs.{IsConserved, TracksSupply}
use shadowlend.Instructions.Supply.{open_or_accrue, supply}

module _ (rt : Runtime) (ctx : ModifyPosition) (tokens : rt.Tokens) (clock : Clock)
    (amount : ℕ) where
  pub supply_effect :
      {r : Modified rt.Tokens MarketAction}
      → supply rt ctx tokens clock amount ≡ ok r
      → let m = accrue_market ctx.market clock in
        let p = open_or_accrue ctx m in
        (0 < amount)
        × (rt.transfer tokens (pay_in ctx) amount ≡ some r.tokens)
        × (p.supplied + amount ≤ u64_max)
        × (m.total_supplied + amount ≤ u64_max)
        × (r.position ≡ record p { supplied = p.supplied + amount })
        × (r.market ≡ record m { total_supplied = m.total_supplied + amount })
  unfolding supply transfer checked_add
  supply_effect e = ground arith

  -- After a successful supply from an account other than the vault, with a token program that keeps
  -- its laws, the vault gains what the position and the market's total gain, measured from the
  -- accrued accounts; the collateral rises and the debt stays.
  pub supply-IsConserved :
      {r : Modified rt.Tokens MarketAction}
      → TransferLaws rt
      → ctx.user_ata ≢ ctx.vault
      → supply rt ctx tokens clock amount ≡ ok r
      → let m = accrue_market ctx.market clock in
        let p = open_or_accrue ctx m in
        IsConserved (rt.balance tokens ctx.vault) p (rt.balance r.tokens ctx.vault) r.position
        × TracksSupply m p r.market r.position
        × (r.position.borrowed ≡ p.borrowed)
        × (p.supplied < r.position.supplied)
  unfolding pay_in
  supply-IsConserved {r} laws apart e =
      let (some_amount, pays, fits, total_fits, position, total) = supply_effect e in
      let credited = laws.credits tokens r.tokens (pay_in ctx) amount pays apart in ground arith

  -- A supply of a positive amount, whose transfer succeeds and that takes neither the position nor
  -- the market's total above a u64, succeeds.
  pub supply_succeeds :
      {paid : rt.Tokens}
      → 0 < amount
      → rt.transfer tokens (pay_in ctx) amount ≡ some paid
      → (open_or_accrue ctx (accrue_market ctx.market clock)).supplied + amount ≤ u64_max
      → (accrue_market ctx.market clock).total_supplied + amount ≤ u64_max
      → (r : Modified rt.Tokens MarketAction) × (supply rt ctx tokens clock amount ≡ ok r)
  unfolding supply transfer checked_add
  supply_succeeds {paid} some_amount pays fits total_fits =
      elim (Result-cases (supply rt ctx tokens clock amount)) [
        | inl (e, fails) ↦ absurd (ground arith)
        | inr (r, goes) ↦ (r, goes)
      ]
