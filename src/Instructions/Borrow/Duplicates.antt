-- ===== src/Instructions/Borrow/Duplicates.antt =====
-- About `borrow` of programs/shadow-lend/src/lib.rs on a list of accounts that repeats itself.
use shadowlend.Prelude.{ℕ, ◌+◌, ◌≤◌, ◌<◌, ◌≡◌, inl, inr, ◌++◌, ◌*◌, some, arith}
use shadowlend.Machine.{u64_max, checked_add}
use shadowlend.Result.{ok, err, market, MarketError, Result-cases}
use shadowlend.State.{Clock, MarketAction, Price}
use shadowlend.Runtime.{Runtime}
use shadowlend.Interest.{accrue_market}
use shadowlend.Health.{Totals, no_totals, accumulate_position, accumulate_remaining, fresh_price}
use shadowlend.Instructions.Accounts.{ModifyPositionWithPrice, Modified, transfer, pay_out}
use shadowlend.Instructions.Specs.{accrued}
use shadowlend.Instructions.Borrow.{borrow}
use shadowlend.Machine.{u128_max}
use shadowlend.Machine.Laws.{clamp_u128_exact}
use shadowlend.Health.Sums.{accumulate_position-IsInRange}
use shadowlend.Instructions.Borrow.Effect.{borrow_effect}
use shadowlend.Health.Skips.{accumulate_remaining_from, accumulate_remaining_twice}

module _ (rt : Runtime) (ctx : ModifyPositionWithPrice rt) (tokens : rt.Tokens) (clock : Clock)
    (amount : ℕ) where
  -- The same instruction with its remaining accounts listed twice.
  abbrev pub doubled : ModifyPositionWithPrice rt
  doubled = record ctx { remaining_accounts = ctx.remaining_accounts ++ ctx.remaining_accounts }

  -- For a loan of more than nothing to a user with no collateral in the loan's market, at a fresh price,
  -- that the vault's balance covers, whose transfer succeeds, and that takes neither the debt nor the
  -- market's total above a u64: where the position with the loan and the listed accounts together owe
  -- more than their collateral at the limits, but the position with the loan and twice the listed
  -- accounts, their debts doubled like their collateral, do not, and that sum of collateral fits a
  -- u128, the loan is refused for its limit with the accounts listed once, and is granted and paid out
  -- with the same accounts listed twice.
  pub borrow_with_duplicates :
      (price : Price) (own alone : Totals) (paid : rt.Tokens)
      → 0 < amount
      → (accrued ctx.base clock).supplied ≡ 0
      → (accrued ctx.base clock).borrowed + amount ≤ u64_max
      → (accrue_market ctx.market clock).total_borrowed + amount ≤ u64_max
      → amount ≤ rt.balance tokens ctx.vault
      → fresh_price rt ctx.price_update clock (accrue_market ctx.market clock).feed_id ≡ ok price
      → accumulate_position 0
          ((accrued ctx.base clock).borrowed + amount)
          price
          (accrued ctx.base clock).decimals
          (accrued ctx.base clock).max_ltv_bps
          no_totals
        ≡ ok own
      → accumulate_remaining rt ctx.remaining_accounts ctx.user ctx.position_key clock no_totals
        ≡ ok alone
      → own.collat_at_ltv + alone.collat_at_ltv < own.debt + alone.debt
      → own.debt + 2 * alone.debt ≤ own.collat_at_ltv + 2 * alone.collat_at_ltv
      → own.collat_at_ltv + 2 * alone.collat_at_ltv ≤ u128_max
      → rt.transfer tokens (pay_out ctx.base (accrue_market ctx.market clock)) amount ≡ some paid
      → (borrow rt ctx tokens clock amount ≡ err (market MarketError.exceeds_ltv))
        × ((r : Modified rt.Tokens MarketAction) × (borrow rt doubled tokens clock amount ≡ ok r)
            × (r.tokens ≡ paid))
  unfolding borrow checked_add transfer
  borrow_with_duplicates price own alone paid some_amount bare fits total_fits liquid priced owns
        sums over within small pays =
      let range = accumulate_position-IsInRange _ _ price _ _ no_totals owns in
      let once =
        accumulate_remaining_from rt ctx.user ctx.position_key clock ctx.remaining_accounts own
          range sums in
      let twice =
        accumulate_remaining_from rt ctx.user ctx.position_key clock
          (ctx.remaining_accounts ++ ctx.remaining_accounts) own range
          (accumulate_remaining_twice rt ctx.user ctx.position_key clock ctx.remaining_accounts
            sums) in
      let cap₁ = clamp_u128_exact (own.collat_at_ltv + alone.collat_at_ltv) (omega arith) in
      let debt₁ = clamp_u128_exact (own.debt + alone.debt) (omega arith) in
      let cap₂ = clamp_u128_exact (alone.collat_at_ltv + alone.collat_at_ltv) (omega arith) in
      let debt₂ = clamp_u128_exact (alone.debt + alone.debt) (omega arith) in
      let cap₃ =
        clamp_u128_exact (own.collat_at_ltv + (alone.collat_at_ltv + alone.collat_at_ltv))
          (omega arith) in
      let debt₃ = clamp_u128_exact (own.debt + (alone.debt + alone.debt)) (omega arith) in
      let owns' : accumulate_position (accrued ctx.base clock).supplied
            ((accrued ctx.base clock).borrowed + amount) price (accrued ctx.base clock).decimals
            (accrued ctx.base clock).max_ltv_bps no_totals
          ≡ ok own =
        rw bare owns in
      (
        ground (arith, once, cap₁, debt₁),
        elim (Result-cases (borrow rt doubled tokens clock amount)) [
          | inl (e, fails) ↦ absurd (ground (arith, twice, cap₂, debt₂, cap₃, debt₃))
          | inr (r, goes) ↦
              (r, goes, ground (arith, (borrow_effect rt doubled tokens clock amount goes).1))
        ],
      )
