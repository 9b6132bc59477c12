-- ===== src/Ledger/Solvency/Moves.antt =====
-- What `liquidate` of programs/shadow-lend/src/lib.rs moves between the accounts and the books.
use mathlib.Core.Option.{some-injective}
use shadowlend.Prelude.{ℕ, ◌-◌, ◌≤◌, ◌≡◌, refl, ap, sym, ◌∙◌, inl, inr, some, arith}
use shadowlend.Result.{ok}
use shadowlend.State.{Pubkey, Market, Position, Clock}
use shadowlend.Runtime.{Runtime}
use shadowlend.Interest.{accrue_market, accrue_position}
use shadowlend.Instructions.Liquidate.{
  Liquidate, Liquidated, liquidator_pays, vault_releases, liquidate,
}
use shadowlend.Instructions.Liquidate.Effect.{liquidate_run, settle_effect, seize_for-le}
use shadowlend.Ledger.{Addresses, AddressLaws, Store, put, market_seed, position_seed}
use shadowlend.Ledger.Books.{supplied_in}
use shadowlend.Ledger.Sound.{put_here, put_elsewhere, eq_or_ne, market_seed-inj, position_seed-inj}
use shadowlend.Ledger.Solvency.Users.{accrue_market_totals, accrue_position_supplied}

module _ (rt : Runtime) (ctx : Liquidate rt) (tokens : rt.Tokens) (clock : Clock) (amount : ℕ)
    {r : Liquidated rt.Tokens} where
  -- The transfers of a liquidation, and what it does to the totals and the deposits.
  pub liquidate_moves :
      liquidate rt ctx tokens clock amount ≡ ok r
      → (paid : rt.Tokens) × (rt.transfer tokens (liquidator_pays rt ctx) r.event.repaid
          ≡ some paid)
        × (rt.transfer paid (vault_releases rt ctx) r.event.seized ≡ some r.tokens)
        × (r.debt_position.supplied ≡ ctx.debt_position.supplied)
        × (r.debt_market.total_supplied ≡ ctx.debt_market.total_supplied)
        × (r.debt_market.total_borrowed ≡ ctx.debt_market.total_borrowed - r.event.repaid)
        × (r.event.seized ≤ ctx.collateral_position.supplied)
        × (r.collateral_position.supplied ≡ ctx.collateral_position.supplied - r.event.seized)
        × (r.collateral_market.total_supplied
            ≡ ctx.collateral_market.total_supplied - r.event.seized)
        × (r.collateral_market.total_borrowed ≡ ctx.collateral_market.total_borrowed)
  liquidate_moves e =
      let (debt_price, collat_price, _, _, _, _, _, _, _, settles) =
        liquidate_run rt ctx clock tokens amount e in
      let (paid, _, seizes, _, _, pays, releases, dp_is, cp_is, dm_is, cm_is) =
        settle_effect rt ctx _ _ _ _ debt_price collat_price tokens amount settles in
      let dm = accrue_market ctx.debt_market clock in
      let cm = accrue_market ctx.collateral_market clock in
      let dp = accrue_position ctx.debt_position dm in
      let cp = accrue_position ctx.collateral_position cm in
      let (_, _, _, _, capped) =
        seize_for-le r.event.repaid debt_price dp.decimals collat_price cp.decimals cp.supplied
          seizes in
      let dm_same = accrue_market_totals ctx.debt_market clock in
      let cm_same = accrue_market_totals ctx.collateral_market clock in
      let dp_same = accrue_position_supplied ctx.debt_position dm in
      let cp_same = accrue_position_supplied ctx.collateral_position cm in
      (
        paid,
        pays,
        releases,
        ap (λ (q : Position). q.supplied) dp_is ∙ dp_same,
        ap (λ (q : Market). q.total_supplied) dm_is ∙ dm_same.0,
        omega (arith, ap (λ (q : Market). q.total_borrowed) dm_is, dm_same),
        omega (arith, capped, cp_same),
        omega (arith, ap (λ (q : Position). q.supplied) cp_is, cp_same),
        omega (arith, ap (λ (q : Market). q.total_supplied) cm_is, cm_same),
        ap (λ (q : Market). q.total_borrowed) cm_is ∙ cm_same.1,
      )

-- The market and the deposit that stand at the collateral's addresses after the debt's are written.
pub after_debt :
    (rt : Runtime) (ad : Addresses rt) (laws : AddressLaws rt ad) (M : Store Market)
    (P : Store Position) (user dmint cmint : Pubkey) {dm cm : Market} (dm' : Market)
    {dp cp : Position} (dp' : Position)
    → (M (ad.find (market_seed dmint)) ≡ some dm) × (M (ad.find (market_seed cmint)) ≡ some cm)
    → (P (ad.find (position_seed user dmint)) ≡ some dp)
      × (P (ad.find (position_seed user cmint)) ≡ some cp)
    → (dm'.total_supplied ≡ dm.total_supplied) × (dm'.total_borrowed ≤ dm.total_borrowed)
    → dp'.supplied ≡ dp.supplied
    → (x : Market) × (put M (ad.find (market_seed dmint)) dm' (ad.find (market_seed cmint))
        ≡ some x)
      × (x.total_supplied ≡ cm.total_supplied)
      × (x.total_borrowed ≤ cm.total_borrowed)
      × (supplied_in
            (put P (ad.find (position_seed user dmint)) dp' (ad.find (position_seed user cmint)))
          ≡ cp.supplied)
after_debt rt ad laws M P user dmint cmint {dm} {cm} dm' {dp} {cp} dp' (dm_at, cm_at) (dp_at, cp_at)
      (same, less) kept =
    let dk = ad.find (market_seed dmint) in
    let pk = ad.find (position_seed user dmint) in
    elim (eq_or_ne cmint dmint) [
      | inl one ↦
          let markets : dm ≡ cm = some-injective _ _ (sym dm_at ∙ rw one at cm_at) in
          let positions : dp ≡ cp = some-injective _ _ (sym dp_at ∙ rw one at cp_at) in
          (
            dm',
            rw one (put_here M dk dm'),
            same ∙ ap (λ (q : Market). q.total_supplied) markets,
            omega (arith, ap (λ (q : Market). q.total_borrowed) markets),
            rw one (ap supplied_in (put_here P pk dp'))
                ∙ kept
                ∙ ap (λ (q : Position). q.supplied) positions,
          )
      | inr apart ↦ (
        cm,
        put_elsewhere M dk dm' _ (λ e. apart (market_seed-inj (laws.find_injective _ _ e))) ∙ cm_at,
        refl,
        omega arith,
        ap supplied_in (
            put_elsewhere P pk dp' _ (λ e. apart (position_seed-inj (laws.find_injective _ _ e)).1)
            ∙ cp_at),
      )
    ]
