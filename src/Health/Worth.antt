-- ===== src/Health/Worth.antt =====
-- About `accumulate_position` of programs/shadow-lend/src/lib.rs: what one position counts at a price.
use shadowlend.Prelude.{ℕ, ◌≡◌, refl, arith}
use shadowlend.Machine.{saturating_add}
use shadowlend.Result.{ok, >>=-eq-ok}
use shadowlend.State.{Position, Price}
use shadowlend.Pricing.{token_usd_8dp}
use shadowlend.Health.{Totals, at_ltv, accumulate_position}

module _ (price : Price) (p : Position) where
  -- What a position counts at a price: its collateral at its limit, and its debt.
  pub record IsWorth (collat owed : ℕ) : Type 0 where
    pub held : ℕ
    pub holds : token_usd_8dp p.supplied price p.decimals ≡ ok held
    pub limited : collat ≡ at_ltv held p.max_ltv_bps
    pub owes : token_usd_8dp p.borrowed price p.decimals ≡ ok owed

  pub accumulate_position-IsWorth :
      (t : Totals) {t' : Totals}
      → accumulate_position p.supplied p.borrowed price p.decimals p.max_ltv_bps t ≡ ok t'
      → (collat owed : ℕ) × IsWorth collat owed
        × (t' ≡ record {
          collat_at_ltv = saturating_add t.collat_at_ltv collat;
          debt = saturating_add t.debt owed;
        })
  unfolding accumulate_position
  accumulate_position-IsWorth t e =
      let (held, holds, e₁) = >>=-eq-ok (token_usd_8dp p.supplied price p.decimals) _ e in
      let (owed, owes, e₂) = >>=-eq-ok (token_usd_8dp p.borrowed price p.decimals) _ e₁ in
      (
        at_ltv held p.max_ltv_bps,
        owed,
        record { held = held; holds = holds; limited = refl; owes = owes },
        ground arith,
      )
