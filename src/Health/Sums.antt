-- ===== src/Health/Sums.antt =====
-- About the running totals of programs/shadow-lend/src/lib.rs: `accumulate_position` and one round of
-- the walk over the remaining accounts.
use shadowlend.Prelude.{ℕ, ◌+◌, ◌≤◌, ◌≡◌, inl, inr, arith, Option, none, some}
use shadowlend.Machine.{u128_max, clamp_u128, saturating_add, saturating_mul}
use shadowlend.Machine.Laws.{clamp_u128_exact, saturating_mul-le, saturating_add-le}
use shadowlend.Machine.Division.{div-le_self}
use shadowlend.Result.{ok, ◌>>=◌, >>=-eq-ok, Result-cases}
use shadowlend.State.{Pubkey, Price, Position, Clock, bps_denominator}
use shadowlend.Runtime.{Runtime, AccountInfo}
use shadowlend.Pricing.{token_usd_8dp}
use shadowlend.Pricing.Value.{token_usd_8dp-le}
use shadowlend.Health.{
  Totals, no_totals, at_ltv, accumulate_position, add_found, add_pair, read_pair,
}

-- Totals that lie in the range of a u128.
pub record IsInRange (t : Totals) : Type 0 where
  pub collat_at_ltv : t.collat_at_ltv ≤ u128_max
  pub debt : t.debt ≤ u128_max

-- The sum of two totals, each side clamped to a u128.
abbrev pub add_totals : Totals → Totals → Totals
add_totals t c = record {
  collat_at_ltv = clamp_u128 (t.collat_at_ltv + c.collat_at_ltv);
  debt = clamp_u128 (t.debt + c.debt);
}

pub add_totals-no_totals : (t : Totals) → IsInRange t → add_totals t no_totals ≡ t
add_totals-no_totals t h = ground (
  arith,
  clamp_u128_exact (t.collat_at_ltv + 0) (omega (arith, h.collat_at_ltv)),
  clamp_u128_exact (t.debt + 0) (omega (arith, h.debt)),
)

at_ltv-le : (collat ltv : ℕ) → at_ltv collat ltv ≤ u128_max
unfolding at_ltv
at_ltv-le collat ltv =
    omega
      (arith, div-le_self (saturating_mul collat ltv) bps_denominator, saturating_mul-le collat ltv)

pub accumulate_position-add :
    (supplied borrowed : ℕ) (price : Price) (decimals ltv : ℕ) (t : Totals)
    → accumulate_position supplied borrowed price decimals ltv t ≡ (do
      c ← accumulate_position supplied borrowed price decimals ltv no_totals
      ok (add_totals t c))
unfolding accumulate_position saturating_add
accumulate_position-add supplied borrowed price decimals ltv t =
    elim (Result-cases (token_usd_8dp supplied price decimals)) [
      | inl (e, fails) ↦ rw fails
      | inr (v, priced) ↦ rw priced (elim (Result-cases (token_usd_8dp borrowed price decimals)) [
        | inl (e, fails) ↦ rw fails
        | inr (w, owed) ↦ rw owed (
            ground (
              arith,
              at_ltv-le v ltv,
              token_usd_8dp-le borrowed price decimals owed,
              clamp_u128_exact (0 + at_ltv v ltv),
              clamp_u128_exact (0 + w),
            ))
      ])
    ]

pub accumulate_position-IsInRange :
    (supplied borrowed : ℕ) (price : Price) (decimals ltv : ℕ) (t : Totals) {t' : Totals}
    → accumulate_position supplied borrowed price decimals ltv t ≡ ok t'
    → IsInRange t'
unfolding accumulate_position
accumulate_position-IsInRange supplied borrowed price decimals ltv t e =
    let (v, priced, e') = >>=-eq-ok (token_usd_8dp supplied price decimals) _ e in
    let (w, owed, e'') = >>=-eq-ok (token_usd_8dp borrowed price decimals) _ e' in
    ground (arith, saturating_add-le t.collat_at_ltv (at_ltv v ltv), saturating_add-le t.debt w)

add_found-add :
    (found : Option (Position × Price)) (t : Totals)
    → IsInRange t
    → add_found found t ≡ (do c ← add_found found no_totals; ok (add_totals t c))
unfolding add_found
add_found-add none t h = rw (add_totals-no_totals t h)
add_found-add (some (pos, price)) t h =
    accumulate_position-add pos.supplied pos.borrowed price pos.decimals pos.max_ltv_bps t

add_found-IsInRange :
    (found : Option (Position × Price)) (t : Totals) {t' : Totals}
    → IsInRange t
    → add_found found t ≡ ok t'
    → IsInRange t'
unfolding add_found
add_found-IsInRange none t h e = ground arith
add_found-IsInRange (some (pos, price)) t h e =
    accumulate_position-IsInRange pos.supplied pos.borrowed price pos.decimals pos.max_ltv_bps t e

module _ (rt : Runtime) (user : Pubkey) (clock : Clock) (pos_ai pu_ai : AccountInfo rt) where
  -- A pair adds its contribution, whatever the totals are, and fails whatever they are.
  pub add_pair-add :
      (t : Totals)
      → IsInRange t
      → add_pair rt user clock pos_ai pu_ai t
        ≡ (do c ← add_pair rt user clock pos_ai pu_ai no_totals; ok (add_totals t c))
  unfolding add_pair
  add_pair-add t h = elim (Result-cases (read_pair rt user clock pos_ai pu_ai)) [
    | inl (e, fails) ↦ rw fails
    | inr (found, reads) ↦ rw reads (add_found-add found t h)
  ]

  pub add_pair-IsInRange :
      (t : Totals) {t' : Totals}
      → IsInRange t
      → add_pair rt user clock pos_ai pu_ai t ≡ ok t'
      → IsInRange t'
  unfolding add_pair
  add_pair-IsInRange t h e =
      let (found, reads, e') = >>=-eq-ok (read_pair rt user clock pos_ai pu_ai) _ e in
      add_found-IsInRange found t h e'
