-- ===== src/Health/Walk.antt =====
-- About the loop of `accumulate_remaining_skip` of programs/shadow-lend/src/lib.rs.
use shadowlend.Prelude.{
  ℕ, ◌+◌, ◌%◌, ◌==◌, ◌≡◌, refl, sym, ap, ◌∙◌, inl, inr, List, [], ◌∷◌, ◌++◌, arith, Bool-cases,
  if◌then◌else◌, length,
}
use shadowlend.Machine.{clamp_u128}
use shadowlend.Machine.Laws.{clamp_u128-add, clamp_u128-le, clamp_u128_exact}
use shadowlend.Result.{
  Result, ok, err, panic, MarketError, ◌>>=◌, ◌>>◌, require, >>=-eq-ok, >>-eq-ok, ok-inj,
  Result-cases,
}
use shadowlend.State.{Pubkey, Clock}
use shadowlend.Runtime.{Runtime, AccountInfo}
use shadowlend.Health.{Totals, no_totals, add_pair, walk_skip, contains, accumulate_remaining_skip}
use shadowlend.Health.Sums.{IsInRange, add_totals, add_pair-add}

-- The exact sums, of any size.
abbrev pub sum_collat : List Totals → ℕ
sum_collat [] = 0
sum_collat (c ∷ cs) = c.collat_at_ltv + sum_collat cs

abbrev pub sum_debt : List Totals → ℕ
sum_debt [] = 0
sum_debt (c ∷ cs) = c.debt + sum_debt cs

pub sum_collat-append :
    (cs ds : List Totals) → sum_collat (cs ++ ds) ≡ sum_collat cs + sum_collat ds
sum_collat-append [] ds = omega arith
sum_collat-append (c ∷ cs) ds = omega (arith, sum_collat-append cs ds)

pub sum_debt-append : (cs ds : List Totals) → sum_debt (cs ++ ds) ≡ sum_debt cs + sum_debt ds
sum_debt-append [] ds = omega arith
sum_debt-append (c ∷ cs) ds = omega (arith, sum_debt-append cs ds)

abbrev pub clamped : Totals → List Totals → Totals
clamped t cs = record {
  collat_at_ltv = clamp_u128 (t.collat_at_ltv + sum_collat cs);
  debt = clamp_u128 (t.debt + sum_debt cs);
}

clamped-step : (t c : Totals) (cs : List Totals) → clamped (add_totals t c) cs ≡ clamped t (c ∷ cs)
clamped-step t c cs = ground (
  arith,
  clamp_u128-add (t.collat_at_ltv + c.collat_at_ltv) (sum_collat cs),
  clamp_u128-add (t.debt + c.debt) (sum_debt cs),
)

regroup :
    (t c : Totals) (r : Result (List Totals))
    → (do cs ← r; ok (clamped (add_totals t c) cs))
      ≡ (do cs ← (do ds ← r; ok (c ∷ ds)); ok (clamped t cs))
regroup t c (ok cs) = ap ok (clamped-step t c cs)
regroup t c (err e) = refl

add_totals-IsInRange : (t c : Totals) → IsInRange (add_totals t c)
add_totals-IsInRange t c = record {
  collat_at_ltv = clamp_u128-le (t.collat_at_ltv + c.collat_at_ltv);
  debt = clamp_u128-le (t.debt + c.debt);
}

module _ (rt : Runtime) (user : Pubkey) (skip_keys : List Pubkey) (clock : Clock) where
  -- What the pairs that are not skipped contribute, each on its own.
  pub contributions : List (AccountInfo rt) → Result (List Totals)
  contributions [] = ok []
  contributions (pos_ai ∷ []) = err panic
  contributions (pos_ai ∷ pu_ai ∷ ras) =
      if contains skip_keys pos_ai.key
      then contributions ras
      else do c ← add_pair rt user clock pos_ai pu_ai no_totals; cs ← contributions ras; ok (c ∷ cs)

  walk_skip-clamped :
      (ras : List (AccountInfo rt)) (t : Totals)
      → IsInRange t
      → walk_skip rt user skip_keys clock ras t ≡ (do cs ← contributions ras; ok (clamped t cs))
  unfolding walk_skip contributions
  walk_skip-clamped [] t h = ground (
    arith,
    clamp_u128_exact (t.collat_at_ltv + 0) (omega (arith, h.collat_at_ltv)),
    clamp_u128_exact (t.debt + 0) (omega (arith, h.debt)),
  )
  walk_skip-clamped (pos_ai ∷ []) t h = refl
  walk_skip-clamped (pos_ai ∷ pu_ai ∷ ras) t h = elim (Bool-cases (contains skip_keys pos_ai.key)) [
    | inl skips ↦ rw skips (walk_skip-clamped ras t h)
    | inr counts ↦ rw counts (
        rw (add_pair-add rt user clock pos_ai pu_ai t h)
          (elim (Result-cases (add_pair rt user clock pos_ai pu_ai no_totals)) [
            | inl (e, fails) ↦ rw fails
            | inr (c, adds) ↦ rw adds (
                walk_skip-clamped ras (add_totals t c) (add_totals-IsInRange t c)
                ∙ regroup t c (contributions ras))
          ]))
  ]

  -- From totals in the range of a u128, the result is that of the contributions, each pair priced on
  -- its own: an odd list is refused, the first pair that fails gives its error, and otherwise the
  -- totals are the exact sums of all contributions, clamped once to a u128.
  pub accumulate_remaining_skip-clamped :
      (ras : List (AccountInfo rt)) (t : Totals)
      → IsInRange t
      → accumulate_remaining_skip rt ras user skip_keys clock t ≡ (do
        require (length ras % 2 == 0) MarketError.bad_remaining_accounts
        cs ← contributions ras
        ok (clamped t cs))
  unfolding accumulate_remaining_skip
  accumulate_remaining_skip-clamped ras t h = rw (walk_skip-clamped ras t h)

  -- Where the walk succeeds, it adds the contributions, clamped once.
  pub accumulate_remaining_skip-counts :
      (ras : List (AccountInfo rt)) (t : Totals) {r : Totals}
      → IsInRange t
      → accumulate_remaining_skip rt ras user skip_keys clock t ≡ ok r
      → (cs : List Totals) × (contributions ras ≡ ok cs) × (r ≡ clamped t cs)
  accumulate_remaining_skip-counts ras t h e =
      let by_parts = sym (accumulate_remaining_skip-clamped ras t h) ∙ e in
      let (_, e₁) =
        >>-eq-ok (require (length ras % 2 == 0) MarketError.bad_remaining_accounts) _ by_parts in
      let (cs, adds, e₂) = >>=-eq-ok (contributions ras) _ e₁ in (cs, adds, sym (ok-inj e₂))

  pub contributions-append :
      (xs ys : List (AccountInfo rt)) {cs ds : List Totals}
      → contributions xs ≡ ok cs
      → contributions ys ≡ ok ds
      → contributions (xs ++ ys) ≡ ok (cs ++ ds)
  unfolding contributions
  contributions-append [] ys e k = ground arith
  contributions-append (pos_ai ∷ []) ys e k = cc
  contributions-append (pos_ai ∷ pu_ai ∷ ras) ys e k =
      elim (Bool-cases (contains skip_keys pos_ai.key)) [
        | inl skips ↦ rw skips (contributions-append ras ys (rw skips at e) k)
        | inr counts ↦
            let e' = rw counts at e in
            let (c, adds, e'') = >>=-eq-ok (add_pair rt user clock pos_ai pu_ai no_totals) _ e' in
            let (cs, rest, last) = >>=-eq-ok (contributions ras) _ e'' in
            rw (counts, adds, contributions-append ras ys rest k) (ground arith)
      ]

  -- The contributions of a list whose front holds whole pairs come apart at the front.
  pub contributions-split :
      (xs ys : List (AccountInfo rt)) {all : List Totals}
      → length xs % 2 ≡ 0
      → contributions (xs ++ ys) ≡ ok all
      → (cs ds : List Totals) × (contributions xs ≡ ok cs)
        × (contributions ys ≡ ok ds)
        × (all ≡ cs ++ ds)
  unfolding contributions
  contributions-split [] ys {all} even e = ([], all, refl, e, refl)
  contributions-split (pos_ai ∷ []) ys even e = absurd (omega arith)
  contributions-split (pos_ai ∷ pu_ai ∷ ras) ys even e =
      elim (Bool-cases (contains skip_keys pos_ai.key)) [
        | inl skips ↦ rw skips (contributions-split ras ys (omega arith) (rw skips at e))
        | inr counts ↦
            let e' = rw counts at e in
            let (c, adds, e'') = >>=-eq-ok (add_pair rt user clock pos_ai pu_ai no_totals) _ e' in
            let (rest, later, last) = >>=-eq-ok (contributions (ras ++ ys)) _ e'' in
            let (cs, ds, front, back, apart) = contributions-split ras ys (omega arith) later in
            (c ∷ cs, ds, rw (counts, adds, front), back, ground arith)
      ]
