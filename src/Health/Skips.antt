-- ===== src/Health/Skips.antt =====
-- About `accumulate_remaining` of programs/shadow-lend/src/lib.rs: the key to skip, and lists that
-- repeat pairs or leave pairs out.
use shadowlend.Prelude.{
  ◌+◌, ◌%◌, ◌==◌, ◌≤◌, ◌≡◌, refl, ap, ◌∙◌, sym, inl, inr, List, [], ◌∷◌, ◌++◌, arith, if◌then◌else◌,
  length, length-append,
}
use shadowlend.Machine.{clamp_u128}
use shadowlend.Machine.Laws.{clamp_u128-add_both, clamp_u128-add_right, clamp_u128_mono}
use shadowlend.Result.{ok, MarketError, >>=-eq-ok, >>-eq-ok, Result-cases, require}
use shadowlend.State.{Pubkey, Clock}
use shadowlend.Runtime.{Runtime, AccountInfo}
use shadowlend.Health.{
  Totals, no_totals, add_pair, walk, walk_skip, contains, accumulate_remaining,
  accumulate_remaining_skip,
}
use shadowlend.Health.Sums.{IsInRange, add_totals}
use shadowlend.Health.Walk.{
  sum_collat, sum_debt, sum_collat-append, sum_debt-append, clamped, contributions,
  contributions-append, contributions-split, accumulate_remaining_skip-clamped,
}

contains_one : (k key : Pubkey) → contains (k ∷ []) key ≡ (key == k)
unfolding contains
contains_one k key = ground arith

collat_omits :
    (front back : List Totals)
    → clamp_u128 (0 + sum_collat back) ≤ clamp_u128 (0 + sum_collat (front ++ back))
collat_omits front back =
    clamp_u128_mono (0 + sum_collat back) (0 + sum_collat (front ++ back))
      (omega (arith, sum_collat-append front back))

debt_omits :
    (front back : List Totals)
    → clamp_u128 (0 + sum_debt back) ≤ clamp_u128 (0 + sum_debt (front ++ back))
debt_omits front back =
    clamp_u128_mono (0 + sum_debt back) (0 + sum_debt (front ++ back))
      (omega (arith, sum_debt-append front back))

clamped-add_totals :
    (t : Totals) (cs : List Totals) → clamped t cs ≡ add_totals t (clamped no_totals cs)
clamped-add_totals t cs = ground (
  arith,
  clamp_u128-add_right t.collat_at_ltv (0 + sum_collat cs),
  clamp_u128-add_right t.debt (0 + sum_debt cs),
)

module _ (rt : Runtime) (user skip : Pubkey) (clock : Clock) where
  walk-walk_skip :
      (ras : List (AccountInfo rt)) (t : Totals)
      → walk rt user skip clock ras t ≡ walk_skip rt user (skip ∷ []) clock ras t
  unfolding walk walk_skip
  walk-walk_skip [] t = refl
  walk-walk_skip (pos_ai ∷ []) t = refl
  walk-walk_skip (pos_ai ∷ pu_ai ∷ ras) t =
      rw (contains_one skip pos_ai.key)
        (elim (Result-cases
          (if pos_ai.key == skip then ok t else add_pair rt user clock pos_ai pu_ai t)) [
            | inl (e, fails) ↦ rw fails
            | inr (t', adds) ↦ rw adds (walk-walk_skip ras t')
          ])

  -- For every list of accounts and totals, skipping a key gives the same result, errors included, as
  -- skipping the list of just that key.
  pub accumulate_remaining-accumulate_remaining_skip :
      (ras : List (AccountInfo rt)) (t : Totals)
      → accumulate_remaining rt ras user skip clock t
        ≡ accumulate_remaining_skip rt ras user (skip ∷ []) clock t
  unfolding accumulate_remaining accumulate_remaining_skip
  accumulate_remaining-accumulate_remaining_skip ras t = rw (walk-walk_skip ras t)

  -- What a success of `accumulate_remaining` says of the contributions.
  pub accumulate_remaining-inv :
      (ras : List (AccountInfo rt)) (t : Totals) {r : Totals}
      → IsInRange t
      → accumulate_remaining rt ras user skip clock t ≡ ok r
      → (cs : List Totals) × (contributions rt user (skip ∷ []) clock ras ≡ ok cs)
        × (length ras % 2 ≡ 0)
        × (r ≡ clamped t cs)
  accumulate_remaining-inv ras t h e =
      let e' =
        sym (accumulate_remaining_skip-clamped rt user (skip ∷ []) clock ras t h)
        ∙ sym (accumulate_remaining-accumulate_remaining_skip ras t)
        ∙ e in
      let (even, e'') =
        >>-eq-ok (require (length ras % 2 == 0) MarketError.bad_remaining_accounts) _ e' in
      let (cs, counts, last) = >>=-eq-ok (contributions rt user (skip ∷ []) clock ras) _ e'' in
      (cs, counts, ground (arith, even), ground (arith, last))

  pub accumulate_remaining_of :
      (ras : List (AccountInfo rt)) (t : Totals) {cs : List Totals}
      → IsInRange t
      → length ras % 2 ≡ 0
      → contributions rt user (skip ∷ []) clock ras ≡ ok cs
      → accumulate_remaining rt ras user skip clock t ≡ ok (clamped t cs)
  accumulate_remaining_of ras t h even e =
      accumulate_remaining-accumulate_remaining_skip ras t
      ∙ accumulate_remaining_skip-clamped rt user (skip ∷ []) clock ras t h
      ∙ rw e (ground arith)

  -- Listing the same accounts twice succeeds and counts every one of them twice.
  pub accumulate_remaining_twice :
      (ras : List (AccountInfo rt)) {once : Totals}
      → accumulate_remaining rt ras user skip clock no_totals ≡ ok once
      → accumulate_remaining rt (ras ++ ras) user skip clock no_totals ≡ ok (add_totals once once)
  accumulate_remaining_twice ras {once} e =
      let (cs, counts, even, is_once) = accumulate_remaining-inv ras no_totals (omega arith) e in
      accumulate_remaining_of (ras ++ ras) no_totals (omega arith)
        (omega (arith, length-append ras ras))
        (contributions-append rt user (skip ∷ []) clock ras ras counts counts)
      ∙ rw is_once (
          ground (
            arith,
            sum_collat-append cs cs,
            sum_debt-append cs cs,
            clamp_u128-add_both (0 + sum_collat cs) (0 + sum_collat cs),
            clamp_u128-add_both (0 + sum_debt cs) (0 + sum_debt cs),
          ))

  -- Where a list of accounts is accepted, so is the list without some whole pairs at its front, and
  -- neither total is higher: the program does not notice what is left out.
  pub accumulate_remaining_omits :
      (xs ys : List (AccountInfo rt)) {all : Totals}
      → length xs % 2 ≡ 0
      → accumulate_remaining rt (xs ++ ys) user skip clock no_totals ≡ ok all
      → (part : Totals) × (accumulate_remaining rt ys user skip clock no_totals ≡ ok part)
        × (part.collat_at_ltv ≤ all.collat_at_ltv)
        × (part.debt ≤ all.debt)
  accumulate_remaining_omits xs ys {all} paired e =
      let (cs, counts, even, is_all) =
        accumulate_remaining-inv (xs ++ ys) no_totals (omega arith) e in
      let (front, back, fronts, backs, apart) =
        contributions-split rt user (skip ∷ []) clock xs ys paired counts in
      (
        clamped no_totals back,
        accumulate_remaining_of ys no_totals (omega arith) (omega (arith, length-append xs ys))
            backs,
        rw (is_all, apart) (collat_omits front back),
        rw (is_all, apart) (debt_omits front back),
      )

  -- The totals to begin with add to what the accounts give on their own.
  pub accumulate_remaining_from :
      (ras : List (AccountInfo rt)) (t : Totals) {alone : Totals}
      → IsInRange t
      → accumulate_remaining rt ras user skip clock no_totals ≡ ok alone
      → accumulate_remaining rt ras user skip clock t ≡ ok (add_totals t alone)
  accumulate_remaining_from ras t {alone} h e =
      let (cs, counts, even, is_alone) = accumulate_remaining-inv ras no_totals (omega arith) e in
      accumulate_remaining_of ras t h even counts ∙ rw is_alone (ap ok (clamped-add_totals t cs))
