-- ===== src/Health/Order.antt =====
-- About the order of the accounts that `accumulate_remaining_skip` of
-- programs/shadow-lend/src/lib.rs walks.
use mathlib.Core.List.{Permᴰ}
use shadowlend.Prelude.{◌%◌, ◌==◌, ◌≡◌, refl, sym, ap, ◌∙◌, List, [], ◌∷◌, ◌++◌, arith, length}
use shadowlend.Result.{ok, MarketError, >>=-eq-ok, >>-eq-ok, require}
use shadowlend.State.{Pubkey, Clock}
use shadowlend.Runtime.{Runtime, AccountInfo}
use shadowlend.Health.{Totals, accumulate_remaining_skip}
use shadowlend.Health.Sums.{IsInRange}
use shadowlend.Health.Walk.{
  contributions, contributions-append, contributions-split, sum_collat, sum_debt, sum_collat-append,
  sum_debt-append, accumulate_remaining_skip-clamped,
}

module _ (rt : Runtime) where
  abbrev pub Pair : Type 0
  Pair = AccountInfo rt × AccountInfo rt

  -- The accounts of some pairs, one after the other.
  abbrev pub flatten : List Pair → List (AccountInfo rt)
  flatten [] = []
  flatten ((pos_ai, pu_ai) ∷ ps) = pos_ai ∷ pu_ai ∷ flatten ps

  length-flatten : (ps : List Pair) → length (flatten ps) % 2 ≡ 0
  length-flatten [] = refl
  length-flatten ((pos_ai, pu_ai) ∷ ps) = omega (arith, length-flatten ps)

  module _ (user : Pubkey) (skip_keys : List Pubkey) (clock : Clock) where
    abbrev Adds : List Pair → List Totals → Type 0
    Adds ps cs = contributions rt user skip_keys clock (flatten ps) ≡ ok cs

    -- The first pair's contributions and the others'.
    Adds-cons :
        (p : Pair) (ps : List Pair) {cs : List Totals}
        → Adds (p ∷ ps) cs
        → (own rest : List Totals) × Adds (p ∷ []) own × Adds ps rest × (cs ≡ own ++ rest)
    Adds-cons (pos_ai, pu_ai) ps e =
        contributions-split rt user skip_keys clock (pos_ai ∷ pu_ai ∷ []) (flatten ps) refl e

    cons-Adds :
        (p : Pair) (ps : List Pair) {own rest : List Totals}
        → Adds (p ∷ []) own
        → Adds ps rest
        → Adds (p ∷ ps) (own ++ rest)
    cons-Adds (pos_ai, pu_ai) ps e k =
        contributions-append rt user skip_keys clock (pos_ai ∷ pu_ai ∷ []) (flatten ps) e k

    -- The same sums.
    abbrev Same : List Totals → List Totals → Type 0
    Same cs ds = (sum_collat cs ≡ sum_collat ds) × (sum_debt cs ≡ sum_debt ds)

    perm-Adds :
        {ps qs : List Pair} {cs : List Totals}
        → Permᴰ ps qs
        → Adds ps cs
        → (ds : List Totals) × Adds qs ds × Same cs ds
    perm-Adds {cs = cs} Permᴰ.nil e = (cs, e, (refl, refl))
    perm-Adds {cs = cs} (Permᴰ.cons {a = p} {b = q} {l₁ = ps} {l₂ = qs} same perm) e =
        let (own, rest, first, others, apart) = Adds-cons p ps e in
        let (ds, adds, (collat, debt)) = perm-Adds perm others in
        (
          own ++ ds,
          cons-Adds q qs (rw same at first) adds,
          (
            omega (
              arith,
              ap sum_collat apart,
              sum_collat-append own rest,
              sum_collat-append own ds,
              collat,
            ),
            omega
                (arith, ap sum_debt apart, sum_debt-append own rest, sum_debt-append own ds, debt),
          ),
        )
    perm-Adds {cs = cs} (Permᴰ.swap {a = p} {b = q} {a' = q'} {b' = p'} {l = ps} same same') e =
        let (one, rest, first, others, apart) = Adds-cons p (q ∷ ps) e in
        let (two, last, second, remaining, apart') = Adds-cons q ps others in
        (
          two ++ (one ++ last),
          cons-Adds q' (p' ∷ ps) (rw same' at second)
              (cons-Adds p' ps (rw same at first) remaining),
          (
            omega (
              arith,
              ap sum_collat apart,
              ap sum_collat apart',
              sum_collat-append one rest,
              sum_collat-append two last,
              sum_collat-append two (one ++ last),
              sum_collat-append one last,
            ),
            omega (
              arith,
              ap sum_debt apart,
              ap sum_debt apart',
              sum_debt-append one rest,
              sum_debt-append two last,
              sum_debt-append two (one ++ last),
              sum_debt-append one last,
            ),
          ),
        )
    perm-Adds (Permᴰ.trans one two) e =
        let (ds, adds, (collat, debt)) = perm-Adds one e in
        let (es, adds', (collat', debt')) = perm-Adds two adds in
        (es, adds', (collat ∙ collat', debt ∙ debt'))

    -- From totals in the range of a u128, where the walk over some pairs of accounts gives totals,
    -- the walk over the same pairs in any other order gives the same totals.
    pub accumulate_remaining_skip_perm :
        (ps qs : List Pair) (t : Totals) {r : Totals}
        → IsInRange t
        → Permᴰ ps qs
        → accumulate_remaining_skip rt (flatten ps) user skip_keys clock t ≡ ok r
        → accumulate_remaining_skip rt (flatten qs) user skip_keys clock t ≡ ok r
    accumulate_remaining_skip_perm ps qs t h perm e =
        let by_parts =
          sym (accumulate_remaining_skip-clamped rt user skip_keys clock (flatten ps) t h) ∙ e in
        let (_, e₁) =
          >>-eq-ok (require (length (flatten ps) % 2 == 0) MarketError.bad_remaining_accounts) _
            by_parts in
        let (cs, adds, e₂) = >>=-eq-ok (contributions rt user skip_keys clock (flatten ps)) _ e₁ in
        let (ds, adds', (collat, debt)) = perm-Adds perm adds in
        accumulate_remaining_skip-clamped rt user skip_keys clock (flatten qs) t h
        ∙ rw (length-flatten qs, adds', ← collat, ← debt) e₂
