-- ===== src/Health/Loop.antt =====
-- The `while i < ras.len()` loops of `accumulate_remaining` and `accumulate_remaining_skip` of
-- programs/shadow-lend/src/lib.rs, with the index and the bounds checks of `ras[i]`.
use shadowlend.Prelude.{
  ℕ, zero, suc, ◌+◌, ◌*◌, ◌%◌, ◌==◌, ◌<◌, ◌≡◌, refl, ap, ◌∙◌, List, [], ◌∷◌, Option, none, some,
  arith, length, get_elem?, ltb, if◌then◌else◌, Bool-cases, inl, inr, true,
}
use shadowlend.Result.{Result, ok, err, panic, market, MarketError, ◌>>=◌, Result-cases}
use shadowlend.State.{Pubkey, Clock}
use shadowlend.Runtime.{Runtime, AccountInfo}
use shadowlend.Health.{
  Totals, add_pair, contains, walk, walk_skip, accumulate_remaining, accumulate_remaining_skip,
}

-- `&ras[i]`, which panics past the end.
unfoldable pub index {ℓ} : {A : Type ℓ} → List A → ℕ → Result A
index xs i = elim (get_elem? xs i) [ none ↦ err panic | some x ↦ ok x ]

-- The loop over the index, two accounts a round; `none` where the rounds run out.
module _ (rt : Runtime) (round : AccountInfo rt → AccountInfo rt → Totals → Result Totals)
    (ras : List (AccountInfo rt)) where
  -- One round: both accounts, then its body.
  unfoldable pub round_at : ℕ → Totals → Result Totals
  round_at i totals = do pos_ai ← index ras i; pu_ai ← index ras (i + 1); round pos_ai pu_ai totals

  unfoldable pub index_loop : ℕ → ℕ → Totals → Option (Result Totals)
  index_loop zero i totals = none
  index_loop (suc rounds) i totals =
      if ltb i (length ras)
      then elim (round_at i totals) [
        | ok totals' ↦ index_loop rounds (i + 2) totals'
        | err e ↦ some (err e)
      ]
      else some (ok totals)

module _ (rt : Runtime) where
  -- `accumulate_remaining`, as it is written.
  unfoldable pub accumulate_remaining_loop :
      ℕ → List (AccountInfo rt) → Pubkey → Pubkey → Clock → Totals → Option (Result Totals)
  accumulate_remaining_loop rounds ras user skip clock totals =
      if length ras % 2 == 0
      then index_loop rt
          (λ pos_ai pu_ai t.
            if pos_ai.key == skip then ok t else add_pair rt user clock pos_ai pu_ai t)
          ras rounds 0 totals
      else some (err (market MarketError.bad_remaining_accounts))

  -- `accumulate_remaining_skip`, as it is written.
  unfoldable pub accumulate_remaining_skip_loop :
      ℕ → List (AccountInfo rt) → Pubkey → List Pubkey → Clock → Totals → Option (Result Totals)
  accumulate_remaining_skip_loop rounds ras user skip_keys clock totals =
      if length ras % 2 == 0
      then index_loop rt
          (λ pos_ai pu_ai t.
            if contains skip_keys pos_ai.key then ok t else add_pair rt user clock pos_ai pu_ai t)
          ras rounds 0 totals
      else some (err (market MarketError.bad_remaining_accounts))

-- The rounds over the list that is left, with no index.
pairwise :
    (rt : Runtime)
    → (AccountInfo rt → AccountInfo rt → Totals → Result Totals)
    → List (AccountInfo rt)
    → Totals
    → Result Totals
pairwise rt round [] totals = ok totals
pairwise rt round (pos_ai ∷ []) totals = err panic
pairwise rt round (pos_ai ∷ pu_ai ∷ ras) totals = do
  totals' ← round pos_ai pu_ai totals
  pairwise rt round ras totals'

-- What is left of a list at an index.
abbrev LeftAt {ℓ} : {A : Type ℓ} → List A → ℕ → List A → Type ℓ
LeftAt xs i left =
    (length xs ≡ i + length left) × ((j : ℕ) → get_elem? xs (i + j) ≡ get_elem? left j)

LeftAt-step {ℓ} :
    {A : Type ℓ} (xs : List A) (i : ℕ) (a b : A) (left : List A)
    → LeftAt xs i (a ∷ b ∷ left)
    → LeftAt xs (i + 2) left
LeftAt-step xs i a b left (long, at) = (
  omega arith,
  λ j. let moved : i + 2 + j ≡ i + suc (suc j) = omega arith in rw moved (at (suc (suc j))),
)

LeftAt-index {ℓ} :
    {A : Type ℓ} (xs : List A) (i : ℕ) (a b : A) (left : List A)
    → LeftAt xs i (a ∷ b ∷ left)
    → (index xs i ≡ ok a) × (index xs (i + 1) ≡ ok b)
unfolding index
LeftAt-index xs i a b left (long, at) =
    let here : i + 0 ≡ i = omega arith in
    let first : get_elem? xs i ≡ some a = rw here at (at 0) in (rw (first, index), rw (at 1, index))

module _ (rt : Runtime) (round : AccountInfo rt → AccountInfo rt → Totals → Result Totals)
    (ras : List (AccountInfo rt)) where
  index_loop-pairwise :
      (rounds i : ℕ) (left : List (AccountInfo rt)) (t : Totals)
      → LeftAt ras i left
      → length left % 2 ≡ 0
      → length left < 2 * rounds
      → index_loop rt round ras rounds i t ≡ some (pairwise rt round left t)
  unfolding index_loop pairwise round_at
  index_loop-pairwise zero i left t h even enough = absurd (omega arith)
  index_loop-pairwise (suc rounds) i [] t (long, at) even enough = ground arith
  index_loop-pairwise (suc rounds) i (a ∷ []) t h even enough = absurd (omega arith)
  index_loop-pairwise (suc rounds) i (a ∷ b ∷ left) t h even enough =
      let (first, second) = LeftAt-index ras i a b left h in
      let more : ltb i (length ras) ≡ true = ground (arith, h.0) in
      rw (more, first, second)
        (elim (Result-cases (round a b t)) [
          | inl (e, fails) ↦ rw fails refl
          | inr (t', goes) ↦ rw goes (
              index_loop-pairwise rounds (i + 2) left t' (LeftAt-step ras i a b left h)
                (omega arith) (omega arith))
        ])

module _ (rt : Runtime) (user : Pubkey) (clock : Clock) where
  pairwise-walk :
      (skip : Pubkey) (ras : List (AccountInfo rt)) (t : Totals)
      → pairwise rt
          (λ pos_ai pu_ai x.
            if pos_ai.key == skip then ok x else add_pair rt user clock pos_ai pu_ai x)
          ras
          t
        ≡ walk rt user skip clock ras t
  unfolding pairwise walk
  pairwise-walk skip [] t = refl
  pairwise-walk skip (a ∷ []) t = refl
  pairwise-walk skip (a ∷ b ∷ ras) t = simp (pairwise-walk skip ras)

  pairwise-walk_skip :
      (skip_keys : List Pubkey) (ras : List (AccountInfo rt)) (t : Totals)
      → pairwise rt
          (λ pos_ai pu_ai x.
            if contains skip_keys pos_ai.key then ok x else add_pair rt user clock pos_ai pu_ai x)
          ras
          t
        ≡ walk_skip rt user skip_keys clock ras t
  unfolding pairwise walk_skip
  pairwise-walk_skip skip_keys [] t = refl
  pairwise-walk_skip skip_keys (a ∷ []) t = refl
  pairwise-walk_skip skip_keys (a ∷ b ∷ ras) t = simp (pairwise-walk_skip skip_keys ras)

  -- For every list of accounts, the loops over the index end within a round for each pair and one
  -- for the last test, and give the results of the walks over the list, errors included.
  pub accumulate_remaining_loop_ends :
      (rounds : ℕ) (ras : List (AccountInfo rt)) (skip : Pubkey) (skip_keys : List Pubkey)
      (t : Totals)
      → length ras < 2 * rounds
      → (accumulate_remaining_loop rt rounds ras user skip clock t
          ≡ some (accumulate_remaining rt ras user skip clock t))
        × (accumulate_remaining_skip_loop rt rounds ras user skip_keys clock t
            ≡ some (accumulate_remaining_skip rt ras user skip_keys clock t))
  unfolding accumulate_remaining accumulate_remaining_skip accumulate_remaining_loop
      accumulate_remaining_skip_loop
  accumulate_remaining_loop_ends rounds ras skip skip_keys t enough =
      elim (Bool-cases (length ras % 2 == 0)) [
        | inl even ↦
            let whole : LeftAt ras 0 ras = (omega arith, λ j. ap (get_elem? ras) (omega arith)) in
            let by_two : length ras % 2 ≡ 0 = ground arith in
            (
              rw even (
                  index_loop-pairwise rt _ ras rounds 0 ras t whole by_two enough
                  ∙ ap some (pairwise-walk skip ras t)),
              rw even (
                  index_loop-pairwise rt _ ras rounds 0 ras t whole by_two enough
                  ∙ ap some (pairwise-walk_skip skip_keys ras t)),
            )
        | inr odd ↦ (rw odd, rw odd)
      ]
