-- ===== src/Ledger/Books.antt =====
-- The deposits in the stored positions of a market of programs/shadow-lend/src/lib.rs, summed over
-- users, against the total that the market keeps.
use shadowlend.Prelude.{
  ℕ, ◌+◌, ◌≤◌, ◌≡◌, ◌≢◌, ◌⊎◌, inl, inr, ap, sym, ◌∙◌, refl, List, [], ◌∷◌, Option, none, some,
  arith,
}
use shadowlend.State.{Pubkey, Position}
use shadowlend.Runtime.{Runtime}
use shadowlend.Ledger.{Addresses, AddressLaws, Store, put, position_seed}
use shadowlend.Ledger.Sound.{put_here, put_elsewhere, eq_or_ne, position_seed-inj}

abbrev pub Absent : Pubkey → List Pubkey → Type 0
Absent user [] = Unit {0}
Absent user (u ∷ us) = (user ≢ u) × Absent user us

abbrev pub IsDistinct : List Pubkey → Type 0
IsDistinct [] = Unit {0}
IsDistinct (u ∷ us) = Absent u us × IsDistinct us

-- What a stored position holds; no position holds nothing.
abbrev pub supplied_in : Option Position → ℕ
supplied_in none = 0
supplied_in (some p) = p.supplied

module _ (rt : Runtime) (ad : Addresses rt) where
  -- The stored deposits of some users in a market.
  abbrev pub deposits : Store Position → Pubkey → List Pubkey → ℕ
  deposits P mint [] = 0
  deposits P mint (u ∷ us) = supplied_in (P (ad.find (position_seed u mint))) + deposits P mint us

  -- The total is the sum of the deposits of all users: no users hold more, and some hold as much.
  pub record IsBooked (P : Store Position) (mint : Pubkey) (total : ℕ) : Type 0 where
    pub covers : (us : List Pubkey) → IsDistinct us → deposits P mint us ≤ total
    pub attained : (us : List Pubkey) × IsDistinct us × (deposits P mint us ≡ total)

module _ (rt : Runtime) (ad : Addresses rt) (laws : AddressLaws rt ad) (P : Store Position)
    (user mint : Pubkey) (p : Position) where
  abbrev written : Store Position
  written = put P (ad.find (position_seed user mint)) p

  -- What was held before the write.
  abbrev before : ℕ
  before = supplied_in (P (ad.find (position_seed user mint)))

  elsewhere :
      (u m : Pubkey)
      → (u ≢ user) ⊎ (m ≢ mint)
      → written (ad.find (position_seed u m)) ≡ P (ad.find (position_seed u m))
  elsewhere u m apart =
      put_elsewhere P (ad.find (position_seed user mint)) p _
        λ same. let (us, ms) = position_seed-inj (laws.find_injective _ _ same) in ground arith

  deposits_other :
      (m : Pubkey)
      → m ≢ mint
      → (us : List Pubkey) → deposits rt ad written m us ≡ deposits rt ad P m us
  deposits_other m apart [] = refl
  deposits_other m apart (u ∷ us) = rw (elsewhere u m (inr apart), deposits_other m apart us)

  deposits-Absent :
      (us : List Pubkey)
      → Absent user us
      → deposits rt ad written mint us ≡ deposits rt ad P mint us
  deposits-Absent [] absent = refl
  deposits-Absent (u ∷ us) (ne, absent) =
      rw (elsewhere u mint (inl λ e. ne (sym e)), deposits-Absent us absent)

  -- Either the user is not among them, or the sum moves with the position.
  deposits-written :
      (us : List Pubkey)
      → IsDistinct us
      → (Absent user us × (deposits rt ad written mint us ≡ deposits rt ad P mint us))
        ⊎ (deposits rt ad written mint us + before ≡ deposits rt ad P mint us + p.supplied)
  deposits-written [] d = inl (tt, refl)
  deposits-written (u ∷ us) (absent, d) = elim (eq_or_ne user u) [
    | inl same ↦
        let out : Absent user us = rw same absent in
        inr (
          omega (
            arith,
            ap (λ (k : Pubkey). supplied_in (written (ad.find (position_seed k mint)))) same,
            ap (λ (k : Pubkey). supplied_in (P (ad.find (position_seed k mint)))) same,
            ap supplied_in (put_here P (ad.find (position_seed user mint)) p),
            deposits-Absent us out,
          ))
    | inr apart ↦ elim (deposits-written us d) [
      | inl (out, stays) ↦
          inl ((apart, out), rw (elsewhere u mint (inl λ e. apart (sym e))) (omega arith))
      | inr moves ↦ inr (rw (elsewhere u mint (inl λ e. apart (sym e))) (omega arith))
    ]
  ]

  pub put-IsBooked :
      (total total' : ℕ)
      → IsBooked rt ad P mint total
      → total' + before ≡ total + p.supplied
      → IsBooked rt ad written mint total'
  put-IsBooked total total' b moves = record {
    covers = λ us d. elim (deposits-written us d) [
      | inl (out, stays) ↦ omega (arith, stays, b.covers (user ∷ us) (out, d))
      | inr with_user ↦ omega (arith, with_user, b.covers us d)
    ];
    attained =
        let (us, d, sums) = b.attained in
        elim (deposits-written us d) [
          | inl (out, stays) ↦ (
            user ∷ us,
            (out, d),
            omega (
              arith,
              stays,
              b.covers (user ∷ us) (out, d),
              ap supplied_in (put_here P (ad.find (position_seed user mint)) p),
            ),
          )
          | inr with_user ↦ (us, d, omega (arith, with_user))
        ];
  }

  pub put_other-IsBooked :
      (m : Pubkey) (total : ℕ)
      → m ≢ mint
      → IsBooked rt ad P m total
      → IsBooked rt ad written m total
  put_other-IsBooked m total apart b = record {
    covers = λ us d. rw (deposits_other m apart us) (b.covers us d);
    attained = let (us, d, sums) = b.attained in (us, d, deposits_other m apart us ∙ sums);
  }
