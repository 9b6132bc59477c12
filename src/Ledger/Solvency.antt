-- ===== src/Ledger/Solvency.antt =====
-- Solvency of the markets of programs/shadow-lend/src/lib.rs: the vault of a market with what is lent
-- out covers the market's deposits, and these are the deposits of all users.
pub mod Users
pub mod Upkeep
pub mod Moves
pub mod Seizure
pub mod Custody
use shadowlend.Prelude.{ℕ, ◌+◌, ◌≤◌, ◌≡◌, ◌≢◌, inl, inr, ap, some, arith}
use shadowlend.State.{Pubkey, Market, Position}
use shadowlend.Runtime.{Runtime}
use shadowlend.Ledger.{Addresses, AddressLaws, Store, put, market_seed, vault_seed, position_seed}
use shadowlend.Ledger.Sound.{put_found, market_seed-inj, eq_or_ne}
use shadowlend.Ledger.Books.{IsBooked, supplied_in, put-IsBooked, put_other-IsBooked}

module _ (rt : Runtime) (ad : Addresses rt) where
  abbrev pub vault_balance : rt.Tokens → Pubkey → ℕ
  vault_balance tokens mint = rt.balance tokens (ad.find (vault_seed mint))

  pub record IsSolvent (M : Store Market) (P : Store Position) (tokens : rt.Tokens) : Type 0 where
    pub booked :
        (mint : Pubkey) (m : Market)
        → M (ad.find (market_seed mint)) ≡ some m
        → IsBooked rt ad P mint m.total_supplied
    pub backed :
        (mint : Pubkey) (m : Market)
        → M (ad.find (market_seed mint)) ≡ some m
        → m.total_supplied ≤ vault_balance tokens mint + m.total_borrowed

  -- Tokens in which no vault but one has less.
  abbrev pub SparesOthers : Pubkey → rt.Tokens → rt.Tokens → Type 0
  SparesOthers mint t t' =
      (other : Pubkey) → other ≢ mint → vault_balance t other ≤ vault_balance t' other

module _ (rt : Runtime) (ad : Addresses rt) (laws : AddressLaws rt ad) where
  pub vault-inj : {a b : Pubkey} → ad.find (vault_seed a) ≡ ad.find (vault_seed b) → a ≡ b
  vault-inj e = let same = laws.find_injective _ _ e in cc

  market_seed-ne : {a b : Pubkey} → ad.find (market_seed a) ≢ ad.find (market_seed b) → a ≢ b
  market_seed-ne apart e = apart (ap (λ (k : Pubkey). ad.find (market_seed k)) e)

  -- A write of a market and of one position in it keeps the ledger solvent, if the total moves with
  -- the position and the vault with the loans still covers it.
  pub post-IsSolvent :
      {M : Store Market} {P : Store Position} {t t' : rt.Tokens} (user mint : Pubkey) {m : Market}
      (m' : Market) (p : Position)
      → IsSolvent rt ad M P t
      → M (ad.find (market_seed mint)) ≡ some m
      → m'.total_supplied + supplied_in (P (ad.find (position_seed user mint)))
        ≡ m.total_supplied + p.supplied
      → m'.total_supplied ≤ vault_balance rt ad t' mint + m'.total_borrowed
      → SparesOthers rt ad mint t t'
      → IsSolvent rt ad
          (put M (ad.find (market_seed mint)) m')
          (put P (ad.find (position_seed user mint)) p)
          t'
  post-IsSolvent {M} {P} {t} {t'} user mint {m} m' p s found moves covered spares = record {
    booked = λ other x h.
        elim (put_found M (ad.find (market_seed mint)) m' (ad.find (market_seed other)) h) [
          | inl (same, eq) ↦
              rw (market_seed-inj (laws.find_injective _ _ same), ← eq)
                (put-IsBooked rt ad laws P user mint p m.total_supplied m'.total_supplied
                  (s.booked mint m found) moves)
          | inr (apart, old) ↦
              put_other-IsBooked rt ad laws P user mint p other x.total_supplied
                (market_seed-ne apart) (s.booked other x old)
        ];
    backed = λ other x h.
        elim (put_found M (ad.find (market_seed mint)) m' (ad.find (market_seed other)) h) [
          | inl (same, eq) ↦ rw (market_seed-inj (laws.find_injective _ _ same), ← eq) covered
          | inr (apart, old) ↦
              omega (arith, s.backed other x old, spares other (market_seed-ne apart))
        ];
  }
