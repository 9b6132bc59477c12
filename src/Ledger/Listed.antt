-- ===== src/Ledger/Listed.antt =====
-- About the accounts that `withdraw` and `borrow` of programs/shadow-lend/src/lib.rs are given beside
-- their own: a walk over the stored positions in place of the bytes.
pub mod Covered
use shadowlend.Prelude.{
  ℕ, ◌≡◌, ◌≢◌, ◌==◌, ◌&&◌, ◌⊎◌, ap, sym, ◌∙◌, refl, inl, inr, arith, List, [], ◌∷◌, Option, none,
  some, if◌then◌else◌, Bool-cases, length, ◌%◌, ◌≤◌,
}
use shadowlend.Result.{
  Result, ok, err, panic, market, MarketError, ◌>>=◌, ◌>>◌, require, require_keys_eq, ok_or,
  >>=-eq-ok, >>-eq-ok, ok_or-eq-ok,
}
use shadowlend.State.{Pubkey, Market, Position, Price, Clock}
use shadowlend.Runtime.{Runtime, AccountInfo}
use shadowlend.Health.{
  Totals, no_totals, read_pair, add_pair, add_found, walk, fresh_price, accumulate_position,
  accumulate_remaining,
}
use shadowlend.Ledger.{Store, put}
use shadowlend.Ledger.Sound.{put_elsewhere}

module _ (rt : Runtime) where
  -- An account of the program that reads as a position is the one that is stored at its key.
  pub record IsStored (positions : Store Position) (ai : AccountInfo rt) : Type 0 where
    pub stored :
        (p : Position)
        → ai.owner ≡ rt.program_id
        → rt.deserialize_position ai.bytes ≡ some p
        → positions ai.key ≡ some p

  abbrev pub AreStored : Store Position → List (AccountInfo rt) → Type 0
  AreStored positions [] = Unit {0}
  AreStored positions (ai ∷ ras) = IsStored positions ai × AreStored positions ras

  -- A pair whose position is looked up in the store.
  unfoldable pub stored_pair :
      Store Position
      → Pubkey
      → Clock
      → AccountInfo rt
      → AccountInfo rt
      → Result (Option (Position × Price))
  stored_pair positions user clock pos_ai pu_ai = do
    pos ← ok_or (positions pos_ai.key) (market MarketError.bad_position_account)
    require_keys_eq pos.user user (market MarketError.bad_position_account)
    if pos.supplied == 0 && pos.borrowed == 0 then ok none else do
      require (pu_ai.owner == rt.pyth_id) MarketError.bad_price_feed
      pu ← ok_or (rt.deserialize_price_update pu_ai.bytes) (market MarketError.bad_price_feed)
      price ← fresh_price rt pu clock pos.feed_id
      ok (some (pos, price))

  unfoldable pub stored_walk :
      Store Position → Pubkey → Pubkey → Clock → List (AccountInfo rt) → Totals → Result Totals
  stored_walk positions user skip clock [] totals = ok totals
  stored_walk positions user skip clock (pos_ai ∷ []) totals = err panic
  stored_walk positions user skip clock (pos_ai ∷ pu_ai ∷ ras) totals = do
    totals' ←
        if pos_ai.key == skip
        then ok totals
        else do found ← stored_pair positions user clock pos_ai pu_ai; add_found found totals
    stored_walk positions user skip clock ras totals'

  module _ (positions : Store Position) (user : Pubkey) (clock : Clock) where
    read_pair-stored :
        (pos_ai pu_ai : AccountInfo rt) {found : Option (Position × Price)}
        → IsStored positions pos_ai
        → read_pair rt user clock pos_ai pu_ai ≡ ok found
        → stored_pair positions user clock pos_ai pu_ai ≡ ok found
    unfolding read_pair stored_pair
    read_pair-stored pos_ai pu_ai h e =
        let (ours, e₁) =
          >>-eq-ok (require (pos_ai.owner == rt.program_id) MarketError.bad_position_account) _ e in
        let (p, reads, e₂) =
          >>=-eq-ok
            (ok_or (rt.deserialize_position pos_ai.bytes) (market MarketError.bad_position_account))
            _ e₁ in
        let owned : pos_ai.owner ≡ rt.program_id = ground arith in
        let at = h.stored p owned (ok_or-eq-ok _ _ reads) in rw at e₂

    walk-stored :
        (skip : Pubkey) (ras : List (AccountInfo rt)) (t : Totals) {r : Totals}
        → AreStored positions ras
        → walk rt user skip clock ras t ≡ ok r
        → stored_walk positions user skip clock ras t ≡ ok r
    unfolding walk stored_walk add_pair
    walk-stored skip [] t h e = e
    walk-stored skip (pos_ai ∷ []) t h e = e
    walk-stored skip (pos_ai ∷ pu_ai ∷ ras) t (own, (_, others)) e =
        elim (Bool-cases (pos_ai.key == skip)) [
          | inl skips ↦ rw skips (walk-stored skip ras t others (rw skips at e))
          | inr counts ↦
              let e₁ = rw counts at e in
              let (t', adds, e₂) = >>=-eq-ok (add_pair rt user clock pos_ai pu_ai t) _ e₁ in
              let (found, reads, e₃) = >>=-eq-ok (read_pair rt user clock pos_ai pu_ai) _ adds in
              rw (counts, read_pair-stored pos_ai pu_ai own reads, e₃)
                (walk-stored skip ras t' others e₂)
        ]

    -- A walk that skips a key reads nothing at it.
    stored_walk-put :
        (skip : Pubkey) (p : Position) (ras : List (AccountInfo rt)) (t : Totals)
        → stored_walk (put positions skip p) user skip clock ras t
          ≡ stored_walk positions user skip clock ras t
    unfolding stored_walk stored_pair
    stored_walk-put skip p [] t = refl
    stored_walk-put skip p (pos_ai ∷ []) t = refl
    stored_walk-put skip p (pos_ai ∷ pu_ai ∷ ras) t = elim (Bool-cases (pos_ai.key == skip)) [
      | inl skips ↦ rw skips (stored_walk-put skip p ras t)
      | inr counts ↦
          let apart : pos_ai.key ≢ skip = ground arith in
          rw (counts, put_elsewhere positions skip p pos_ai.key apart)
            (simp (stored_walk-put skip p ras))
    ]

    accumulate_remaining-stored :
        (skip : Pubkey) (ras : List (AccountInfo rt)) (t : Totals) {r : Totals}
        → AreStored positions ras
        → accumulate_remaining rt ras user skip clock t ≡ ok r
        → stored_walk positions user skip clock ras t ≡ ok r
    unfolding accumulate_remaining
    accumulate_remaining-stored skip ras t h e =
        let (_, e₁) =
          >>-eq-ok (require (length ras % 2 == 0) MarketError.bad_remaining_accounts) _ e in
        walk-stored skip ras t h e₁
