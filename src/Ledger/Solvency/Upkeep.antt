-- ===== src/Ledger/Solvency/Upkeep.antt =====
-- The faucet's and the admin's instructions of programs/shadow-lend/src/lib.rs keep the ledger solvent.
use shadowlend.Prelude.{
  ℕ, ◌≤◌, ◌≡◌, ap, refl, inl, inr, [], ◌∷◌, List, none, some, arith, Option-cases,
}
use shadowlend.Result.{ok}
use shadowlend.State.{Pubkey, Market, Position, Clock}
use shadowlend.Runtime.{Runtime, MintLaws}
use shadowlend.Instructions.Admin.{set_claim_amount}
use shadowlend.Instructions.Admin.Guards.{initialize_market_effect}
use shadowlend.Instructions.Faucet.{faucet_mint}
use shadowlend.Instructions.Faucet.Receipt.{claim_faucet_effect}
use shadowlend.Ledger.{Addresses, AddressLaws, Ledger, Store, put, market_seed, position_seed}
use shadowlend.Ledger.Books.{IsBooked, deposits}
use shadowlend.Ledger.Execute.{
  market_context, claim_context, run_initialize_market, run_set_claim_amount, run_claim_faucet,
}
use shadowlend.Ledger.Inversion.Upkeep.{
  run_initialize_market-eq-ok, run_set_claim_amount-eq-ok, run_claim_faucet-eq-ok,
}
use shadowlend.Ledger.Sound.{IsSound, put_found, market_seed-inj}
use shadowlend.Ledger.Solvency.{IsSolvent, vault_balance}

module _ (rt : Runtime) (ad : Addresses rt) where
  -- Tokens in which no vault has less.
  abbrev pub SparesVaults : rt.Tokens → rt.Tokens → Type 0
  SparesVaults t t' = (mint : Pubkey) → vault_balance rt ad t mint ≤ vault_balance rt ad t' mint

  pub tokens-IsSolvent :
      {M : Store Market} {P : Store Position} {t t' : rt.Tokens}
      → IsSolvent rt ad M P t
      → SparesVaults t t'
      → IsSolvent rt ad M P t'
  tokens-IsSolvent s spares = record {
    booked = s.booked;
    backed = λ mint m h. omega (arith, s.backed mint m h, spares mint);
  }

module _ (rt : Runtime) (ad : Addresses rt) (laws : AddressLaws rt ad) where
  -- A write of a market that leaves its totals keeps the ledger solvent.
  put_market-IsSolvent :
      {M : Store Market} {P : Store Position} {t : rt.Tokens} {mint : Pubkey} {m : Market}
      (m' : Market)
      → IsSolvent rt ad M P t
      → M (ad.find (market_seed mint)) ≡ some m
      → (m'.total_supplied ≡ m.total_supplied) × (m'.total_borrowed ≡ m.total_borrowed)
      → IsSolvent rt ad (put M (ad.find (market_seed mint)) m') P t
  put_market-IsSolvent {M} {P} {t} {mint} {m} m' s found (supplied, borrowed) = record {
    booked = λ other x h.
        elim (put_found M (ad.find (market_seed mint)) m' (ad.find (market_seed other)) h) [
          | inl (same, eq) ↦
              rw (market_seed-inj (laws.find_injective _ _ same), ← eq, supplied)
                (s.booked mint m found)
          | inr (apart, old) ↦ s.booked other x old
        ];
    backed = λ other x h.
        elim (put_found M (ad.find (market_seed mint)) m' (ad.find (market_seed other)) h) [
          | inl (same, eq) ↦
              rw (market_seed-inj (laws.find_injective _ _ same), ← eq, supplied, borrowed)
                (s.backed mint m found)
          | inr (apart, old) ↦ s.backed other x old
        ];
  }

  -- A new market with nothing in it, where there were no positions, keeps the ledger solvent.
  put_new-IsSolvent :
      {M : Store Market} {P : Store Position} {t : rt.Tokens} {mint : Pubkey} (m : Market)
      → IsSolvent rt ad M P t
      → IsBooked rt ad P mint 0
      → m.total_supplied ≡ 0
      → IsSolvent rt ad (put M (ad.find (market_seed mint)) m) P t
  put_new-IsSolvent {M} {P} {t} {mint} m s b empty = record {
    booked = λ other x h.
        elim (put_found M (ad.find (market_seed mint)) m (ad.find (market_seed other)) h) [
          | inl (same, eq) ↦ rw (market_seed-inj (laws.find_injective _ _ same), ← eq, empty) b
          | inr (apart, old) ↦ s.booked other x old
        ];
    backed = λ other x h.
        elim (put_found M (ad.find (market_seed mint)) m (ad.find (market_seed other)) h) [
          | inl (same, eq) ↦ omega (arith, ap (λ (q : Market). q.total_supplied) eq)
          | inr (apart, old) ↦ s.backed other x old
        ];
  }

-- Where no market is stored, there are no positions in it.
module _ (rt : Runtime) (ad : Addresses rt) {M : Store Market} {P : Store Position} (mint : Pubkey)
    (s : IsSound rt ad M P) (free : M (ad.find (market_seed mint)) ≡ none) where
  no_deposits : (us : List Pubkey) → deposits rt ad P mint us ≡ 0
  no_deposits [] = refl
  no_deposits (u ∷ us) = elim (Option-cases (P (ad.find (position_seed u mint)))) [
    | inl missing ↦ rw (missing, no_deposits us)
    | inr (p, held) ↦ let (m, stored, _) = s.position u mint p held in cc
  ]

  no_positions-IsBooked : IsBooked rt ad P mint 0
  no_positions-IsBooked = record {
    covers = λ us d. omega (arith, no_deposits us);
    attained = ([], tt, refl);
  }

module _ (rt : Runtime) (ad : Addresses rt) (laws : AddressLaws rt ad) (l : Ledger rt)
    (clock : Clock) (s : IsSolvent rt ad l.markets l.positions l.tokens) (l' : Ledger rt) where
  pub initialize_market-IsSolvent :
      IsSound rt ad l.markets l.positions
      → (admin mint claim ltv feed rate : ℕ)
      → run_initialize_market rt ad l clock admin mint claim ltv feed rate ≡ ok l'
      → IsSolvent rt ad l'.markets l'.positions l'.tokens
  initialize_market-IsSolvent sound admin mint claim ltv feed rate e =
      let (m, free, made, writes) =
        run_initialize_market-eq-ok rt ad l clock admin mint claim ltv feed rate e in
      let (_, _, _, _, _, empty, _, _) =
        initialize_market_effect (market_context rt ad admin mint) clock claim ltv feed rate made in
      rw (← writes)
        (put_new-IsSolvent rt ad laws m s (no_positions-IsBooked rt ad mint sound free) empty)

  pub set_claim_amount-IsSolvent :
      (admin key amount : ℕ)
      → run_set_claim_amount rt ad l admin key amount ≡ ok l'
      → IsSolvent rt ad l'.markets l'.positions l'.tokens
  unfolding set_claim_amount
  set_claim_amount-IsSolvent admin key amount e =
      let (m, m', found, set, writes) = run_set_claim_amount-eq-ok rt ad l admin key amount e in
      rw (← writes) (put_market-IsSolvent rt ad laws m' s found (ground arith))

  pub claim_faucet-IsSolvent :
      MintLaws rt
      → (user mint : ℕ) → run_claim_faucet rt ad l clock user mint ≡ ok l'
      → IsSolvent rt ad l'.markets l'.positions l'.tokens
  claim_faucet-IsSolvent mints user mint e =
      let (m, r, found, _, claimed, writes) = run_claim_faucet-eq-ok rt ad l clock user mint e in
      let ctx = claim_context rt ad user mint m in
      let (minted, _, _, _, counted, _, _) = claim_faucet_effect rt ctx l.tokens clock claimed in
      let same : (r.market.total_supplied ≡ m.total_supplied)
          × (r.market.total_borrowed ≡ m.total_borrowed) =
        (
          ap (λ (q : Market). q.total_supplied) counted,
          ap (λ (q : Market). q.total_borrowed) counted,
        ) in
      let spares : SparesVaults rt ad l.tokens r.tokens =
        λ other. mints.keeps l.tokens r.tokens (faucet_mint ctx) r.receipt.amount _ minted in
      rw (← writes)
        (tokens-IsSolvent rt ad (put_market-IsSolvent rt ad laws r.market s found same) spares)
