-- ===== src/Ledger/Upkeep.antt =====
-- The faucet's and the admin's instructions of programs/shadow-lend/src/lib.rs keep
-- the ledger sound.
use shadowlend.Prelude.{ℕ, ◌≡◌, ap, sym, ◌∙◌, inl, inr, none, arith}
use shadowlend.Result.{ok}
use shadowlend.State.{Pubkey, Market, Position, Clock}
use shadowlend.Runtime.{Runtime}
use shadowlend.Instructions.Admin.{initialize_market, set_claim_amount}
use shadowlend.Instructions.Faucet.Receipt.{claim_faucet_effect}
use shadowlend.Ledger.{Addresses, AddressLaws, Ledger, Store, put, market_seed}
use shadowlend.Ledger.Execute.{
  market_context, run_initialize_market, run_set_claim_amount, run_claim_faucet,
}
use shadowlend.Ledger.Sound.{
  Evolves, IsMarket, IsSound, put_market-IsSound, put_elsewhere, put_found, market_seed-inj,
}
use shadowlend.Ledger.Inversion.Upkeep.{
  run_initialize_market-eq-ok, run_set_claim_amount-eq-ok, run_claim_faucet-eq-ok,
}

module _ (rt : Runtime) (ad : Addresses rt) where
  -- A new market where there was none keeps the ledger sound.
  put_new-IsSound :
      AddressLaws rt ad
      → {M : Store Market} {P : Store Position} {mint : Pubkey} {m : Market} → IsSound rt ad M P
      → M (ad.find (market_seed mint)) ≡ none
      → IsMarket rt ad mint m
      → IsSound rt ad (put M (ad.find (market_seed mint)) m) P
  put_new-IsSound laws {M} {P} {mint} {m} s free is = record {
    market = λ mint' x h.
        elim (put_found M (ad.find (market_seed mint)) m (ad.find (market_seed mint')) h) [
          | inl (same, eq) ↦ rw (market_seed-inj (laws.find_injective _ _ same), ← eq) is
          | inr (apart, old) ↦ s.market mint' x old
        ];
    position = λ user mint' p h.
        let (x, stored, fits) = s.position user mint' p h in
        (
          x,
          put_elsewhere M (ad.find (market_seed mint)) m _
                (λ same. cc (sym free ∙ ap M (sym same) ∙ stored))
              ∙ stored,
          fits,
        );
  }

  initialize_market-IsMarket :
      (clock : Clock) (admin mint claim ltv feed rate : ℕ) {m : Market}
      → initialize_market (market_context rt ad admin mint) clock claim ltv feed rate ≡ ok m
      → IsMarket rt ad mint m
  unfolding initialize_market
  initialize_market-IsMarket clock admin mint claim ltv feed rate e = ground arith

module _ (rt : Runtime) (ad : Addresses rt) (laws : AddressLaws rt ad) (l : Ledger rt)
    (clock : Clock) (s : IsSound rt ad l.markets l.positions) (l' : Ledger rt) where
  pub initialize_market-IsSound :
      (admin mint claim ltv feed rate : ℕ)
      → run_initialize_market rt ad l clock admin mint claim ltv feed rate ≡ ok l'
      → IsSound rt ad l'.markets l'.positions
  initialize_market-IsSound admin mint claim ltv feed rate e =
      let (m, free, made, writes) =
        run_initialize_market-eq-ok rt ad l clock admin mint claim ltv feed rate e in
      let is = initialize_market-IsMarket rt ad clock admin mint claim ltv feed rate made in
      rw (← writes) (put_new-IsSound rt ad laws s free is)

  pub set_claim_amount-IsSound :
      (admin key amount : ℕ)
      → run_set_claim_amount rt ad l admin key amount ≡ ok l'
      → IsSound rt ad l'.markets l'.positions
  unfolding set_claim_amount
  set_claim_amount-IsSound admin key amount e =
      let (m, m', found, set, writes) = run_set_claim_amount-eq-ok rt ad l admin key amount e in
      let ev : Evolves m m' = ground (arith, (s.market m.mint m found).index_bound) in
      rw (← writes) (put_market-IsSound rt ad laws s found ev)

  pub claim_faucet-IsSound :
      (user mint : ℕ)
      → run_claim_faucet rt ad l clock user mint ≡ ok l'
      → IsSound rt ad l'.markets l'.positions
  claim_faucet-IsSound user mint e =
      let (m, r, found, _, claimed, writes) = run_claim_faucet-eq-ok rt ad l clock user mint e in
      let (_, _, _, _, counted, _, _) = claim_faucet_effect rt _ l.tokens clock claimed in
      let ev : Evolves m r.market =
        rw counted (ground (arith, (s.market mint m found).index_bound)) in
      rw (← writes) (put_market-IsSound rt ad laws s found ev)
