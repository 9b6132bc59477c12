-- ===== src/Ledger/Solvency/Seizure.antt =====
-- `liquidate` of programs/shadow-lend/src/lib.rs keeps the ledger solvent.
use shadowlend.Prelude.{
  ℕ, ◌+◌, ◌-◌, ◌≤◌, ◌≡◌, ◌≢◌, ◌⊎◌, ap, sym, ◌∙◌, inl, inr, [], ◌∷◌, some, arith,
}
use shadowlend.Result.{ok}
use shadowlend.State.{Pubkey, Market, Position, Clock}
use shadowlend.Runtime.{Runtime, Transfer, TransferLaws}
use shadowlend.Instructions.Liquidate.{liquidator_pays, vault_releases}
use shadowlend.Ledger.{
  Addresses, AddressLaws, VaultLaws, Seeds, Ledger, Store, put, market_seed, vault_seed,
  position_seed,
}
use shadowlend.Ledger.Books.{supplied_in}
use shadowlend.Ledger.Call.{LiquidateCall}
use shadowlend.Ledger.Execute.{write_liquidated, run_liquidate}
use shadowlend.Ledger.Inversion.Upkeep.{run_liquidate-eq-ok}
use shadowlend.Ledger.Inversion.Seizure.{liquidate_context-eq-ok}
use shadowlend.Ledger.Solvency.{IsSolvent, SparesOthers, vault_balance, post-IsSolvent, vault-inj}
use shadowlend.Ledger.Solvency.Moves.{liquidate_moves, after_debt}

module _ (rt : Runtime) (ad : Addresses rt) where
  -- A wallet, which is at none of the program's addresses.
  abbrev pub IsWallet : Pubkey → Type 0
  IsWallet k = (s : Seeds) → k ≢ ad.find s

module _ (rt : Runtime) (ad : Addresses rt) (laws : AddressLaws rt ad) (vaults : VaultLaws rt ad)
    (moves : TransferLaws rt) where
  wallet-ne-vault :
      {k owner : Pubkey} (tokens : rt.Tokens) (mint : Pubkey)
      → IsWallet rt ad owner
      → ad.token_owner tokens k ≡ owner
      → k ≢ ad.find (vault_seed mint)
  wallet-ne-vault {k} tokens mint wallet owns same =
      wallet _ (sym owns ∙ ap (ad.token_owner tokens) same ∙ vaults.vault_owner tokens mint)

  -- A transfer between a wallet's account and a vault leaves the other vaults alone.
  transfer-SparesOthers :
      (t t' tokens : rt.Tokens) (mint : Pubkey) (c : Transfer) (n : ℕ) {owner : Pubkey}
      → IsWallet rt ad owner
      → ((c.receiver ≡ ad.find (vault_seed mint)) × (ad.token_owner tokens c.sender ≡ owner))
        ⊎ ((c.sender ≡ ad.find (vault_seed mint)) × (ad.token_owner tokens c.receiver ≡ owner))
      → rt.transfer t c n ≡ some t'
      → SparesOthers rt ad mint t t'
  transfer-SparesOthers t t' tokens mint c n wallet (inl (vault, owns)) e other apart = omega (
    arith,
    moves.spares t t' c n (ad.find (vault_seed other)) e
        (λ x. wallet-ne-vault tokens other wallet owns (sym x))
        (λ x. apart (vault-inj rt ad laws (x ∙ vault))),
  )
  transfer-SparesOthers t t' tokens mint c n wallet (inr (vault, owns)) e other apart = omega (
    arith,
    moves.spares t t' c n (ad.find (vault_seed other)) e
        (λ x. apart (vault-inj rt ad laws (x ∙ vault)))
        (λ x. wallet-ne-vault tokens other wallet owns (sym x)),
  )

  -- Writing both sides of a liquidation keeps the ledger solvent, also where they are one market.
  written_twice :
      {M : Store Market} {P : Store Position} {t t' t'' : rt.Tokens} {dk ck dpk cpk : Pubkey}
      (user dmint cmint : Pubkey) {dm cm : Market} (dm' cm' : Market) {dp cp : Position}
      (dp' cp' : Position) (repaid seized : ℕ)
      → IsSolvent rt ad M P t
      → (dk ≡ ad.find (market_seed dmint))
        × (dpk ≡ ad.find (position_seed user dmint))
        × (M dk ≡ some dm)
        × (P dpk ≡ some dp)
      → (ck ≡ ad.find (market_seed cmint))
        × (cpk ≡ ad.find (position_seed user cmint))
        × (M ck ≡ some cm)
        × (P cpk ≡ some cp)
      → (dp'.supplied ≡ dp.supplied)
        × (dm'.total_supplied ≡ dm.total_supplied)
        × (dm'.total_borrowed ≡ dm.total_borrowed - repaid)
      → (seized ≤ cp.supplied)
        × (cp'.supplied ≡ cp.supplied - seized)
        × (cm'.total_supplied ≡ cm.total_supplied - seized)
        × (cm'.total_borrowed ≡ cm.total_borrowed)
      → (vault_balance rt ad t' dmint ≡ vault_balance rt ad t dmint + repaid)
        × SparesOthers rt ad dmint t t'
      → (vault_balance rt ad t' cmint ≡ vault_balance rt ad t'' cmint + seized)
        × SparesOthers rt ad cmint t' t''
      → IsSolvent rt ad (put (put M dk dm') ck cm') (put (put P dpk dp') cpk cp') t''
  written_twice {M} {P} user dmint cmint {dm} {cm} dm' cm' {dp} {cp} dp' cp' repaid seized s
        (dk_is, dpk_is, dm_is, dp_is) (ck_is, cpk_is, cm_is', cp_is') (dp_kept, dm_kept, dm_less)
        (held, cp_is, cm_is, cm_owed) (gains, spares) (gives, spares') =
      let dm_at = rw dk_is at dm_is in
      let dp_at = rw dpk_is at dp_is in
      let cm_at = rw ck_is at cm_is' in
      let cp_at = rw cpk_is at cp_is' in
      let first =
        post-IsSolvent rt ad laws user dmint dm' dp' s dm_at (omega (arith, ap supplied_in dp_at))
          (omega (arith, s.backed dmint dm dm_at)) spares in
      let (x, x_at, x_has, x_owes, deposit) =
        after_debt rt ad laws M P user dmint cmint dm' dp' (dm_at, cm_at) (dp_at, cp_at)
          (dm_kept, omega arith) dp_kept in
      let booked = (first.booked cmint x x_at).covers (user ∷ []) (tt, tt) in
      rw (dk_is, ck_is, dpk_is, cpk_is)
        (post-IsSolvent rt ad laws user cmint cm' cp' first x_at
          (omega (arith, deposit, booked, x_has))
          (omega (arith, deposit, booked, first.backed cmint x x_at)) spares')

  pub liquidate-IsSolvent :
      (l : Ledger rt) (clock : Clock)
      → IsSolvent rt ad l.markets l.positions l.tokens
      → (c : LiquidateCall rt) (amount : ℕ) (l' : Ledger rt) → IsWallet rt ad c.liquidator
      → run_liquidate rt ad l clock c amount ≡ ok l'
      → IsSolvent rt ad l'.markets l'.positions l'.tokens
  unfolding liquidator_pays vault_releases write_liquidated
  liquidate-IsSolvent l clock s c amount l' wallet e =
      let (ctx, r, ctx_ok, r_ok, writes) = run_liquidate-eq-ok rt ad l clock c amount e in
      let (dm_at, dm_key, dp_key, dp_at, cm_at, cm_key, cp_key, cp_at, dv, d_owns, cv, c_owns) =
        liquidate_context-eq-ok rt ad l c ctx_ok in
      let (paid, pays, releases, dp_kept, dm_kept, dm_less, cp_has, cp_is, cm_is, cm_owed) =
        liquidate_moves rt ctx l.tokens clock amount r_ok in
      let in_keys =
        moves.credits l.tokens paid (liquidator_pays rt ctx) r.event.repaid pays
          (λ x. wallet-ne-vault l.tokens ctx.debt_market.mint wallet d_owns (x ∙ dv)) in
      let out_keys =
        moves.debits paid r.tokens (vault_releases rt ctx) r.event.seized releases
          (λ x. wallet-ne-vault l.tokens ctx.collateral_market.mint wallet c_owns (sym x ∙ cv)) in
      let gains : vault_balance rt ad paid ctx.debt_market.mint
          ≡ vault_balance rt ad l.tokens ctx.debt_market.mint + r.event.repaid =
        rw dv at in_keys in
      let gives : vault_balance rt ad paid ctx.collateral_market.mint
          ≡ vault_balance rt ad r.tokens ctx.collateral_market.mint + r.event.seized =
        rw cv at out_keys in
      rw (← writes) (
        written_twice c.borrower ctx.debt_market.mint ctx.collateral_market.mint r.debt_market
          r.collateral_market r.debt_position r.collateral_position r.event.repaid r.event.seized s
          (dm_key, dp_key, dm_at, dp_at) (cm_key, cp_key, cm_at, cp_at) (dp_kept, dm_kept, dm_less)
          (cp_has, cp_is, cm_is, cm_owed)
          (
            gains,
            transfer-SparesOthers l.tokens paid l.tokens ctx.debt_market.mint
                (liquidator_pays rt ctx) r.event.repaid wallet (inl (dv, d_owns)) pays,
          )
          (
            gives,
            transfer-SparesOthers paid r.tokens l.tokens ctx.collateral_market.mint
                (vault_releases rt ctx) r.event.seized wallet (inr (cv, c_owns)) releases,
          ))
