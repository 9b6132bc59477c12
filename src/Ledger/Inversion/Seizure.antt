-- ===== src/Ledger/Inversion/Seizure.antt =====
-- What the accounts of a `liquidate` of programs/shadow-lend/src/lib.rs that pass the checks are.
use shadowlend.Prelude.{refl, ◌≡◌, some}
use shadowlend.Result.{
  ok, market, constraint, MarketError, >>=-eq-ok, >>-eq-ok, ok-inj, require_keys_eq,
  require_keys_eq-eq-ok,
}
use shadowlend.Runtime.{Runtime}
use shadowlend.Instructions.Liquidate.{Liquidate}
use shadowlend.Ledger.{
  Addresses, Ledger, market_at, position_of, market_seed, position_seed, auth_seed, vault_seed,
}
use shadowlend.Ledger.Call.{LiquidateCall}
use shadowlend.Ledger.Execute.{liquidate_context}
use shadowlend.Ledger.Preserve.{position_of-eq-ok}
use shadowlend.Ledger.Inversion.Upkeep.{market_at-eq-ok}

module _ (rt : Runtime) (ad : Addresses rt) (l : Ledger rt) (c : LiquidateCall rt) where
  -- The accounts of a liquidation are the stored ones, at the addresses of their seeds.
  pub liquidate_context-eq-ok :
      {ctx : Liquidate rt}
      → liquidate_context rt ad l c ≡ ok ctx
      → (l.markets c.debt_market_key ≡ some ctx.debt_market)
        × (c.debt_market_key ≡ ad.find (market_seed ctx.debt_market.mint))
        × (ctx.debt_position_key ≡ ad.find (position_seed c.borrower ctx.debt_market.mint))
        × (l.positions ctx.debt_position_key ≡ some ctx.debt_position)
        × (l.markets c.collateral_market_key ≡ some ctx.collateral_market)
        × (c.collateral_market_key ≡ ad.find (market_seed ctx.collateral_market.mint))
        × (ctx.collateral_position_key
            ≡ ad.find (position_seed c.borrower ctx.collateral_market.mint))
        × (l.positions ctx.collateral_position_key ≡ some ctx.collateral_position)
        × (ctx.debt_vault ≡ ad.find (vault_seed ctx.debt_market.mint))
        × (ad.token_owner l.tokens ctx.liquidator_debt_ata ≡ c.liquidator)
        × (ctx.collateral_vault ≡ ad.find (vault_seed ctx.collateral_market.mint))
        × (ad.token_owner l.tokens ctx.liquidator_collateral_ata ≡ c.liquidator)
  unfolding liquidate_context
  liquidate_context-eq-ok {ctx} e =
      let (dm, dm_ok, e₁) = >>=-eq-ok (market_at rt ad l c.debt_market_key) _ e in
      let (dp, dp_ok, e₂) = >>=-eq-ok (position_of rt ad l c.borrower dm.mint) _ e₁ in
      let (_, e₃) =
        >>-eq-ok
          (require_keys_eq (ad.token_mint l.tokens c.liquidator_debt_ata) dm.mint
            (market MarketError.mint_mismatch))
          _ e₂ in
      let (debt_owned, e₄) =
        >>-eq-ok
          (require_keys_eq (ad.token_owner l.tokens c.liquidator_debt_ata) c.liquidator
            (market MarketError.unauthorized))
          _ e₃ in
      let (cm, cm_ok, e₅) = >>=-eq-ok (market_at rt ad l c.collateral_market_key) _ e₄ in
      let (cp, cp_ok, e₆) = >>=-eq-ok (position_of rt ad l c.borrower cm.mint) _ e₅ in
      let (_, e₇) =
        >>-eq-ok (require_keys_eq cm.authority_bump (ad.bump (auth_seed cm.mint)) constraint) _
          e₆ in
      let (_, e₈) =
        >>-eq-ok
          (require_keys_eq (ad.token_mint l.tokens c.liquidator_collateral_ata) cm.mint
            (market MarketError.mint_mismatch))
          _ e₇ in
      let (collat_owned, e₉) =
        >>-eq-ok
          (require_keys_eq (ad.token_owner l.tokens c.liquidator_collateral_ata) c.liquidator
            (market MarketError.unauthorized))
          _ e₈ in
      let (dm_at, dm_key) = market_at-eq-ok rt ad l c.debt_market_key dm_ok in
      let (cm_at, cm_key) = market_at-eq-ok rt ad l c.collateral_market_key cm_ok in
      let dp_at = position_of-eq-ok rt ad l c.borrower dm.mint dp_ok in
      let cp_at = position_of-eq-ok rt ad l c.borrower cm.mint cp_ok in
      let debt_owner = require_keys_eq-eq-ok _ _ _ debt_owned in
      let collat_owner = require_keys_eq-eq-ok _ _ _ collat_owned in
      rw (← ok-inj e₉) (
        dm_at, dm_key, refl, dp_at, cm_at, cm_key, refl, cp_at, refl, debt_owner, refl,
        collat_owner,
      )
