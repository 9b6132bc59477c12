-- ===== src/Ledger/Seizure/Outcome.antt =====
-- About the accounts that `liquidate` of programs/shadow-lend/src/lib.rs leaves on the ledger.
use shadowlend.Prelude.{ℕ, ◌-◌, ◌≤◌, ◌<◌, ◌≡◌, ◌≢◌, ap, sym, ◌∙◌, arith, some, min}
use shadowlend.Result.{ok}
use shadowlend.State.{Pubkey, Clock}
use shadowlend.Runtime.{Runtime}
use shadowlend.Instructions.Liquidate.{Liquidate, Liquidated, liquidator_pays, vault_releases}
use shadowlend.Instructions.Liquidate.Effect.{
  seize_for-le, settle_effect, liquidate_run, debt_market, collateral_market, debt, collateral,
}
use shadowlend.Ledger.{Addresses, AddressLaws, Ledger, market_seed}
use shadowlend.Ledger.Call.{LiquidateCall}
use shadowlend.Ledger.Execute.{liquidate_context, run_liquidate, write_liquidated}
use shadowlend.Ledger.Inversion.Upkeep.{run_liquidate-eq-ok}
use shadowlend.Ledger.Inversion.Seizure.{liquidate_context-eq-ok}
use shadowlend.Ledger.Sound.{put_here, put_elsewhere, position_seed-inj}

module _ (rt : Runtime) (ad : Addresses rt) (l : Ledger rt) (clock : Clock) (c : LiquidateCall rt)
    (amount : ℕ) where
  -- The tokens, markets and positions of a ledger after a liquidation. The accounts of `ctx` are those
  -- stored before, and `debt`, `collateral` and the two markets have their interest up to the clock.
  pub record IsLiquidated (l' : Ledger rt) : Type 0 where
    pub ctx : Liquidate rt
    pub repaid : ℕ
    pub seized : ℕ
    pub paid : rt.Tokens
    pub accounts : liquidate_context rt ad l c ≡ ok ctx
    pub pays : rt.transfer l.tokens (liquidator_pays rt ctx) repaid ≡ some paid
    pub releases : rt.transfer paid (vault_releases rt ctx) seized ≡ some l'.tokens
    pub repays : repaid ≡ min amount (debt rt ctx clock).borrowed
    pub seizes : 0 < seized
    pub holds : seized ≤ (collateral rt ctx clock).supplied
    pub debt_position :
        l'.positions ctx.debt_position_key
        ≡ some (record (debt rt ctx clock) { borrowed = (debt rt ctx clock).borrowed - repaid })
    pub collateral_position :
        l'.positions ctx.collateral_position_key
        ≡ some (record (collateral rt ctx clock) {
          supplied = (collateral rt ctx clock).supplied - seized;
        })
    pub debt_side :
        l'.markets c.debt_market_key
        ≡ some (record (debt_market rt ctx clock) {
          total_borrowed = (debt_market rt ctx clock).total_borrowed - repaid;
        })
    pub collateral_side :
        l'.markets c.collateral_market_key
        ≡ some (record (collateral_market rt ctx clock) {
          total_supplied = (collateral_market rt ctx clock).total_supplied - seized;
        })
    pub others :
        (k : Pubkey)
        → k ≢ ctx.debt_position_key
        → k ≢ ctx.collateral_position_key
        → l'.positions k ≡ l.positions k

  pub write_liquidated-others :
      (ctx : Liquidate rt) (r : Liquidated rt.Tokens) (k : Pubkey)
      → k ≢ ctx.debt_position_key
      → k ≢ ctx.collateral_position_key
      → (write_liquidated rt ad l c ctx r).positions k ≡ l.positions k
  unfolding write_liquidated
  write_liquidated-others ctx r k a b =
      put_elsewhere _ ctx.collateral_position_key _ k b
      ∙ put_elsewhere l.positions ctx.debt_position_key _ k a

  module _ (laws : AddressLaws rt ad) (apart : c.debt_market_key ≢ c.collateral_market_key)
      (ctx : Liquidate rt) (ctx_ok : liquidate_context rt ad l c ≡ ok ctx) where
    -- Two markets have two positions.
    positions_apart : ctx.debt_position_key ≢ ctx.collateral_position_key
    positions_apart one =
        let (_, dm_key, dp_key, _, _, cm_key, cp_key, _, _, _, _, _) =
          liquidate_context-eq-ok rt ad l c ctx_ok in
        let seeds = position_seed-inj (laws.find_injective _ _ (sym dp_key ∙ one ∙ cp_key)) in
        apart (dm_key ∙ ap (λ m. ad.find (market_seed m)) (seeds.1) ∙ sym cm_key)

    pub write_liquidated_lem :
        (r : Liquidated rt.Tokens)
        → let l' = write_liquidated rt ad l c ctx r in
          (l'.positions ctx.debt_position_key ≡ some r.debt_position)
          × (l'.positions ctx.collateral_position_key ≡ some r.collateral_position)
          × (l'.markets c.debt_market_key ≡ some r.debt_market)
          × (l'.markets c.collateral_market_key ≡ some r.collateral_market)
    unfolding write_liquidated
    write_liquidated_lem r = (
      put_elsewhere _ ctx.collateral_position_key _ ctx.debt_position_key positions_apart
          ∙ put_here l.positions ctx.debt_position_key r.debt_position,
      put_here _ ctx.collateral_position_key r.collateral_position,
      put_elsewhere _ c.collateral_market_key _ c.debt_market_key apart
          ∙ put_here l.markets c.debt_market_key r.debt_market,
      put_here _ c.collateral_market_key r.collateral_market,
    )

  -- After a liquidation that succeeds, with two different markets and addresses that differ where the
  -- seeds do: the tokens repaid, the lesser of the offer and the accrued debt, are transferred to the
  -- debt vault's address, and then those seized, more than nothing and at most the accrued collateral,
  -- from the collateral vault's; the stored debt is the accrued debt less exactly what is repaid, the
  -- stored collateral the accrued one less exactly what is seized, the markets' totals are less by as
  -- much or nothing is left of them, no other field of the accrued accounts is changed, and no other
  -- position on the ledger is.
  pub run_liquidate-IsLiquidated :
      {l' : Ledger rt}
      → AddressLaws rt ad
      → c.debt_market_key ≢ c.collateral_market_key
      → run_liquidate rt ad l clock c amount ≡ ok l'
      → IsLiquidated l'
  unfolding write_liquidated
  run_liquidate-IsLiquidated laws apart e =
      let (ctx, r, ctx_ok, r_ok, writes) = run_liquidate-eq-ok rt ad l clock c amount e in
      let (dp_price, cp_price, _, _, _, _, _, _, _, settles) =
        liquidate_run rt ctx clock l.tokens amount r_ok in
      let (paid, repaid, seizes, some_seized, _, pays, releases, dp, cp, dm, cm) =
        settle_effect rt ctx _ _ _ _ dp_price cp_price l.tokens amount settles in
      let k = collateral rt ctx clock in
      let (_, _, _, _, capped) =
        seize_for-le r.event.repaid dp_price (debt rt ctx clock).decimals cp_price k.decimals
          k.supplied seizes in
      let (dp_at, cp_at, dm_at, cm_at) = write_liquidated_lem laws apart ctx ctx_ok r in
      rw (← writes) (record {
        ctx = ctx;
        repaid = r.event.repaid;
        seized = r.event.seized;
        paid = paid;
        accounts = ctx_ok;
        pays = pays;
        releases = releases;
        repays = repaid;
        seizes = some_seized;
        holds = omega (arith, capped);
        debt_position = dp_at ∙ ap some dp;
        collateral_position = cp_at ∙ ap some cp;
        debt_side = dm_at ∙ ap some dm;
        collateral_side = cm_at ∙ ap some cm;
        others = write_liquidated-others ctx r;
      })
