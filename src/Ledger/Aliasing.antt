-- ===== src/Ledger/Aliasing.antt =====
-- `liquidate` of programs/shadow-lend/src/lib.rs with one market on both sides.
use mathlib.Core.Option.{some-injective}
use shadowlend.Prelude.{refl, ℕ, ◌≡◌, ap, sym, ◌∙◌, some, min}
use shadowlend.Result.{ok}
use shadowlend.State.{Market, Position, Clock}
use shadowlend.Runtime.{Runtime}
use shadowlend.Interest.{accrue_market, accrue_position}
use shadowlend.Instructions.Liquidate.{Liquidate, Liquidated, liquidate}
use shadowlend.Ledger.{Addresses, Ledger, put, position_seed}
use shadowlend.Ledger.Call.{LiquidateCall}
use shadowlend.Ledger.Execute.{liquidate_context, write_liquidated, run_liquidate}
use shadowlend.Ledger.Sound.{put_here}
use shadowlend.Ledger.Inversion.Upkeep.{run_liquidate-eq-ok}
use shadowlend.Ledger.Inversion.Seizure.{liquidate_context-eq-ok}
use shadowlend.Ledger.Seizure.{liquidate_leaves}

overwritten :
    (rt : Runtime) (ad : Addresses rt) (l : Ledger rt) (clock : Clock) (c : LiquidateCall rt)
    (amount : ℕ) (ctx : Liquidate rt) (r : Liquidated rt.Tokens) {l' : Ledger rt}
    → c.debt_market_key ≡ c.collateral_market_key
    → liquidate_context rt ad l c ≡ ok ctx
    → liquidate rt ctx l.tokens clock amount ≡ ok r
    → write_liquidated rt ad l c ctx r ≡ l'
    → let p = accrue_position ctx.debt_position (accrue_market ctx.debt_market clock) in
      (p' : Position) × (l'.positions ctx.debt_position_key ≡ some p')
      × (p'.borrowed ≡ p.borrowed)
      × (r.event.repaid ≡ min amount p.borrowed)
unfolding write_liquidated
overwritten rt ad l clock c amount ctx r one ctx_ok r_ok writes =
    let (dm_at, dm_key, dp_key, dp_at, cm_at, cm_key, cp_key, cp_at, _, _, _, _) =
      liquidate_context-eq-ok rt ad l c ctx_ok in
    let (repaid, _, cp_is, _, _) = liquidate_leaves rt ctx l.tokens clock amount r_ok in
    let same_market : ctx.debt_market ≡ ctx.collateral_market =
      some-injective _ _ (sym dm_at ∙ ap l.markets one ∙ cm_at) in
    let same_key : ctx.debt_position_key ≡ ctx.collateral_position_key =
      dp_key
      ∙ ap (λ (m : Market). ad.find (position_seed c.borrower m.mint)) same_market
      ∙ sym cp_key in
    let same_position : ctx.debt_position ≡ ctx.collateral_position =
      some-injective _ _ (sym dp_at ∙ ap l.positions same_key ∙ cp_at) in
    (
      r.collateral_position,
      rw (← writes) (
          ap
            (put (put l.positions ctx.debt_position_key r.debt_position) ctx.collateral_position_key
              r.collateral_position)
            same_key
          ∙ put_here (put l.positions ctx.debt_position_key r.debt_position)
              ctx.collateral_position_key r.collateral_position),
      rw (cp_is, same_position, same_market) refl,
      repaid,
    )

-- A liquidation that names one market for both sides, and succeeds, leaves the borrower's stored
-- debt as it was with the interest added, though the liquidator's transaction reports a repayment of
-- the lesser of the offer and that debt.
pub liquidate_same_market :
    (rt : Runtime) (ad : Addresses rt) (l : Ledger rt) (clock : Clock) (c : LiquidateCall rt)
    (amount : ℕ) {l' : Ledger rt}
    → c.debt_market_key ≡ c.collateral_market_key
    → run_liquidate rt ad l clock c amount ≡ ok l'
    → (ctx : Liquidate rt) × (r : Liquidated rt.Tokens) × (liquidate_context rt ad l c ≡ ok ctx)
      × (liquidate rt ctx l.tokens clock amount ≡ ok r)
      × let p = accrue_position ctx.debt_position (accrue_market ctx.debt_market clock) in
        (p' : Position) × (l'.positions ctx.debt_position_key ≡ some p')
        × (p'.borrowed ≡ p.borrowed)
        × (r.event.repaid ≡ min amount p.borrowed)
liquidate_same_market rt ad l clock c amount {l'} one e =
    let (ctx, r, ctx_ok, r_ok, writes) = run_liquidate-eq-ok rt ad l clock c amount e in
    (ctx, r, ctx_ok, r_ok, overwritten rt ad l clock c amount ctx r one ctx_ok r_ok writes)
