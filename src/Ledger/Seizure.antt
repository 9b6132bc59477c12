-- ===== src/Ledger/Seizure.antt =====
-- `liquidate` of programs/shadow-lend/src/lib.rs on the ledger.
pub mod Outcome
pub mod Underwater
pub mod Shortfall
use mathlib.Core.Option.{some-injective}
use shadowlend.Prelude.{ℕ, ◌-◌, ◌≡◌, ap, sym, ◌∙◌, inl, inr, some, arith, min}
use shadowlend.Result.{ok}
use shadowlend.State.{Pubkey, Market, Position, Clock}
use shadowlend.Runtime.{Runtime}
use shadowlend.Interest.{accrue_market, accrue_position}
use shadowlend.Instructions.Liquidate.{Liquidate, Liquidated, liquidate}
use shadowlend.Instructions.Liquidate.Effect.{liquidate_run, settle_effect}
use shadowlend.Ledger.{Addresses, AddressLaws, Ledger, put, market_seed, position_seed}
use shadowlend.Ledger.Call.{LiquidateCall}
use shadowlend.Ledger.Execute.{write_liquidated, run_liquidate}
use shadowlend.Ledger.Sound.{
  Evolves, IsMarket, IsPosition, IsSound, put_market-IsSound, put_position-IsSound, put_here,
  put_elsewhere, eq_or_ne,
}
use shadowlend.Ledger.Preserve.{accrue_market-Evolves, accrue_position-IsPosition, stored_position}
use shadowlend.Ledger.Inversion.Upkeep.{run_liquidate-eq-ok}
use shadowlend.Ledger.Inversion.Seizure.{liquidate_context-eq-ok}

module _ (rt : Runtime) (ctx : Liquidate rt) (tokens : rt.Tokens) (clock : Clock) (amount : ℕ)
    {r : Liquidated rt.Tokens} where
  -- The four accounts that a liquidation leaves.
  pub liquidate_leaves :
      liquidate rt ctx tokens clock amount ≡ ok r
      → let dm = accrue_market ctx.debt_market clock in
        let cm = accrue_market ctx.collateral_market clock in
        let dp = accrue_position ctx.debt_position dm in
        let cp = accrue_position ctx.collateral_position cm in
        (r.event.repaid ≡ min amount dp.borrowed)
        × (r.debt_position ≡ record dp { borrowed = dp.borrowed - r.event.repaid })
        × (r.collateral_position ≡ record cp { supplied = cp.supplied - r.event.seized })
        × (r.debt_market ≡ record dm { total_borrowed = dm.total_borrowed - r.event.repaid })
        × (r.collateral_market ≡ record cm { total_supplied = cm.total_supplied - r.event.seized })
  liquidate_leaves e =
      let (debt_price, collat_price, _, _, _, _, _, _, _, settles) =
        liquidate_run rt ctx clock tokens amount e in
      let (_, repaid, _, _, _, _, _, dp, cp, dm, cm) =
        settle_effect rt ctx _ _ _ _ debt_price collat_price tokens amount settles in
      (repaid, dp, cp, dm, cm)

module _ (rt : Runtime) (ad : Addresses rt) (ctx : Liquidate rt) (tokens : rt.Tokens)
    (clock : Clock) (amount : ℕ) {user dmint cmint : Pubkey} (r : Liquidated rt.Tokens) where
  -- A liquidation keeps the terms of both markets and both positions.
  liquidate_keeps :
      IsMarket rt ad dmint ctx.debt_market
      → IsPosition rt ad user dmint ctx.debt_market ctx.debt_position
      → IsMarket rt ad cmint ctx.collateral_market
      → IsPosition rt ad user cmint ctx.collateral_market ctx.collateral_position
      → liquidate rt ctx tokens clock amount ≡ ok r
      → (Evolves ctx.debt_market r.debt_market)
        × (IsPosition rt ad user dmint r.debt_market r.debt_position)
        × (Evolves ctx.collateral_market r.collateral_market)
        × (IsPosition rt ad user cmint r.collateral_market r.collateral_position)
        × (ctx.debt_market ≡ ctx.collateral_market → Evolves r.debt_market r.collateral_market)
  liquidate_keeps dm_terms dp_terms cm_terms cp_terms e =
      let (_, dp_is, cp_is, dm_is, cm_is) = liquidate_leaves rt ctx tokens clock amount e in
      let dm_ev = accrue_market-Evolves ctx.debt_market clock dm_terms.index_bound in
      let cm_ev = accrue_market-Evolves ctx.collateral_market clock cm_terms.index_bound in
      let dp_ev = accrue_position-IsPosition rt ad dp_terms dm_ev in
      let cp_ev = accrue_position-IsPosition rt ad cp_terms cm_ev in
      rw (dp_is, cp_is, dm_is, cm_is)
        (
          ground (arith, dm_ev),
          ground (arith, dp_ev),
          ground (arith, cm_ev),
          ground (arith, cp_ev),
          λ one.
              let same = ap (λ (m : Market). accrue_market m clock) one in
              ground (arith, dm_ev, same),
        )

module _ (rt : Runtime) (ad : Addresses rt) (laws : AddressLaws rt ad) (l : Ledger rt)
    (clock : Clock) (s : IsSound rt ad l.markets l.positions) where
  -- The collateral market is stored after the debt market, also where they are one.
  pub put_market-Evolves :
      {dm cm dm' cm' : Market} {dk ck : Pubkey}
      → l.markets dk ≡ some dm
      → l.markets ck ≡ some cm
      → Evolves cm cm'
      → (dm ≡ cm → Evolves dm' cm')
      → (x : Market) × (put l.markets dk dm' ck ≡ some x) × Evolves x cm'
  put_market-Evolves {dm} {cm} {dm'} {cm'} {dk} {ck} dm_at cm_at ev both = elim (eq_or_ne ck dk) [
    | inl same ↦
        let one = some-injective _ _ (sym dm_at ∙ ap l.markets (sym same) ∙ cm_at) in
        (dm', rw same (put_here l.markets dk dm'), both one)
    | inr apart ↦ (cm, put_elsewhere l.markets dk dm' ck apart ∙ cm_at, ev)
  ]

  -- Writing two later markets and a position of each keeps the ledger sound.
  written_twice :
      {user dmint cmint dk ck dpk cpk : Pubkey} {dm cm dm' cm' : Market} {dp cp : Position}
      → (dk ≡ ad.find (market_seed dmint)) × (dpk ≡ ad.find (position_seed user dmint))
      → (ck ≡ ad.find (market_seed cmint)) × (cpk ≡ ad.find (position_seed user cmint))
      → (l.markets dk ≡ some dm) × Evolves dm dm' × IsPosition rt ad user dmint dm' dp
      → (l.markets ck ≡ some cm) × Evolves cm cm' × IsPosition rt ad user cmint cm' cp
      → (dm ≡ cm → Evolves dm' cm')
      → IsSound rt ad (put (put l.markets dk dm') ck cm') (put (put l.positions dpk dp) cpk cp)
  written_twice {dk = dk} {ck = ck} {dm' = dm'} {cm' = cm'} (dk_is, dpk_is) (ck_is, cpk_is)
        (dm_at, dm_ev, dp_is) (cm_at, cm_ev, cp_is) both =
      let (x, x_at, x_ev) = put_market-Evolves dm_at cm_at cm_ev both in
      let first = put_market-IsSound rt ad laws s (rw dk_is at dm_at) dm_ev in
      let second =
        put_position-IsSound rt ad laws first (put_here l.markets (ad.find (market_seed _)) dm')
          dp_is in
      let third = put_market-IsSound rt ad laws second (rw (dk_is, ck_is) at x_at) x_ev in
      let fourth =
        put_position-IsSound rt ad laws third (put_here _ (ad.find (market_seed _)) cm') cp_is in
      rw (dk_is, ck_is, dpk_is, cpk_is) fourth

  -- What a liquidation has written keeps the terms of both markets and both positions.
  pub run_liquidate_keeps :
      (c : LiquidateCall rt) (amount : ℕ) (l' : Ledger rt)
      → run_liquidate rt ad l clock c amount ≡ ok l'
      → (ctx : Liquidate rt) × (r : Liquidated rt.Tokens) × (write_liquidated rt ad l c ctx r ≡ l')
        × ((c.debt_market_key ≡ ad.find (market_seed ctx.debt_market.mint))
            × (ctx.debt_position_key ≡ ad.find (position_seed c.borrower ctx.debt_market.mint)))
        × ((c.collateral_market_key ≡ ad.find (market_seed ctx.collateral_market.mint))
            × (ctx.collateral_position_key
                ≡ ad.find (position_seed c.borrower ctx.collateral_market.mint)))
        × ((l.markets c.debt_market_key ≡ some ctx.debt_market)
            × Evolves ctx.debt_market r.debt_market
            × IsPosition rt ad c.borrower ctx.debt_market.mint r.debt_market r.debt_position)
        × ((l.markets c.collateral_market_key ≡ some ctx.collateral_market)
            × Evolves ctx.collateral_market r.collateral_market
            × IsPosition rt ad c.borrower ctx.collateral_market.mint r.collateral_market
                r.collateral_position)
        × (ctx.debt_market ≡ ctx.collateral_market → Evolves r.debt_market r.collateral_market)
  run_liquidate_keeps c amount l' e =
      let (ctx, r, ctx_ok, r_ok, writes) = run_liquidate-eq-ok rt ad l clock c amount e in
      let (dm_at, dm_key, dp_key, dp_at, cm_at, cm_key, cp_key, cp_at, _, _, _, _) =
        liquidate_context-eq-ok rt ad l c ctx_ok in
      let dm_terms = s.market ctx.debt_market.mint ctx.debt_market (rw dm_key at dm_at) in
      let cm_terms =
        s.market ctx.collateral_market.mint ctx.collateral_market (rw cm_key at cm_at) in
      let dp_terms =
        stored_position rt ad l s c.borrower ctx.debt_market.mint (rw dm_key at dm_at)
          (rw dp_key at dp_at) in
      let cp_terms =
        stored_position rt ad l s c.borrower ctx.collateral_market.mint (rw cm_key at cm_at)
          (rw cp_key at cp_at) in
      let (dm_ev, dp_new, cm_ev, cp_new, both) =
        liquidate_keeps rt ad ctx l.tokens clock amount r dm_terms dp_terms cm_terms cp_terms
          r_ok in
      (
        ctx,
        r,
        writes,
        (dm_key, dp_key),
        (cm_key, cp_key),
        (dm_at, dm_ev, dp_new),
        (cm_at, cm_ev, cp_new),
        both,
      )

  pub liquidate-IsSound :
      (c : LiquidateCall rt) (amount : ℕ) (l' : Ledger rt)
      → run_liquidate rt ad l clock c amount ≡ ok l'
      → IsSound rt ad l'.markets l'.positions
  unfolding write_liquidated
  liquidate-IsSound c amount l' e =
      let (ctx, r, writes, debt_keys, collat_keys, debt, collat, both) =
        run_liquidate_keeps c amount l' e in
      rw (← writes) (written_twice debt_keys collat_keys debt collat both)
