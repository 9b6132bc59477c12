-- ===== src/Ledger/Seizure/Underwater.antt =====
-- About whose collateral `liquidate` of programs/shadow-lend/src/lib.rs takes, on the ledger.
use shadowlend.Prelude.{ℕ, ◌+◌, ◌<◌, ◌≡◌, ◌≢◌, arith, some, List, [], ◌∷◌}
use shadowlend.Machine.{clamp_u128}
use shadowlend.Result.{ok, >>=-eq-ok}
use shadowlend.State.{Market, Position, Price, Clock}
use shadowlend.Runtime.{Runtime}
use shadowlend.Interest.{accrue_market, accrue_position}
use shadowlend.Health.{Totals, no_totals, accumulate_position, fresh_price}
use shadowlend.Health.Sums.{accumulate_position-IsInRange}
use shadowlend.Health.Worth.{IsWorth, accumulate_position-IsWorth}
use shadowlend.Health.Walk.{contributions, sum_collat, sum_debt, accumulate_remaining_skip-counts}
use shadowlend.Instructions.Liquidate.{Liquidate, liquidation_totals}
use shadowlend.Instructions.Liquidate.Effect.{liquidate_run, collateral_market}
use shadowlend.Instructions.Liquidate.Bounds.{liquidate_amounts}
use shadowlend.Instructions.Liquidate.Cover.{clamp_u128-sum}
use shadowlend.Ledger.{Addresses, Ledger, position_seed}
use shadowlend.Ledger.Call.{LiquidateCall}
use shadowlend.Ledger.Execute.{liquidate_context, run_liquidate, write_liquidated}
use shadowlend.Ledger.Inversion.Upkeep.{run_liquidate-eq-ok}
use shadowlend.Ledger.Inversion.Seizure.{liquidate_context-eq-ok}
use shadowlend.Ledger.Sound.{put_here}

accrue_market-terms : (m : Market) (clock : Clock) → (accrue_market m clock).feed_id ≡ m.feed_id
unfolding accrue_market
accrue_market-terms m clock = ground arith

accrue_position-supplied : (p : Position) (m : Market) → (accrue_position p m).supplied ≡ p.supplied
unfolding accrue_position
accrue_position-supplied p m = ground arith

module _ (rt : Runtime) (ad : Addresses rt) (l : Ledger rt) (c : LiquidateCall rt) where
  -- What the accounts of a liquidation take over from its call.
  liquidate_context-named :
      {ctx : Liquidate rt}
      → liquidate_context rt ad l c ≡ ok ctx
      → (ctx.borrower ≡ c.borrower)
        × (ctx.liquidator ≡ c.liquidator)
        × (ctx.debt_price_update ≡ c.debt_price_update)
        × (ctx.collateral_price_update ≡ c.collateral_price_update)
        × (ctx.remaining_accounts ≡ c.remaining_accounts)
  unfolding liquidate_context
  liquidate_context-named e = ground arith

clamp_u128-lt : (a b : ℕ) → clamp_u128 a < clamp_u128 b → a < b
unfolding clamp_u128
clamp_u128-lt a b h = ground arith

module _ (rt : Runtime) (ad : Addresses rt) (l : Ledger rt) (clock : Clock)
    (c : LiquidateCall rt) where
  -- The borrower's stored collateral has fallen, and before it the stored positions of the call's two
  -- markets with their interest, and the listed accounts, at fresh prices, count for more debt than
  -- collateral at its limits.
  pub record IsUnderwater (l' : Ledger rt) : Type 0 where
    pub dm : Market
    pub cm : Market
    pub dp : Position
    pub cp : Position
    pub left : Position
    pub debt_price : Price
    pub collat_price : Price
    pub debt_collat : ℕ
    pub debt_owed : ℕ
    pub collat_collat : ℕ
    pub collat_owed : ℕ
    pub listed : List Totals
    pub debt_market : l.markets c.debt_market_key ≡ some dm
    pub collateral_market : l.markets c.collateral_market_key ≡ some cm
    pub debt_position : l.positions (ad.find (position_seed c.borrower dm.mint)) ≡ some dp
    pub collateral_position : l.positions (ad.find (position_seed c.borrower cm.mint)) ≡ some cp
    pub other : c.liquidator ≢ c.borrower
    pub debt_fresh : fresh_price rt c.debt_price_update clock dm.feed_id ≡ ok debt_price
    pub collat_fresh : fresh_price rt c.collateral_price_update clock cm.feed_id ≡ ok collat_price
    pub debt_worth :
        IsWorth debt_price (accrue_position dp (accrue_market dm clock)) debt_collat debt_owed
    pub collat_worth :
        IsWorth collat_price (accrue_position cp (accrue_market cm clock)) collat_collat collat_owed
    pub lists :
        contributions rt c.borrower
          (ad.find (position_seed c.borrower dm.mint)
            ∷ ad.find (position_seed c.borrower cm.mint)
            ∷ [])
          clock
          c.remaining_accounts
        ≡ ok listed
    pub exceeds :
        debt_collat + collat_collat + sum_collat listed < debt_owed + collat_owed + sum_debt listed
    pub remains : l'.positions (ad.find (position_seed c.borrower cm.mint)) ≡ some left
    pub falls : left.supplied < cp.supplied

  -- The totals of a liquidation are those of both positions and the listed accounts, each counted on
  -- its own, and clamped to a u128.
  liquidation_totals-IsWorth :
      (ctx : Liquidate rt) (dp cp : Position) (debt_price collat_price : Price) {t : Totals}
      → liquidation_totals rt ctx dp cp debt_price collat_price clock ≡ ok t
      → (a x b y : ℕ) × (cs : List Totals) × IsWorth debt_price dp a x
        × IsWorth collat_price cp b y
        × (contributions rt ctx.borrower
              (ctx.debt_position_key ∷ ctx.collateral_position_key ∷ [])
              clock
              ctx.remaining_accounts
            ≡ ok cs)
        × (t.collat_at_ltv ≡ clamp_u128 (a + b + sum_collat cs))
        × (t.debt ≡ clamp_u128 (x + y + sum_debt cs))
  unfolding liquidation_totals
  liquidation_totals-IsWorth ctx dp cp debt_price collat_price e =
      let (t₁, first, e₁) =
        >>=-eq-ok
          (accumulate_position dp.supplied dp.borrowed debt_price dp.decimals dp.max_ltv_bps
            no_totals)
          _ e in
      let (t₂, second, walks) =
        >>=-eq-ok
          (accumulate_position cp.supplied cp.borrowed collat_price cp.decimals cp.max_ltv_bps t₁) _
          e₁ in
      let (a, x, d, is₁) = accumulate_position-IsWorth debt_price dp no_totals first in
      let (b, y, k, is₂) = accumulate_position-IsWorth collat_price cp t₁ second in
      let range = accumulate_position-IsInRange _ _ collat_price _ _ t₁ second in
      let (cs, adds, is) =
        accumulate_remaining_skip-counts rt ctx.borrower
          (ctx.debt_position_key ∷ ctx.collateral_position_key ∷ []) clock ctx.remaining_accounts t₂
          range walks in
      (
        a,
        x,
        b,
        y,
        cs,
        d,
        k,
        adds,
        rw (is, is₂, is₁) (clamp_u128-sum a b (sum_collat cs)),
        rw (is, is₂, is₁) (clamp_u128-sum x y (sum_debt cs)),
      )

  -- A liquidation that succeeds on a ledger is by another wallet than the borrower's, lowers the
  -- borrower's stored collateral, and finds the borrower under water: the debts of the two stored
  -- positions with their interest and of the listed accounts that are not those two, each valued on its
  -- own at a fresh price, sum to more than their collaterals at the limits, exactly and with no
  -- saturation of the sums. An account counts as often as the liquidator lists it, and not where it is
  -- not listed; with one market on both sides its position is counted twice.
  pub run_liquidate-IsUnderwater :
      (amount : ℕ) {l' : Ledger rt} → run_liquidate rt ad l clock c amount ≡ ok l' → IsUnderwater l'
  unfolding write_liquidated
  run_liquidate-IsUnderwater amount e =
      let (ctx, r, ctx_ok, r_ok, writes) = run_liquidate-eq-ok rt ad l clock c amount e in
      let (dm_at, _, dp_key, dp_at, cm_at, _, cp_key, cp_at, _, _, _, _) =
        liquidate_context-eq-ok rt ad l c ctx_ok in
      let (user, liquidator, debt_update, collat_update, ras) =
        liquidate_context-named rt ad l c ctx_ok in
      let (debt_price, collat_price, t, _, apart, debt_fresh, collat_fresh, sums, under, _) =
        liquidate_run rt ctx clock l.tokens amount r_ok in
      let (a, x, b, y, cs, debt_worth, collat_worth, lists, collat_is, debt_is) =
        liquidation_totals-IsWorth ctx _ _ debt_price collat_price sums in
      let amounts = liquidate_amounts rt ctx l.tokens clock amount r_ok in
      let same =
        accrue_position-supplied ctx.collateral_position (collateral_market rt ctx clock) in
      record {
        dm = ctx.debt_market;
        cm = ctx.collateral_market;
        dp = ctx.debt_position;
        cp = ctx.collateral_position;
        left = r.collateral_position;
        debt_price = debt_price;
        collat_price = collat_price;
        debt_collat = a;
        debt_owed = x;
        collat_collat = b;
        collat_owed = y;
        listed = cs;
        debt_market = dm_at;
        collateral_market = cm_at;
        debt_position = rw dp_key at dp_at;
        collateral_position = rw cp_key at cp_at;
        other = rw (user, liquidator) at apart;
        debt_fresh = rw (accrue_market-terms ctx.debt_market clock, debt_update) at debt_fresh;
        collat_fresh =
            rw (accrue_market-terms ctx.collateral_market clock, collat_update) at collat_fresh;
        debt_worth = debt_worth;
        collat_worth = collat_worth;
        lists = rw (user, ras, dp_key, cp_key) at lists;
        exceeds = clamp_u128-lt _ _ (rw (collat_is, debt_is) at under);
        remains =
            rw (← writes)
              (rw (← cp_key) (put_here _ ctx.collateral_position_key r.collateral_position));
        falls = omega (arith, same, amounts);
      }
