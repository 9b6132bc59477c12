-- ===== src/Instructions/Liquidate/Shortfall.antt =====
-- About the worth of a borrower's two positions after `settle`, the second half of `liquidate` of
-- programs/shadow-lend/src/lib.rs.
use shadowlend.Prelude.{ℕ, ◌+◌, ◌-◌, ◌≤◌, ◌≡◌, refl, ap, arith}
use shadowlend.Machine.{u64_max}
use shadowlend.Result.{ok}
use shadowlend.State as State
use shadowlend.State.{Market, Position, Price}
use shadowlend.Runtime.{Runtime}
use shadowlend.Interest.{accrue_position}
use shadowlend.Interest.Debt.{accrue_position_lem}
use shadowlend.Pricing.Worth.{IsScaled, worth, token_usd_8dp-worth}
use shadowlend.Health.{at_ltv}
use shadowlend.Health.Worth.{IsWorth}
use shadowlend.Instructions.Liquidate.{Liquidate, Liquidated, settle}
use shadowlend.Instructions.Liquidate.Effect.{seize_for-le, settle_effect}
use shadowlend.Instructions.Liquidate.Cover.{seize_for-covered}

-- Amounts of a u64.
abbrev pub Fits : Position → Type 0
Fits p = (p.supplied ≤ u64_max) × (p.borrowed ≤ u64_max)

pub accrue_position-Fits :
    (p : Position) (m : Market) → State.IsInRange p → Fits (accrue_position p m)
accrue_position-Fits p m h =
    let (_, fits, same) = accrue_position_lem p m h.borrowed in
    (rw (ap (λ q. q.supplied) same) (h.supplied), fits)

-- Two positions at their prices, before and after: the debt exceeds the collateral at the limits by
-- at most one unit more.
pub record IsSpared (debt_price collat_price : Price) (d k d' k' : Position) : Type 0 where
  pub debt_collat : ℕ
  pub debt_owed : ℕ
  pub collat_collat : ℕ
  pub collat_owed : ℕ
  pub debt_collat' : ℕ
  pub debt_owed' : ℕ
  pub collat_collat' : ℕ
  pub collat_owed' : ℕ
  pub debt_before : IsWorth debt_price d debt_collat debt_owed
  pub collat_before : IsWorth collat_price k collat_collat collat_owed
  pub debt_after : IsWorth debt_price d' debt_collat' debt_owed'
  pub collat_after : IsWorth collat_price k' collat_collat' collat_owed'
  pub shortfall :
      debt_collat + collat_collat + (debt_owed' + collat_owed')
      ≤ debt_collat' + collat_collat' + (debt_owed + collat_owed) + 1

module _ (price : Price) (p : Position) (n : ℕ) (h : IsScaled price p.decimals n)
    (fits : Fits p) where
  position-IsWorth :
      IsWorth price p (at_ltv (worth price n p.supplied) p.max_ltv_bps) (worth price n p.borrowed)
  position-IsWorth = record {
    held = worth price n p.supplied;
    holds = token_usd_8dp-worth price p.decimals n h p.supplied fits.0;
    limited = refl;
    owes = token_usd_8dp-worth price p.decimals n h p.borrowed fits.1;
  }

module _ (rt : Runtime) (ctx : Liquidate rt) (dm cm : Market) (dp cp : Position)
    (debt_price collat_price : Price) (n k : ℕ) (tokens : rt.Tokens) (repay_amount : ℕ) where
  pub settle-IsSpared :
      {r : Liquidated rt.Tokens}
      → Fits dp
      → Fits cp
      → IsScaled debt_price dp.decimals n
      → IsScaled collat_price cp.decimals k
      → cp.max_ltv_bps ≤ 9500
      → settle rt ctx dm cm dp cp debt_price collat_price tokens repay_amount ≡ ok r
      → IsSpared debt_price collat_price dp cp r.debt_position r.collateral_position
  settle-IsSpared {r} dp_fits cp_fits d c low e =
      let (_, pays, seizes, _, _, _, _, dp_is, cp_is, _, _) =
        settle_effect rt ctx dm cm dp cp debt_price collat_price tokens repay_amount e in
      let (_, _, _, _, capped) =
        seize_for-le r.event.repaid debt_price dp.decimals collat_price cp.decimals cp.supplied
          seizes in
      let covered =
        seize_for-covered r.event.repaid dp.borrowed cp.supplied cp.max_ltv_bps debt_price
          dp.decimals n collat_price cp.decimals k d c (omega (arith, pays)) dp_fits.1 cp_fits.0 low
          (omega (arith, capped)) seizes in
      let dp' : Position = record dp { borrowed = dp.borrowed - r.event.repaid } in
      let cp' : Position = record cp { supplied = cp.supplied - r.event.seized } in
      rw (dp_is, cp_is)
        (record {
          debt_collat = _;
          debt_owed = _;
          collat_collat = _;
          collat_owed = _;
          debt_collat' = _;
          debt_owed' = _;
          collat_collat' = _;
          collat_owed' = _;
          debt_before = position-IsWorth debt_price dp n d dp_fits;
          collat_before = position-IsWorth collat_price cp k c cp_fits;
          debt_after = position-IsWorth debt_price dp' n d (dp_fits.0, omega (arith, dp_fits.1));
          collat_after =
              position-IsWorth collat_price cp' k c (omega (arith, cp_fits.0), cp_fits.1);
          shortfall = omega (arith, covered);
        })
