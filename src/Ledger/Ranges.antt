-- ===== src/Ledger/Ranges.antt =====
-- The ranges of the Rust types of the stored accounts of programs/shadow-lend/src/lib.rs, and how one
-- accrual and the user's handlers keep them.
pub mod Store
pub mod Calls
use shadowlend.Prelude.{ℕ, ◌^◌, ◌-◌, ◌≤◌, ◌≡◌, arith, inl, inr, Bool-cases, ◌==◌}
use shadowlend.Machine.{u64_max, u128_max}
use shadowlend.Machine.Laws.{saturating_add-le}
use shadowlend.Result.{ok}
use shadowlend.State.{default_key, Market, Position, ClaimReceipt, UserStats, Clock, MarketAction}
use shadowlend.Runtime.{Runtime}
use shadowlend.Interest.{accrue_market, accrue_position, index_growth}
use shadowlend.Interest.Debt.{accrue_position_lem}
use shadowlend.Instructions.Accounts.{ModifyPosition, ModifyPositionWithPrice, Modified}
use shadowlend.Instructions.Supply.{supply, open_or_accrue}
use shadowlend.Instructions.Supply.Effect.{supply_effect}
use shadowlend.Instructions.Repay.{repay}
use shadowlend.Instructions.Repay.Effect.{repay_effect}
use shadowlend.Instructions.Withdraw.{withdraw}
use shadowlend.Instructions.Withdraw.Effect.{withdraw_effect}
use shadowlend.Instructions.Borrow.{borrow}
use shadowlend.Instructions.Borrow.Effect.{borrow_effect}

abbrev pub u16_max : ℕ
u16_max = 2 ^ 16 - 1

pub record IsTypedMarket (m : Market) : Type 0 where
  pub amount_per_claim : m.amount_per_claim ≤ u64_max
  pub max_ltv_bps : m.max_ltv_bps ≤ u16_max
  pub rate : m.borrow_rate_per_slot_e18 ≤ u64_max
  pub index : m.borrow_index_e18 ≤ u128_max
  pub slot : m.last_update_slot ≤ u64_max
  pub total_supplied : m.total_supplied ≤ u64_max
  pub total_borrowed : m.total_borrowed ≤ u64_max
  pub claim_count : m.claim_count ≤ u64_max

pub record IsTypedPosition (p : Position) : Type 0 where
  pub supplied : p.supplied ≤ u64_max
  pub borrowed : p.borrowed ≤ u64_max
  pub max_ltv_bps : p.max_ltv_bps ≤ u16_max
  pub decimals : p.decimals ≤ 255
  pub snapshot : p.borrow_index_snapshot_e18 ≤ u128_max

pub record IsTypedStats (s : UserStats) : Type 0 where
  pub proofs_submitted : s.proofs_submitted ≤ u64_max
  pub supplies : s.supplies ≤ u64_max
  pub borrows : s.borrows ≤ u64_max
  pub repays : s.repays ≤ u64_max
  pub liquidations : s.liquidations ≤ u64_max
  pub last_health_bps : s.last_health_bps ≤ u16_max

accrue_market-IsTypedMarket :
    (m : Market) (clock : Clock)
    → IsTypedMarket m
    → clock.slot ≤ u64_max
    → IsTypedMarket (accrue_market m clock)
unfolding accrue_market
accrue_market-IsTypedMarket m clock h now =
    let growth =
      index_growth m.borrow_index_e18 m.borrow_rate_per_slot_e18
        (clock.slot - m.last_update_slot) in
    ground (arith, h, saturating_add-le m.borrow_index_e18 growth)

accrue_position-IsTypedPosition :
    (p : Position) (m : Market)
    → IsTypedPosition p
    → IsTypedMarket m
    → IsTypedPosition (accrue_position p m)
accrue_position-IsTypedPosition p m h k =
    let (snapshot, fits, same) = accrue_position_lem p m h.borrowed in
    rw same (record {
      supplied = h.supplied;
      borrowed = fits;
      max_ltv_bps = h.max_ltv_bps;
      decimals = h.decimals;
      snapshot = rw snapshot (k.index);
    })

open_or_accrue-IsTypedPosition :
    (ctx : ModifyPosition) (m : Market)
    → IsTypedPosition ctx.position
    → IsTypedMarket m
    → IsTypedPosition (open_or_accrue ctx m)
unfolding open_or_accrue
open_or_accrue-IsTypedPosition ctx m h k = elim (Bool-cases (ctx.position.user == default_key)) [
  | inl opens ↦ rw opens (ground (arith, h, k))
  | inr there ↦ rw there (accrue_position-IsTypedPosition ctx.position m h k)
]

-- One amount of a market or a position changes.
module _ (m : Market) (h : IsTypedMarket m) (n : ℕ) (fits : n ≤ u64_max) where
  pub total_supplied-IsTypedMarket : IsTypedMarket (record m { total_supplied = n })
  total_supplied-IsTypedMarket = ground (arith, h, fits)

  pub total_borrowed-IsTypedMarket : IsTypedMarket (record m { total_borrowed = n })
  total_borrowed-IsTypedMarket = ground (arith, h, fits)

module _ (p : Position) (h : IsTypedPosition p) (n : ℕ) (fits : n ≤ u64_max) where
  pub supplied-IsTypedPosition : IsTypedPosition (record p { supplied = n })
  supplied-IsTypedPosition = ground (arith, h, fits)

  pub borrowed-IsTypedPosition : IsTypedPosition (record p { borrowed = n })
  borrowed-IsTypedPosition = ground (arith, h, fits)

-- Both accounts that a user's instruction writes.
abbrev pub AreTyped : {T : Type 0} → Modified T MarketAction → Type 0
AreTyped r = IsTypedMarket r.market × IsTypedPosition r.position

module _ (rt : Runtime) (tokens : rt.Tokens) (clock : Clock) (amount : ℕ)
    (now : clock.slot ≤ u64_max) {r : Modified rt.Tokens MarketAction} where
  module _ (ctx : ModifyPosition) (m_typed : IsTypedMarket ctx.market)
      (p_typed : IsTypedPosition ctx.position) where
    pub supply-AreTyped : supply rt ctx tokens clock amount ≡ ok r → AreTyped r
    supply-AreTyped e =
        let m = accrue_market-IsTypedMarket ctx.market clock m_typed now in
        let p = open_or_accrue-IsTypedPosition ctx (accrue_market ctx.market clock) p_typed m in
        let (_, _, fits, total_fits, position, total) =
          supply_effect rt ctx tokens clock amount e in
        rw (position, total)
          (total_supplied-IsTypedMarket _ m _ total_fits, supplied-IsTypedPosition _ p _ fits)

    pub repay-AreTyped : repay rt ctx tokens clock amount ≡ ok r → AreTyped r
    repay-AreTyped e =
        let m = accrue_market-IsTypedMarket ctx.market clock m_typed now in
        let p =
          accrue_position-IsTypedPosition ctx.position (accrue_market ctx.market clock) p_typed m in
        let (_, _, position, total) = repay_effect rt ctx tokens clock amount e in
        rw (position, total)
          (
            total_borrowed-IsTypedMarket _ m _ (omega (arith, m.total_borrowed)),
            borrowed-IsTypedPosition _ p _ (omega (arith, p.borrowed)),
          )

  module _ (ctx : ModifyPositionWithPrice rt) (m_typed : IsTypedMarket ctx.market)
      (p_typed : IsTypedPosition ctx.position) where
    pub withdraw-AreTyped : withdraw rt ctx tokens clock amount ≡ ok r → AreTyped r
    withdraw-AreTyped e =
        let m = accrue_market-IsTypedMarket ctx.market clock m_typed now in
        let p =
          accrue_position-IsTypedPosition ctx.position (accrue_market ctx.market clock) p_typed m in
        let (_, _, _, _, position, total) = withdraw_effect rt ctx tokens clock amount e in
        rw (position, total)
          (
            total_supplied-IsTypedMarket _ m _ (omega (arith, m.total_supplied)),
            supplied-IsTypedPosition _ p _ (omega (arith, p.supplied)),
          )

    pub borrow-AreTyped : borrow rt ctx tokens clock amount ≡ ok r → AreTyped r
    borrow-AreTyped e =
        let m = accrue_market-IsTypedMarket ctx.market clock m_typed now in
        let p =
          accrue_position-IsTypedPosition ctx.position (accrue_market ctx.market clock) p_typed m in
        let (_, _, _, _, fits, total_fits, position, total) =
          borrow_effect rt ctx tokens clock amount e in
        rw (position, total)
          (total_borrowed-IsTypedMarket _ m _ total_fits, borrowed-IsTypedPosition _ p _ fits)
