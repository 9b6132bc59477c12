-- ===== src/Ledger/Call.antt =====
-- The calls of programs/shadow-lend/src/lib.rs that a transaction makes, with the signer first.
use shadowlend.Prelude.{ℕ, List}
use shadowlend.State.{Pubkey, ActionKind}
use shadowlend.Runtime.{Runtime, AccountInfo}

-- What a caller of `liquidate` names.
pub record LiquidateCall (rt : Runtime) : Type 0 where
  pub liquidator : Pubkey
  pub borrower : Pubkey
  pub debt_market_key : Pubkey
  pub collateral_market_key : Pubkey
  pub liquidator_debt_ata : Pubkey
  pub liquidator_collateral_ata : Pubkey
  pub debt_price_update : rt.PriceUpdate
  pub collateral_price_update : rt.PriceUpdate
  pub remaining_accounts : List (AccountInfo rt)

-- A signed call of the program. The remaining accounts and price updates are the caller's choice.
pub data Call (rt : Runtime) : Type 0 where
  initialize_market :
      (admin mint amount_per_claim max_ltv_bps feed_id borrow_rate_per_slot_e18 : ℕ) → Call rt
  set_claim_amount : (admin market_key amount : ℕ) → Call rt
  claim_faucet : (user mint : ℕ) → Call rt
  supply repay : (user mint amount : ℕ) → Call rt
  withdraw borrow : (user mint amount : ℕ) → rt.PriceUpdate → List (AccountInfo rt) → Call rt
  liquidate : LiquidateCall rt → ℕ → Call rt
  init_user_stats : Pubkey → Call rt
  record_action : Pubkey → ActionKind → ℕ → Call rt
