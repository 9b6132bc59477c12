-- ===== src/State.antt =====
-- The accounts, enums, events and constants that programs/shadow-lend/src/lib.rs declares.
-- A Pubkey or a feed id is a number, since the program only compares them.
pub mod Layout
use shadowlend.Prelude.{ℕ, ◌≤◌}
use shadowlend.Prelude.Int.{ℤ}
use shadowlend.Machine.{u64_max, u128_max}

abbrev pub Pubkey : Type 0
Pubkey = ℕ

-- `Pubkey::default()`, which is all zeroes.
abbrev pub default_key : Pubkey
default_key = 0

abbrev pub bps_denominator : ℕ
bps_denominator = 10_000

abbrev pub max_price_age_sec : ℕ
max_price_age_sec = 300

abbrev pub liquidation_bonus_bps : ℕ
liquidation_bonus_bps = 500

abbrev pub rate_scale_e18 : ℕ
rate_scale_e18 = 1_000_000_000_000_000_000

abbrev pub mint_decimals : ℕ
mint_decimals = 9

-- The fields of the `Clock` sysvar that the program reads.
pub record Clock : Type 0 where
  pub slot : ℕ
  pub unix_timestamp : ℤ

-- The fields of a Pyth `Price` that the program reads: an i64 and an i32.
pub record Price : Type 0 where
  pub price : ℤ
  pub exponent : ℤ

pub record Market : Type 0 where
  pub admin : Pubkey
  pub mint : Pubkey
  pub amount_per_claim : ℕ
  pub max_ltv_bps : ℕ
  pub feed_id : ℕ
  pub borrow_rate_per_slot_e18 : ℕ
  pub borrow_index_e18 : ℕ
  pub last_update_slot : ℕ
  pub total_supplied : ℕ
  pub total_borrowed : ℕ
  pub claim_count : ℕ
  pub bump : ℕ
  pub authority_bump : ℕ

pub record Position : Type 0 where
  pub user : Pubkey
  pub market : Pubkey
  pub supplied : ℕ
  pub borrowed : ℕ
  pub feed_id : ℕ
  pub max_ltv_bps : ℕ
  pub decimals : ℕ
  pub bump : ℕ
  pub borrow_index_snapshot_e18 : ℕ

pub record ClaimReceipt : Type 0 where
  pub user : Pubkey
  pub mint : Pubkey
  pub amount : ℕ
  pub claimed_at : ℤ
  pub bump : ℕ

pub record UserStats : Type 0 where
  pub user : Pubkey
  pub created_at : ℤ
  pub last_action_at : ℤ
  pub proofs_submitted : ℕ
  pub supplies : ℕ
  pub borrows : ℕ
  pub repays : ℕ
  pub liquidations : ℕ
  pub last_health_bps : ℕ
  pub bump : ℕ

pub data ActionKind : Type 0 where
  supply borrow repay liquidation : ActionKind

pub data MarketActionKind : Type 0 where
  supply withdraw borrow repay : MarketActionKind

pub record FaucetClaimed : Type 0 where
  pub user : Pubkey
  pub mint : Pubkey
  pub amount : ℕ
  pub claimed_at : ℤ

pub record MarketAction : Type 0 where
  pub user : Pubkey
  pub mint : Pubkey
  pub kind : MarketActionKind
  pub supplied : ℕ
  pub borrowed : ℕ

pub record ActionRecorded : Type 0 where
  pub user : Pubkey
  pub kind : ActionKind
  pub health_bps : ℕ
  pub recorded_at : ℤ

pub record Liquidation : Type 0 where
  pub liquidator : Pubkey
  pub borrower : Pubkey
  pub debt_mint : Pubkey
  pub collateral_mint : Pubkey
  pub repaid : ℕ
  pub seized : ℕ

-- The amounts of a position lie in the ranges of their Rust types.
pub record IsInRange (p : Position) : Type 0 where
  pub supplied : p.supplied ≤ u64_max
  pub borrowed : p.borrowed ≤ u64_max
  pub snapshot : p.borrow_index_snapshot_e18 ≤ u128_max
