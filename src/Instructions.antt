-- ===== src/Instructions.antt =====
-- The instruction handlers of programs/shadow-lend/src/lib.rs, each on the accounts of its context.
pub mod Accounts
pub mod Specs
pub mod Supply
pub mod Withdraw
pub mod Borrow
pub mod Repay
pub mod Liquidate
pub mod Admin
pub mod Faucet
pub mod Stats
