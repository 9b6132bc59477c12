-- ===== src/Lib.antt =====
-- ShadowLend: cross-asset lending on Solana. This library models the on-chain program,
-- programs/shadow-lend/src/lib.rs, and the circuits of arcium/src/circuits.rs.
--
-- The parts and their files:
-- - Machine: the saturating, checked and converting integer operations of Rust that the program
--   uses. A u64 or u128 is a number, an i64 or i32 an integer; the bounds are written out. The
--   release profile has overflow checks, so plain i32 arithmetic ends in the error `panic`.
-- - Result: `MarketError` and `StatsError`, and the result of a handler. An error undoes the
--   whole transaction, so only a success has a new state.
-- - State: the account structs, enums, events and constants, field by field. Keys, feed ids and
--   bumps are numbers, since the program only compares and copies them. State/Layout has the `SIZE`
--   constants; Borsh and Anchor, which write the accounts, are its parameters.
-- - Runtime: what the program calls and does not define, as one record that is a parameter
--   everywhere: the program ids, `Position::try_deserialize`, `PriceUpdateV2` with
--   `get_price_no_older_than`, and the SPL token program (`transfer`, `mint_to`, balances).
--   `TransferLaws` says what a successful transfer does to balances and `MintLaws` that minting to
--   one account keeps the others; theorems that need them take them.
-- - Pricing: `token_usd_8dp` and `usd_8dp_to_token`.
-- - Interest: `accrue_market` and `accrue_position`. Interest/Index and Interest/Compound are about
--   one and several accruals of a market, Interest/Debt about those of a position.
-- - Health: `accumulate_position`, `accumulate_remaining` and `accumulate_remaining_skip`. The
--   running totals that the Rust functions change in place are returned. The handlers use the loops
--   as structural recursion, two accounts a round. Health/Loop has them as they are written, with the
--   index, the bounds checks and a number of rounds as fuel: a round for each pair and one more.
-- - Instructions: one file a handler (Supply, Withdraw, Borrow, Repay, Liquidate, Admin, Faucet,
--   Stats), on the accounts of its context (Instructions/Accounts), with the order of checks,
--   transfers and writes of the source. `liquidate` is two functions, the checks and `settle`.
--   Instructions/Specs holds the measures that the theorems use.
-- - Ledger: the accounts between instructions, by their addresses. The `Accounts` structs become the
--   functions that find and check the accounts of an instruction (seeds, bumps, `has_one`, `init`,
--   `init_if_needed`, `constraint`); Ledger/Call has the calls of the program, and Ledger/Execute runs
--   one: the checks, the handler, and the writes in the order of the struct. `Addresses` is a
--   parameter: `find_program_address`, the associated token account, the mint and the owner of a token
--   account. `AddressLaws` says that different seeds have different addresses, `VaultLaws` that an
--   associated token account is not a program derived address and that a vault belongs to its
--   authority.
--   Ledger/Inversion has what a call that succeeds has read and written; Ledger/Sound, Preserve,
--   Seizure and Reach the invariant of the stored accounts, and the files of Ledger/Seizure the
--   accounts that a liquidation finds and leaves; Ledger/Books the deposits of all users of a market,
--   and Ledger/Solvency that the vault covers them; Ledger/Terms what of a market a run keeps;
--   Ledger/Ranges the ranges of the Rust types, which the model writes as numbers; Ledger/Listed the
--   remaining accounts that are stored positions; Ledger/Claims and Aliasing single claims and both
--   sides of a liquidation in one market.
-- - Circuits: `check_ltv`, `check_liquidatable` and `accrue_interest`.
-- - Examples: a concrete runtime, runs, some of the unit tests of the source, and instances of the
--   theorems.
--
-- How the parts interact: a handler accrues the market and then the position (Interest), prices the
-- new position (Pricing) and the remaining accounts (Health), calls the token program (Runtime), and
-- writes its accounts. `liquidate` does so for two markets and two positions.
--
-- Not modelled: rent and the bytes of an account beyond their number; the creation of mints and token
-- accounts. A call of the ledger may list any bytes in its remaining accounts; that those of the
-- program's accounts are the stored positions is a hypothesis where a theorem needs it
-- (Ledger/Listed). The TypeScript, JavaScript and HTML front end, the migrations and the tests only
-- call the program.
pub mod Prelude
pub mod Machine
pub mod Result
pub mod State
pub mod Runtime
pub mod Pricing
pub mod Interest
pub mod Health
pub mod Instructions
pub mod Ledger
pub mod Circuits
pub mod Examples
