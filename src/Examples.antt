-- ===== src/Examples.antt =====
-- Runs of the program at concrete inputs: a small world, tests, and an instance of each theorem.
mod World
mod Pricing
mod Interest
mod Health
mod Instructions
mod Liquidation
mod Circuits
mod Admin
mod Accounts
mod Runs
mod Loans
mod Seizures
mod Typed
mod Layout
