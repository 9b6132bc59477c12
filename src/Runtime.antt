-- ===== src/Runtime.antt =====
-- What programs/shadow-lend/src/lib.rs calls and does not define: Anchor's decoding of accounts,
-- the Pyth receiver SDK and the SPL token program. They are a parameter of the model.
use shadowlend.Prelude.{ℕ, ◌+◌, ◌≤◌, ◌≡◌, ◌≢◌, Option, some}
use shadowlend.State.{Pubkey, Position, Clock, Price}

-- How a call of the token program is signed: by the wallet that signed the transaction
-- (`CpiContext::new`), or with the seeds [AUTH_SEED, mint, bump] (`CpiContext::new_with_signer`).
pub data Signing : Type 0 where
  wallet : Signing
  authority_seeds : Pubkey → ℕ → Signing

-- The accounts of a `token::transfer`.
pub record Transfer : Type 0 where
  pub sender : Pubkey
  pub receiver : Pubkey
  pub authority : Pubkey
  pub signing : Signing

-- The accounts of a `token::mint_to`.
pub record MintTo : Type 0 where
  pub mint : Pubkey
  pub receiver : Pubkey
  pub authority : Pubkey
  pub signing : Signing

pub record Runtime : Type 1 where
  -- `crate::ID` and `pyth_solana_receiver_sdk::ID`
  pub program_id : Pubkey
  pub pyth_id : Pubkey
  -- The raw data of an account, and `Position::try_deserialize` on it.
  pub Bytes : Type 0
  pub deserialize_position : Bytes → Option Position
  -- `PriceUpdateV2`, its `try_deserialize`, and `get_price_no_older_than(clock, age, feed_id)`.
  pub PriceUpdate : Type 0
  pub deserialize_price_update : Bytes → Option PriceUpdate
  pub get_price_no_older_than : PriceUpdate → Clock → ℕ → ℕ → Option Price
  -- The state of the token program; a failed call is `none`.
  pub Tokens : Type 0
  pub balance : Tokens → Pubkey → ℕ
  pub transfer : Tokens → Transfer → ℕ → Option Tokens
  pub mint_to : Tokens → MintTo → ℕ → Option Tokens

-- What a successful transfer of the token program does to the balances.
pub record TransferLaws (rt : Runtime) : Type 0 where
  pub debits :
      (t t' : rt.Tokens) (c : Transfer) (n : ℕ)
      → rt.transfer t c n ≡ some t'
      → c.sender ≢ c.receiver
      → rt.balance t c.sender ≡ rt.balance t' c.sender + n
  pub credits :
      (t t' : rt.Tokens) (c : Transfer) (n : ℕ)
      → rt.transfer t c n ≡ some t'
      → c.sender ≢ c.receiver
      → rt.balance t' c.receiver ≡ rt.balance t c.receiver + n
  pub spares :
      (t t' : rt.Tokens) (c : Transfer) (n : ℕ) (k : Pubkey)
      → rt.transfer t c n ≡ some t'
      → k ≢ c.sender
      → k ≢ c.receiver
      → rt.balance t' k ≡ rt.balance t k

-- Minting tokens takes none from any account.
pub record MintLaws (rt : Runtime) : Type 0 where
  pub keeps :
      (t t' : rt.Tokens) (c : MintTo) (n : ℕ) (k : Pubkey)
      → rt.mint_to t c n ≡ some t'
      → rt.balance t k ≤ rt.balance t' k

-- A raw account, as `remaining_accounts` holds it.
pub record AccountInfo (rt : Runtime) : Type 0 where
  pub key : Pubkey
  pub owner : Pubkey
  pub bytes : rt.Bytes
