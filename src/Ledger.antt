-- ===== src/Ledger.antt =====
-- The accounts of programs/shadow-lend/src/lib.rs between instructions, and the constraints that the
-- `Accounts` structs put on the accounts of an instruction.
pub mod Call
pub mod Execute
pub mod Sound
pub mod Preserve
pub mod Inversion
pub mod Steps
pub mod Upkeep
pub mod Seizure
pub mod Aliasing
pub mod Reach
pub mod Claims
pub mod Books
pub mod Solvency
pub mod Terms
pub mod Listed
pub mod Ranges
use shadowlend.Prelude.{ℕ, ◌==◌, ◌≡◌, ◌≢◌, Option, none, some, List, if◌then◌else◌}
use shadowlend.Result.{
  Result, ok, err, market, constraint, MarketError, ◌>>=◌, ◌>>◌, require, require_keys_eq, ok_or,
}
use shadowlend.State.{
  Pubkey, Market, Position, ClaimReceipt, UserStats, ActionKind, MarketAction, default_key,
}
use shadowlend.Runtime.{Runtime, AccountInfo}
use shadowlend.Instructions.Accounts.{ModifyPosition, ModifyPositionWithPrice, Modified}

-- The seeds of the program's addresses: MARKET_SEED, AUTH_SEED, VAULT_SEED and CLAIM_SEED with a
-- mint, POSITION_SEED with a user and a mint, STATS_SEED with a user.
pub data Seeds : Type 0 where
  market_seed auth_seed vault_seed : Pubkey → Seeds
  claim_seed position_seed : Pubkey → Pubkey → Seeds
  stats_seed : Pubkey → Seeds

-- `Pubkey::find_program_address`, the address of an associated token account, and the mint and the
-- owner of a token account.
pub record Addresses (rt : Runtime) : Type 0 where
  pub find : Seeds → Pubkey
  pub bump : Seeds → ℕ
  pub associated_token : Pubkey → Pubkey → Pubkey
  pub token_mint : rt.Tokens → Pubkey → Pubkey
  pub token_owner : rt.Tokens → Pubkey → Pubkey

-- Different seeds have different addresses.
pub record AddressLaws (rt : Runtime) (ad : Addresses rt) : Type 0 where
  pub find_injective : (s t : Seeds) → ad.find s ≡ ad.find t → s ≡ t

-- An associated token account is at none of the program's addresses, and a vault belongs to the
-- authority of its mint (`token::authority = authority`), which never signs to give it away.
pub record VaultLaws (rt : Runtime) (ad : Addresses rt) : Type 0 where
  pub associated_apart :
      (user mint : Pubkey) (s : Seeds) → ad.associated_token user mint ≢ ad.find s
  pub vault_owner :
      (tokens : rt.Tokens) (mint : Pubkey)
      → ad.token_owner tokens (ad.find (vault_seed mint)) ≡ ad.find (auth_seed mint)

-- The accounts of one type by their address.
abbrev pub Store : Type 0 → Type 0
Store A = Pubkey → Option A

unfoldable pub put : {A : Type 0} → Store A → Pubkey → A → Store A
put store key a k = if k == key then some a else store k

pub record Ledger (rt : Runtime) : Type 0 where
  pub markets : Store Market
  pub positions : Store Position
  pub receipts : Store ClaimReceipt
  pub stats : Store UserStats
  pub tokens : rt.Tokens

-- `init`: the account is not there yet.
unfoldable pub init : {A : Type 0} → Store A → Pubkey → Result (Unit {0})
init store key = elim (store key) [ none ↦ ok tt | some a ↦ err constraint ]

-- A `Position` that `init_if_needed` has just created.
abbrev pub empty_position : Position
empty_position = record {
  user = default_key;
  market = default_key;
  supplied = 0;
  borrowed = 0;
  feed_id = 0;
  max_ltv_bps = 0;
  decimals = 0;
  bump = 0;
  borrow_index_snapshot_e18 = 0;
}

unfoldable pub init_if_needed : Option Position → Position
init_if_needed none = empty_position
init_if_needed (some p) = p

module _ (rt : Runtime) (ad : Addresses rt) where
  -- `market` of `ModifyPosition` and `ClaimFaucet`, with the bump of `authority`.
  unfoldable pub market_of : Ledger rt → Pubkey → Result Market
  market_of l mint = do
    m ← ok_or (l.markets (ad.find (market_seed mint))) constraint
    require_keys_eq m.bump (ad.bump (market_seed mint)) constraint
    require_keys_eq m.mint mint (market MarketError.mint_mismatch)
    require_keys_eq m.authority_bump (ad.bump (auth_seed mint)) constraint
    ok m

  -- A market that the caller names by its address: `AdminUpdate` and `Liquidate`.
  unfoldable pub market_at : Ledger rt → Pubkey → Result Market
  market_at l key = do
    m ← ok_or (l.markets key) constraint
    require_keys_eq key (ad.find (market_seed m.mint)) constraint
    require_keys_eq m.bump (ad.bump (market_seed m.mint)) constraint
    ok m

  -- `position` where it has to be there.
  unfoldable pub position_of : Ledger rt → Pubkey → Pubkey → Result Position
  position_of l user mint = do
    p ← ok_or (l.positions (ad.find (position_seed user mint))) constraint
    require_keys_eq p.bump (ad.bump (position_seed user mint)) constraint
    ok p

  -- The accounts of a user's instruction on a market and a position.
  unfoldable pub context : Pubkey → Pubkey → Market → Position → ModifyPosition
  context user mint m p = record {
    user = user;
    market_key = ad.find (market_seed mint);
    market = m;
    position_key = ad.find (position_seed user mint);
    position = p;
    position_bump = ad.bump (position_seed user mint);
    vault = ad.find (vault_seed mint);
    authority = ad.find (auth_seed mint);
    user_ata = ad.associated_token user mint;
  }

  -- The accounts of `supply` and `repay`.
  unfoldable pub modify_position : Ledger rt → Pubkey → Pubkey → Result ModifyPosition
  modify_position l user mint = do
    m ← market_of l mint
    let p = init_if_needed (l.positions (ad.find (position_seed user mint)))
    ok (context user mint m p)

  -- The accounts of `withdraw` and `borrow`.
  unfoldable pub modify_position_with_price :
      Ledger rt
      → Pubkey
      → Pubkey
      → rt.PriceUpdate
      → List (AccountInfo rt)
      → Result (ModifyPositionWithPrice rt)
  modify_position_with_price l user mint update remaining = do
    m ← market_of l mint
    p ← position_of l user mint
    require_keys_eq p.user user (market MarketError.bad_position_account)
    ok (record {
      base = context user mint m p;
      price_update = update;
      remaining_accounts = remaining;
    })

  -- What a user's instruction writes back.
  unfoldable pub write_back :
      Ledger rt → ModifyPosition → Modified rt.Tokens MarketAction → Ledger rt
  write_back l ctx r = record l {
    markets = put l.markets ctx.market_key r.market;
    positions = put l.positions ctx.position_key r.position;
    tokens = r.tokens;
  }
