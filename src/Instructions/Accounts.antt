-- ===== src/Instructions/Accounts.antt =====
-- The accounts that a handler gets, after Anchor has decoded and checked them, and what it leaves.
-- Of a token account a handler knows the key; its balance is in the state of the token program.
use shadowlend.Prelude.{ℕ, List}
use shadowlend.Result.{Result, token, ok_or}
use shadowlend.State.{Pubkey, Market, Position}
use shadowlend.Runtime.{Runtime, AccountInfo, Transfer, Signing}

-- `ModifyPosition`, with the key of each account that the handlers ask for and `ctx.bumps.position`.
pub record ModifyPosition : Type 0 where
  pub user : Pubkey
  pub market_key : Pubkey
  pub market : Market
  pub position_key : Pubkey
  pub position : Position
  pub position_bump : ℕ
  pub vault : Pubkey
  pub authority : Pubkey
  pub user_ata : Pubkey

-- `ModifyPositionWithPrice`, with the price update and `ctx.remaining_accounts`.
pub record ModifyPositionWithPrice (rt : Runtime) : Type 0 where
  pub base : ModifyPosition
  pub open base use *
  pub price_update : rt.PriceUpdate
  pub remaining_accounts : List (AccountInfo rt)

-- What a handler of a position leaves: the accounts that it writes, the tokens, and the event.
pub record Modified (Tokens Event : Type 0) : Type 0 where
  pub market : Market
  pub position : Position
  pub tokens : Tokens
  pub event : Event

module _ (rt : Runtime) where
  -- A call of the token program, whose failure ends the instruction.
  unfoldable pub transfer : rt.Tokens → Transfer → ℕ → Result rt.Tokens
  transfer tokens accounts amount = ok_or (rt.transfer tokens accounts amount) token

-- The transfer of `supply` and `repay`: from the user's account to the vault.
unfoldable pub pay_in : ModifyPosition → Transfer
pay_in ctx = record {
  sender = ctx.user_ata;
  receiver = ctx.vault;
  authority = ctx.user;
  signing = Signing.wallet;
}

-- The transfer of `withdraw` and `borrow`: from the vault to the user, signed by the authority PDA.
unfoldable pub pay_out : ModifyPosition → Market → Transfer
pay_out ctx market = record {
  sender = ctx.vault;
  receiver = ctx.user_ata;
  authority = ctx.authority;
  signing = Signing.authority_seeds market.mint market.authority_bump;
}
