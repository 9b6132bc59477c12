-- ===== src/Instructions/Faucet.antt =====
-- `claim_faucet` of programs/shadow-lend/src/lib.rs.
pub mod Receipt
use shadowlend.Prelude.{ℕ}
use shadowlend.Machine.{checked_add}
use shadowlend.Result.{Result, ok, market, token, MarketError, ◌>>=◌, ok_or}
use shadowlend.State.{Pubkey, Market, Clock, ClaimReceipt, FaucetClaimed}
use shadowlend.Runtime.{Runtime, MintTo, Signing}

-- `ClaimFaucet`: the receipt is created by the instruction.
pub record ClaimFaucet : Type 0 where
  pub user : Pubkey
  pub market : Market
  pub mint : Pubkey
  pub authority : Pubkey
  pub recipient_ata : Pubkey
  pub receipt_bump : ℕ

pub record Claimed (Tokens : Type 0) : Type 0 where
  pub market : Market
  pub receipt : ClaimReceipt
  pub tokens : Tokens
  pub event : FaucetClaimed

unfoldable pub faucet_mint : ClaimFaucet → MintTo
faucet_mint ctx = record {
  mint = ctx.mint;
  receiver = ctx.recipient_ata;
  authority = ctx.authority;
  signing = Signing.authority_seeds ctx.market.mint ctx.market.authority_bump;
}

module _ (rt : Runtime) where
  unfoldable pub claim_faucet : ClaimFaucet → rt.Tokens → Clock → Result (Claimed rt.Tokens)
  unfolding faucet_mint
  claim_faucet ctx tokens clock = do
    let m = ctx.market
    let amount = m.amount_per_claim
    tokens' ← ok_or (rt.mint_to tokens (faucet_mint ctx) amount) token
    count ← ok_or (checked_add m.claim_count 1) (market MarketError.overflow)
    ok (record {
      market = record m { claim_count = count };
      receipt = record {
        user = ctx.user;
        mint = m.mint;
        amount = amount;
        claimed_at = clock.unix_timestamp;
        bump = ctx.receipt_bump;
      };
      tokens = tokens';
      event = record {
        user = ctx.user;
        mint = m.mint;
        amount = amount;
        claimed_at = clock.unix_timestamp;
      };
    })
