-- ===== src/Instructions/Faucet/Receipt.antt =====
-- About `claim_faucet` of programs/shadow-lend/src/lib.rs.
use shadowlend.Prelude.{◌+◌, ◌≤◌, ◌≡◌, some, arith}
use shadowlend.Machine.{u64_max, checked_add}
use shadowlend.Result.{ok}
use shadowlend.State.{Clock}
use shadowlend.Runtime.{Runtime}
use shadowlend.Instructions.Faucet.{ClaimFaucet, Claimed, faucet_mint, claim_faucet}

-- After a successful claim the receipt names the claimant, the market's mint and the amount per
-- claim, which is the amount that was minted and reported; the market counts one claim more, within
-- a u64, and changes in nothing else.
pub claim_faucet_effect :
    (rt : Runtime) (ctx : ClaimFaucet) (tokens : rt.Tokens) (clock : Clock) {r : Claimed rt.Tokens}
    → claim_faucet rt ctx tokens clock ≡ ok r
    → (rt.mint_to tokens (faucet_mint ctx) r.receipt.amount ≡ some r.tokens)
      × (r.receipt.amount ≡ ctx.market.amount_per_claim)
      × (r.receipt.user ≡ ctx.user)
      × (r.receipt.mint ≡ ctx.market.mint)
      × (r.market ≡ record ctx.market { claim_count = ctx.market.claim_count + 1 })
      × (r.market.claim_count ≤ u64_max)
      × (r.event.amount ≡ r.receipt.amount)
unfolding claim_faucet checked_add
claim_faucet_effect rt ctx tokens clock e = ground arith
