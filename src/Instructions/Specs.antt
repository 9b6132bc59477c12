-- ===== src/Instructions/Specs.antt =====
-- What the handlers of a position are measured by: conservation of tokens between a vault and a
-- position, and the health of a position with the accounts that come with it.
use shadowlend.Prelude.{ℕ, ◌+◌, ◌≤◌, ◌≡◌}
use shadowlend.Result.{Result, ok, ◌>>=◌}
use shadowlend.State.{Market, Position, Clock}
use shadowlend.Runtime.{Runtime}
use shadowlend.Interest.{accrue_market, accrue_position}
use shadowlend.Health.{Totals, no_totals, accumulate_position, accumulate_remaining, fresh_price}
use shadowlend.Instructions.Accounts.{ModifyPosition, ModifyPositionWithPrice}

-- The vault gains what the position's collateral gains, less what its debt gains.
abbrev pub IsConserved : ℕ → Position → ℕ → Position → Type 0
IsConserved vault p vault' p' = vault' + p.supplied + p'.borrowed ≡ vault + p'.supplied + p.borrowed

-- The market's collateral total moves with the position's collateral.
abbrev pub TracksSupply : Market → Position → Market → Position → Type 0
TracksSupply m p m' p' = m'.total_supplied + p.supplied ≡ m.total_supplied + p'.supplied

-- The market's debt total moves with the position's debt.
abbrev pub TracksDebt : Market → Position → Market → Position → Type 0
TracksDebt m p m' p' = m'.total_borrowed + p.borrowed ≡ m.total_borrowed + p'.borrowed

-- The two positions differ in the amounts and the snapshot at most.
abbrev pub SameTerms : Position → Position → Type 0
SameTerms p p' =
    (p'.user ≡ p.user)
    × (p'.market ≡ p.market)
    × (p'.feed_id ≡ p.feed_id)
    × (p'.max_ltv_bps ≡ p.max_ltv_bps)
    × (p'.decimals ≡ p.decimals)
    × (p'.bump ≡ p.bump)

-- The position of an instruction with the interest up to the clock.
abbrev pub accrued : ModifyPosition → Clock → Position
accrued ctx clock = accrue_position ctx.position (accrue_market ctx.market clock)

module _ (rt : Runtime) where
  -- The totals of a user who holds `p`, by the accounts that come with the instruction.
  unfoldable pub user_totals : ModifyPositionWithPrice rt → Clock → ℕ → Position → Result Totals
  user_totals ctx clock feed_id p = do
    price ← fresh_price rt ctx.price_update clock feed_id
    own ← accumulate_position p.supplied p.borrowed price p.decimals p.max_ltv_bps no_totals
    accumulate_remaining rt ctx.remaining_accounts ctx.user ctx.position_key clock own

  -- The totals exist, and the debt is covered.
  abbrev pub IsHealthy : ModifyPositionWithPrice rt → Clock → ℕ → Position → Type 0
  IsHealthy ctx clock feed_id p =
      (t : Totals) × (user_totals ctx clock feed_id p ≡ ok t) × (t.debt ≤ t.collat_at_ltv)
