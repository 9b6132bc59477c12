-- ===== src/Instructions/Stats.antt =====
-- `init_user_stats` and `record_action` of programs/shadow-lend/src/lib.rs.
pub mod Tally
use shadowlend.Prelude.{ℕ, ltb, if◌then◌else◌}
use shadowlend.Machine.{checked_add}
use shadowlend.Result.{Result, ok, stats, StatsError, ◌>>=◌, ◌>>◌, require_keys_eq, ok_or}
use shadowlend.State.{Pubkey, Clock, UserStats, ActionKind, ActionRecorded}

unfoldable pub init_user_stats : Pubkey → ℕ → Clock → UserStats
init_user_stats user stats_bump clock = record {
  user = user;
  created_at = clock.unix_timestamp;
  last_action_at = clock.unix_timestamp;
  proofs_submitted = 0;
  supplies = 0;
  borrows = 0;
  repays = 0;
  liquidations = 0;
  last_health_bps = 0;
  bump = stats_bump;
}

-- `n.checked_add(1).ok_or(StatsError::Overflow)?`
unfoldable pub increment : ℕ → Result ℕ
increment n = ok_or (checked_add n 1) (stats StatsError.overflow)

-- The `match` on the kind: one counter goes up.
unfoldable pub count_action : ActionKind → UserStats → Result UserStats
count_action ActionKind.supply s = do n ← increment s.supplies; ok (record s { supplies = n })
count_action ActionKind.borrow s = do n ← increment s.borrows; ok (record s { borrows = n })
count_action ActionKind.repay s = do n ← increment s.repays; ok (record s { repays = n })
count_action ActionKind.liquidation s = do
  n ← increment s.liquidations
  ok (record s { liquidations = n })

unfoldable pub record_action :
    Pubkey → UserStats → Clock → ActionKind → ℕ → Result (UserStats × ActionRecorded)
record_action user s clock kind health_bps = do
  require_keys_eq s.user user (stats StatsError.unauthorized)
  submitted ← increment s.proofs_submitted
  let health = if ltb 0 health_bps then health_bps else s.last_health_bps
  let touched = record s {
    last_action_at = clock.unix_timestamp;
    proofs_submitted = submitted;
    last_health_bps = health;
  }
  counted ← count_action kind touched
  ok (
    counted,
    record {
      user = user;
      kind = kind;
      health_bps = health_bps;
      recorded_at = clock.unix_timestamp;
    },
  )
