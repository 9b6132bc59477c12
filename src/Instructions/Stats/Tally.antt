-- ===== src/Instructions/Stats/Tally.antt =====
-- About the counters of `UserStats` of programs/shadow-lend/src/lib.rs.
use shadowlend.Prelude.{ℕ, ◌+◌, ◌≤◌, ◌≡◌, ◌≢◌, arith, if◌then◌else◌, ltb}
use shadowlend.Machine.{u64_max, checked_add}
use shadowlend.Result.{ok, err, stats, StatsError, >>=-eq-ok, >>-eq-ok, require_keys_eq}
use shadowlend.State.{Pubkey, Clock, UserStats, ActionKind, ActionRecorded}
use shadowlend.Instructions.Stats.{init_user_stats, increment, count_action, record_action}

abbrev pub actions : UserStats → ℕ
actions s = s.supplies + s.borrows + s.repays + s.liquidations

-- Each action that was submitted is counted under one kind.
pub record IsTallied (s : UserStats) : Type 0 where
  pub adds_up : s.proofs_submitted ≡ actions s
  pub in_range : s.proofs_submitted ≤ u64_max

pub init_user_stats-IsTallied :
    (user : Pubkey) (stats_bump : ℕ) (clock : Clock)
    → IsTallied (init_user_stats user stats_bump clock)
unfolding init_user_stats
init_user_stats-IsTallied user stats_bump clock = omega arith

increment-eq-ok : (n : ℕ) {m : ℕ} → increment n ≡ ok m → (m ≡ n + 1) × (m ≤ u64_max)
unfolding increment checked_add
increment-eq-ok n e = ground arith

count_action_lem :
    (kind : ActionKind) (s : UserStats) {s' : UserStats}
    → count_action kind s ≡ ok s'
    → (actions s' ≡ actions s + 1) × (s'.proofs_submitted ≡ s.proofs_submitted) × (s'.user ≡ s.user)
unfolding count_action increment checked_add
count_action_lem ActionKind.supply s e = ground arith
count_action_lem _ s e = ground arith

-- From counters that add up to the actions submitted, within a u64, a recorded action leaves such
-- counters with one action more, and they are the signer's.
pub record_action-IsTallied :
    (user : Pubkey) (s : UserStats) (clock : Clock) (kind : ActionKind) (health : ℕ)
    {s' : UserStats} {event : ActionRecorded}
    → IsTallied s
    → record_action user s clock kind health ≡ ok (s', event)
    → IsTallied s' × (s'.proofs_submitted ≡ s.proofs_submitted + 1) × (s'.user ≡ user)
unfolding record_action
record_action-IsTallied user s clock kind health {s'} {event} h e =
    let (_, e₁) = >>-eq-ok (require_keys_eq s.user user (stats StatsError.unauthorized)) _ e in
    let (submitted, counts, e₂) = >>=-eq-ok (increment s.proofs_submitted) _ e₁ in
    let touched : UserStats = record s {
      last_action_at = clock.unix_timestamp;
      proofs_submitted = submitted;
      last_health_bps = if ltb 0 health then health else s.last_health_bps;
    } in
    let (counted, kinds, e₃) = >>=-eq-ok (count_action kind touched) _ e₂ in
    ground (arith, increment-eq-ok s.proofs_submitted counts, count_action_lem kind touched kinds)

-- Another's counters cannot be moved.
pub record_action_unauthorized :
    (user : Pubkey) (s : UserStats) (clock : Clock) (kind : ActionKind) (health : ℕ)
    → s.user ≢ user
    → record_action user s clock kind health ≡ err (stats StatsError.unauthorized)
unfolding record_action
record_action_unauthorized user s clock kind health h = ground arith
