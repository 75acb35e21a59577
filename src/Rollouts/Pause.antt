-- ===== src/Rollouts/Pause.antt =====
-- The states of a rollout, and pauseGuardedRollout of server/internal/store/rollout_waves.go.
use openwrt_rmm.Base.{
  ℕ, String, Bool, true, false, Option, none, some, update_where, if◌then◌else◌, ◌==◌,
}
use openwrt_rmm.Schema.{Db, Rollout, RolloutStatus, RolloutGuard, TargetStatus}

abbrev pub is_running : RolloutStatus → Bool
is_running RolloutStatus.running = true
is_running _ = false

-- status IN ('failed', 'cancelled', 'expired')
abbrev pub is_failure : TargetStatus → Bool
is_failure TargetStatus.failed = true
is_failure TargetStatus.cancelled = true
is_failure TargetStatus.expired = true
is_failure _ = false

-- The row of management_rollout_guards that a rollout has, changed.
abbrev pub update_guard : (RolloutGuard → RolloutGuard) → Option RolloutGuard → Option RolloutGuard
update_guard f none = none
update_guard f (some g) = some (f g)

unfoldable pub paused_rollout : ℕ → String → Rollout → Rollout
paused_rollout now reason r =
    let r' =
      if is_running r.status
      then record r { status = RolloutStatus.paused; updated_at = now }
      else r in
    record r' {
      guard = update_guard (λ g. record g { healthy_since = none; pause_reason = reason }) r'.guard;
    }

-- pauseGuardedRollout
unfoldable pub pause_guarded_rollout : ℕ → String → String → Db → Db
unfolding paused_rollout
pause_guarded_rollout now id reason db = record db {
  rollouts = update_where (λ r. r.id == id) (paused_rollout now reason) db.rollouts;
}
