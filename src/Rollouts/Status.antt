-- ===== src/Rollouts/Status.antt =====
-- SetAgentRolloutStatus of server/internal/store/sqlite.go: an operator pauses, resumes or cancels
-- a rollout.
pub mod Resume
use openwrt_rmm.Base.{
  String, Bool, true, false, not, ◌&&◌, Option, none, some, List, any, update_where, if◌then◌else◌,
  ◌==◌,
}
use openwrt_rmm.Schema.{
  Db, Command, CommandStatus, Json, Rollout, RolloutGuard, RolloutStatus, Error, no_rows, other,
  Check, ok, err,
}
use openwrt_rmm.Env.{Env}
use openwrt_rmm.Commands.{is_queued}
use openwrt_rmm.Rollouts.Pause.{is_running, update_guard}
use openwrt_rmm.Rollouts.Batch.{queue_rollout_batch}

abbrev pub is_cancelled : RolloutStatus → Bool
is_cancelled RolloutStatus.cancelled = true
is_cancelled _ = false

abbrev pub is_completed : RolloutStatus → Bool
is_completed RolloutStatus.completed = true
is_completed _ = false

abbrev is_paused : RolloutStatus → Bool
is_paused RolloutStatus.paused = true
is_paused _ = false

abbrev pub named : String → Rollout → Bool
named id r = r.id == id

-- status NOT IN ('cancelled','completed')
abbrev pub changeable : String → Rollout → Bool
changeable id r = named id r && not (is_cancelled r.status) && not (is_completed r.status)

-- The guard starts its observation anew.
abbrev pub reset_guard : RolloutStatus → RolloutGuard → RolloutGuard
reset_guard status g = record g {
  healthy_since = none;
  last_checked_at = none;
  pause_reason = if is_paused status then "paused by operator" else "";
}

abbrev pub set_status : Env → RolloutStatus → Rollout → Rollout
set_status env status r = record r {
  status = status;
  updated_at = env.now;
  guard = update_guard (reset_guard status) r.guard;
}

-- The queued commands of the rollout.
abbrev pub withdrawn : String → List Rollout → Command → Bool
withdrawn id rs c =
    is_queued c.status && any (λ r. named id r && any (λ d. d.command_id == c.id) r.devices) rs

abbrev cancelled_command : Env → Command → Command
cancelled_command env c = record c { status = CommandStatus.cancelled; cancelled_at = some env.now }

-- The statements of the transaction.
unfoldable pub change_rollout : Env → String → RolloutStatus → Db → Db
change_rollout env id status db = record db {
  commands =
      if is_cancelled status
      then update_where (withdrawn id db.rollouts) (cancelled_command env) db.commands
      else db.commands;
  rollouts = update_where (changeable id) (set_status env status) db.rollouts;
}

-- SetAgentRolloutStatus. A resumed rollout queues its next batch.
unfoldable pub set_agent_rollout_status :
    (List (String × String) → Json) → Env → String → RolloutStatus → Db → Check × Db
set_agent_rollout_status marshal env id status db =
    if is_completed status
    then (err (other "invalid rollout status"), db)
    else if not (any (changeable id) db.rollouts)
    then (err no_rows, db)
    else if is_running status
    then queue_rollout_batch marshal env id (change_rollout env id status db)
    else (ok tt, change_rollout env id status db)
