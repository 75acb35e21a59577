-- ===== src/Rollouts/Report.antt =====
-- HandleAgentRolloutResult of server/internal/store/sqlite.go, and the calls of handleCommandResult
-- in server/internal/httpapi/server.go that store what an agent reports.
pub mod Foreign
use openwrt_rmm.Base.{
  ℕ, suc, ◌+◌, String, Bool, true, false, not, ◌&&◌, Option, none, some, List, any, find_where,
  update_where, leb, if◌then◌else◌, ◌==◌,
}
use openwrt_rmm.Schema.{
  ℤ, Db, CommandStatus, Json, Rollout, RolloutDevice, RolloutStatus, TargetStatus,
}
use openwrt_rmm.Env.{Env}
use openwrt_rmm.Commands.{save_command_result}
use openwrt_rmm.Rollouts.Pause.{is_running}

abbrev pub is_completed_command : CommandStatus → Bool
is_completed_command CommandStatus.completed = true
is_completed_command _ = false

abbrev pub failed_target : String → RolloutDevice → RolloutDevice
failed_target output d = record d { status = TargetStatus.failed; last_error = output }

abbrev pub waiting_target : RolloutDevice → RolloutDevice
waiting_target d = record d { status = TargetStatus.waiting_reconnect; last_error = "" }

abbrev pub on_device : String → RolloutDevice → Bool
on_device device_id d = d.device_id == device_id

-- failure_count + 1, and the pause at the threshold, of a running rollout
count_failure : ℕ → Rollout → Rollout
count_failure now r =
    if is_running r.status
    then record r {
      failure_count = r.failure_count + 1;
      status =
          if leb r.failure_threshold (r.failure_count + 1) then RolloutStatus.paused else r.status;
      updated_at = now;
    }
    else r

unfoldable pub failed_rollout : ℕ → String → String → Rollout → Rollout
unfolding count_failure
failed_rollout now device_id output r =
    count_failure now
      (record r { devices = update_where (on_device device_id) (failed_target output) r.devices })

abbrev pub updated_rollout : String → Rollout → Rollout
updated_rollout device_id r = record r {
  devices = update_where (on_device device_id) waiting_target r.devices;
}

handle_target : ℕ → CommandStatus → String → Rollout → Option RolloutDevice → Db → Db
unfolding failed_rollout
handle_target now status output r none db = db
handle_target now status output r (some d) db = record db {
  rollouts =
      update_where (λ x. x.id == r.id)
        (if is_completed_command status
          then updated_rollout d.device_id
          else failed_rollout now d.device_id output)
        db.rollouts;
}

handle_rollout : ℕ → String → CommandStatus → String → Option Rollout → Db → Db
unfolding handle_target
handle_rollout now command_id status output none db = db
handle_rollout now command_id status output (some r) db =
    handle_target now status output r (find_where (λ d. d.command_id == command_id) r.devices) db

-- HandleAgentRolloutResult
unfoldable pub handle_agent_rollout_result : ℕ → String → CommandStatus → String → Db → Db
unfolding handle_rollout
handle_agent_rollout_result now command_id status output db =
    handle_rollout now command_id status output
      (find_where (λ r. any (λ d. d.command_id == command_id) r.devices) db.rollouts) db

-- SaveCommandResult, then HandleAgentRolloutResult, whether or not the result was taken.
unfoldable pub store_report :
    Env → String → String → CommandStatus → ℤ → String → Json → Db → Bool × Db
store_report env command_id device_id status exit_code output result db =
    let (found, saved) =
      save_command_result env command_id device_id status exit_code output result db in
    (found, handle_agent_rollout_result env.now command_id status output saved)
