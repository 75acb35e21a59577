-- ===== src/Rollouts/Report/Foreign.antt =====
-- Reports on a command that the reporting device does not have, server/internal/httpapi/server.go.
use openwrt_rmm.Base.{
  ℕ, String, ◌≡◌, refl, inl, inr, false, some, arith, All, All-update_where-full, any, find_where,
  update_where, if◌then◌else◌, ◌==◌, eq_iff, Bool-cases,
}
use openwrt_rmm.Schema.{ℤ, Db, CommandStatus, Json, Rollout, RolloutDevice, TargetStatus}
use openwrt_rmm.Env.{Env}
use openwrt_rmm.Commands.{save_command_result, result_row}
use openwrt_rmm.Rollouts.Pause.{is_running}
use openwrt_rmm.Rollouts.Report.{
  store_report, handle_agent_rollout_result, handle_rollout, handle_target, failed_rollout,
  failed_target, count_failure, on_device,
}

-- The target of the rollout on the device has failed.
abbrev pub FailedTarget : String → String → Rollout → Type 0
FailedTarget rollout_id device_id r =
    r.id ≡ rollout_id
    → All (λ d. d.device_id ≡ device_id → d.status ≡ TargetStatus.failed) r.devices

target_failed :
    (device_id output : String) (d : RolloutDevice)
    → (if on_device device_id d then failed_target output d else d).device_id ≡ device_id
    → (if on_device device_id d then failed_target output d else d).status ≡ TargetStatus.failed
target_failed device_id output d h = ground (arith, eq_iff d.device_id device_id)

devices-failed_rollout :
    (now : ℕ) (device_id output : String) (r : Rollout)
    → (failed_rollout now device_id output r).devices
      ≡ update_where (on_device device_id) (failed_target output) r.devices
unfolding failed_rollout count_failure
devices-failed_rollout now device_id output r = elim (Bool-cases (is_running r.status)) [
  | inl t ↦ rw t refl
  | inr f ↦ rw f refl
]

failed_rollout-FailedTarget :
    (now : ℕ) (rollout_id device_id output : String) (r : Rollout)
    → FailedTarget rollout_id device_id
        (if r.id == rollout_id then failed_rollout now device_id output r else r)
failed_rollout-FailedTarget now rollout_id device_id output r =
    elim (Bool-cases (r.id == rollout_id)) [
      | inl t ↦ rw t (λ e. rw (devices-failed_rollout now device_id output r) (
          All-update_where-full (λ d. d.device_id ≡ device_id → d.status ≡ TargetStatus.failed)
            (on_device device_id) (failed_target output) r.devices
            (target_failed device_id output)))
      | inr f ↦ rw f (λ e. ground (arith, eq_iff r.id rollout_id))
    ]

rollouts-save_command_result :
    (env : Env) (command_id device_id : String) (code : ℤ) (output : String) (result : Json)
    (db : Db)
    → any (result_row command_id device_id) db.commands ≡ false
    → ((save_command_result env command_id device_id CommandStatus.failed code output result db).0
        ≡ false)
      × ((save_command_result env command_id device_id CommandStatus.failed code output result
            db).1.rollouts
          ≡ db.rollouts)
unfolding save_command_result
rollouts-save_command_result env command_id device_id code output result db h =
    (rw h refl, rw h refl)

-- When a device reports a failure of a command of which no row takes its result, such as the
-- command of another device, the report is refused, and still the rollout target that the command
-- updates is marked as failed.
pub store_report-foreign :
    (env : Env) (command_id device_id : String) (code : ℤ) (output : String) (result : Json)
    (db : Db) (r : Rollout) (d : RolloutDevice)
    → any (result_row command_id device_id) db.commands ≡ false
    → find_where (λ x. any (λ t. t.command_id == command_id) x.devices) db.rollouts ≡ some r
    → find_where (λ t. t.command_id == command_id) r.devices ≡ some d
    → ((store_report env command_id device_id CommandStatus.failed code output result db).0 ≡ false)
      × All
          (FailedTarget r.id d.device_id)
          (store_report env command_id device_id CommandStatus.failed code output result
            db).1.rollouts
unfolding store_report handle_agent_rollout_result handle_rollout handle_target
store_report-foreign env command_id device_id code output result db r d h f g =
    let (refused, same) =
      rollouts-save_command_result env command_id device_id code output result db h in
    (
      refused,
      rw (same, f, g)
          (All-update_where-full (FailedTarget r.id d.device_id) (λ x. x.id == r.id)
            (failed_rollout env.now d.device_id output)
            (save_command_result env command_id device_id CommandStatus.failed code output result
              db).1.rollouts
            (failed_rollout-FailedTarget env.now r.id d.device_id output)),
    )
