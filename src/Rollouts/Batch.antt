-- ===== src/Rollouts/Batch.antt =====
-- queueRolloutBatch of server/internal/store/sqlite.go: the next batch or wave of a rollout.
pub mod Waves
pub mod Guarded
use openwrt_rmm.Base.{
  ℕ, zero, suc, ◌+◌, ◌-◌, String, Bool, true, false, not, ◌&&◌, ◌||◌, Option, none, some, List, [],
  ◌∷◌, ◌++◌, length, take, any, all, contains, count_where, find_where, select_where, update_where,
  ltb, eqb, if◌then◌else◌, ◌==◌,
}
use openwrt_rmm.Schema.{
  Db, Command, Json, Rollout, RolloutDevice, RolloutGuard, RolloutStatus, TargetStatus, Error,
  no_rows, Result, Check, ok, err,
}
use openwrt_rmm.Env.{Env, hours}
use openwrt_rmm.Commands.{new_command, insert_command, in_flight}
use openwrt_rmm.Rollouts.Pause.{is_running}
use openwrt_rmm.Rollouts.Guard.{last_batch, is_completed, set_guard, guard_ready}

abbrev pub is_pending : TargetStatus → Bool
is_pending TargetStatus.pending = true
is_pending _ = false

abbrev pub is_queued : TargetStatus → Bool
is_queued TargetStatus.queued = true
is_queued _ = false

-- The targets whose command is still on its way.
unfoldable pub active_targets : Db → Rollout → ℕ
active_targets db r =
    count_where
      (λ d.
        is_queued d.status && any (λ c. (c.id == d.command_id) && in_flight c.status) db.commands)
      r.devices

-- WaveSizes[min(batch-2, len-1)]. An empty list, which validateRolloutGuard refuses, gives no wave.
unfoldable pub wave_size : List ℕ → ℕ → ℕ
wave_size [] k = 0
wave_size (s ∷ []) k = s
wave_size (s ∷ t ∷ sizes) zero = s
wave_size (s ∷ t ∷ sizes) (suc k) = wave_size (t ∷ sizes) k

-- The targets of the next batch: of a guarded rollout the canaries, then wave by wave.
unfoldable pub next_targets : Rollout → List RolloutDevice
unfolding wave_size last_batch
next_targets r =
    let pending = select_where (λ d. is_pending d.status) r.devices in
    let batch = suc (last_batch r.devices) in
    elim r.guard [
      | none ↦ take r.batch_size pending
      | some g ↦
          if eqb batch 1
          then select_where (λ d. contains g.canary_ids d.device_id) (take 500 pending)
          else take (wave_size g.wave_sizes (batch - 2)) (take 500 pending)
    ]

update_args : Rollout → RolloutDevice → List (String × String)
update_args r d =
    ("rollout_id", r.id)
    ∷ ("channel", r.channel)
    ∷ ("target_version", r.target_version)
    ∷ ("feed_url", d.feed_url)
    ∷ ("package_manager", d.package_manager)
    ∷ ("package", "rmm-agent-go-production")
    ∷ ("package_version", d.package_version)
    ∷ (if not (d.manifest_url == "") && not (d.signature_url == "")
        then ("manifest_url", d.manifest_url) ∷ ("signature_url", d.signature_url) ∷ []
        else [])

abbrev pub queued_target : ℕ → String → RolloutDevice → RolloutDevice
queued_target batch command_id d = record d {
  status = TargetStatus.queued;
  batch = batch;
  command_id = command_id;
}

abbrev pub set_target : String → String → (RolloutDevice → RolloutDevice) → Db → Db
set_target id device_id f db = record db {
  rollouts =
      update_where (λ r. r.id == id)
        (λ r. record r { devices = update_where (λ d. d.device_id == device_id) f r.devices })
        db.rollouts;
}

queue_command : Rollout → ℕ → RolloutDevice → Result Command → Db → Result Db
queue_command r batch d (ok c) db =
    ok (set_target r.id d.device_id (queued_target batch c.id) (insert_command c db))
queue_command r batch d (err e) db = err e

abbrev pub clear_guard : RolloutGuard → RolloutGuard
clear_guard g = record g { healthy_since = none; pause_reason = "" }

module _ (marshal : List (String × String) → Json) (env : Env) where
  queue_target : Rollout → ℕ → RolloutDevice → Db → Result Db
  unfolding queue_command update_args
  queue_target r batch d db =
      queue_command r batch d
        (new_command env db d.device_id "agent_update" (marshal (update_args r d)) (hours 24)) db

  -- The loop over the batch; an error ends it.
  unfoldable pub queue_targets : Rollout → ℕ → List RolloutDevice → Db → Result Db
  unfolding queue_target
  queue_targets r batch [] db = ok db
  queue_targets r batch (d ∷ ds) db = elim (queue_target r batch d db) [
    | err e ↦ err e
    | ok after ↦ queue_targets r batch ds after
  ]

  abbrev pub completed_rollout : Rollout → Rollout
  completed_rollout r = record r { status = RolloutStatus.completed; updated_at = env.now }

  -- Nothing was left to queue: the rollout is over when every target is completed.
  complete : Rollout → Db → Db
  complete r db = record db {
    rollouts =
        update_where (λ x. (x.id == r.id) && all (λ d. is_completed d.status) x.devices)
          completed_rollout db.rollouts;
  }

  pub commit_batch : List RolloutDevice → Rollout → Result Db → Db → Check × Db
  unfolding complete
  commit_batch [] r (ok after) db = (ok tt, complete r after)
  commit_batch (d ∷ ds) r (ok after) db = (ok tt, after)
  commit_batch ds r (err e) db = (err e, db)

  -- While commands of the last batch are on their way the transaction is rolled back.
  unfoldable pub queue_ready : Rollout → Db → Db → Check × Db
  unfolding active_targets commit_batch
  queue_ready r before db =
      if ltb 0 (active_targets db r)
      then (ok tt, before)
      else commit_batch (next_targets r) r
          (queue_targets r (suc (last_batch r.devices)) (next_targets r)
            (set_guard r.id clear_guard db))
          before

  queue_guarded : Rollout → Option RolloutGuard → Db → Check × Db
  queue_guarded r none db = queue_ready r db db
  queue_guarded r (some g) db =
      let (ready, checked) = guard_ready env.now r g db in
      if ready then queue_ready r db checked else (ok tt, checked)

  queue_found : Option Rollout → Db → Check × Db
  unfolding queue_guarded
  queue_found none db = (err no_rows, db)
  queue_found (some r) db = if is_running r.status then queue_guarded r r.guard db else (ok tt, db)

  -- queueRolloutBatch. `marshal` is json.Marshal of the command's arguments.
  unfoldable pub queue_rollout_batch : String → Db → Check × Db
  unfolding queue_found
  queue_rollout_batch id db = queue_found (find_where (λ r. r.id == id) db.rollouts) db
