-- ===== src/Rollouts/Batch/Guarded.antt =====
-- What queuing a batch does to the guard of the rollout, server/internal/store/sqlite.go.
use openwrt_rmm.Base.{
  ℕ, String, ◌≡◌, refl, inl, inr, Option, List, [], ◌∷◌, arith, update_where, ◌==◌, Bool-cases,
  ◌&&◌, all, ◌⊎◌,
}
use openwrt_rmm.Schema.{
  Db, Command, Json, Rollout, RolloutDevice, RolloutGuard, Result, Result-cases, ok, err,
}
use openwrt_rmm.Env.{hours, Env}
use openwrt_rmm.Commands.{new_command, insert_command}
use openwrt_rmm.Rollouts.Guard.{is_completed}
use openwrt_rmm.Rollouts.Guard.Observed.{HasGuard, update-HasGuard}
use openwrt_rmm.Rollouts.Batch.{
  set_target, queued_target, update_args, queue_target, queue_command, queue_targets, complete,
  completed_rollout, commit_batch,
}

set_target-HasGuard :
    (id name device_id : String) (f : RolloutDevice → RolloutDevice) (o : Option RolloutGuard)
    (db : Db)
    → HasGuard id db.rollouts o
    → HasGuard id (set_target name device_id f db).rollouts o
set_target-HasGuard id name device_id f o db h =
    update-HasGuard id (λ r. r.id == name)
      (λ r. record r { devices = update_where (λ d. d.device_id == device_id) f r.devices })
      (λ r. refl) o o
      (λ r t e. elim (Bool-cases (r.id == name)) [ inl y ↦ rw y e | inr n ↦ rw n e ]) db.rollouts h

queue_command-HasGuard :
    (id : String) (o : Option RolloutGuard) (r : Rollout) (batch : ℕ) (d : RolloutDevice)
    (c : Result Command) (db after : Db)
    → queue_command r batch d c db ≡ ok after
    → HasGuard id db.rollouts o
    → HasGuard id after.rollouts o
unfolding queue_command
queue_command-HasGuard id o r batch d (ok c) db after e h =
    let shape : after
        ≡ set_target r.id d.device_id (queued_target batch c.id) (insert_command c db) =
      cc in
    let kept =
      set_target-HasGuard id r.id d.device_id (queued_target batch c.id) o (insert_command c db)
        h in
    rw shape kept
queue_command-HasGuard id o r batch d (err x) db after e h = cc

module _ (marshal : List (String × String) → Json) (env : Env) where
  pub queue_targets-HasGuard :
      (id : String) (o : Option RolloutGuard) (r : Rollout) (batch : ℕ) (ds : List RolloutDevice)
      (db after : Db)
      → queue_targets marshal env r batch ds db ≡ ok after
      → HasGuard id db.rollouts o
      → HasGuard id after.rollouts o
  unfolding queue_targets queue_target
  queue_targets-HasGuard id o r batch [] db after e h = let shape : after ≡ db = cc in rw shape h
  queue_targets-HasGuard id o r batch (d ∷ ds) db after e h =
      elim (Result-cases (queue_target marshal env r batch d db)) [
        | inl (mid, q) ↦ queue_targets-HasGuard id o r batch ds mid after (ground arith) (
            queue_command-HasGuard id o r batch d
              (new_command env db d.device_id "agent_update" (marshal (update_args r d)) (hours 24))
              db mid q h)
        | inr (x, q) ↦ ground arith
      ]

  complete-HasGuard :
      (id : String) (o : Option RolloutGuard) (r : Rollout) (db : Db)
      → HasGuard id db.rollouts o
      → HasGuard id (complete marshal env r db).rollouts o
  unfolding complete
  complete-HasGuard id o r db h =
      update-HasGuard id (λ x. (x.id == r.id) && all (λ d. is_completed d.status) x.devices)
        (completed_rollout marshal env) (λ x. refl) o o
        (λ x t e. elim (Bool-cases ((x.id == r.id) && all (λ d. is_completed d.status) x.devices)) [
          | inl y ↦ rw y e
          | inr n ↦ rw n e
        ])
        db.rollouts h

  -- A batch that could not be queued leaves everything; one that was leaves its commands and guards.
  pub record Committed (ds : List RolloutDevice) (r : Rollout) (x : Result Db) (before : Db)
      : Type 0 where
    pub after : Db
    pub queued : x ≡ ok after
    pub same_commands : (commit_batch marshal env ds r x before).1.commands ≡ after.commands
    pub same_guard :
        (id : String) (o : Option RolloutGuard)
        → HasGuard id after.rollouts o
        → HasGuard id (commit_batch marshal env ds r x before).1.rollouts o

  pub commit_batch-cases :
      (ds : List RolloutDevice) (r : Rollout) (x : Result Db) (before : Db)
      → ((commit_batch marshal env ds r x before).1 ≡ before) ⊎ Committed ds r x before
  unfolding commit_batch complete
  commit_batch-cases [] r (ok after) before = inr (record {
    after = after;
    queued = refl;
    same_commands = refl;
    same_guard = λ id o h. complete-HasGuard id o r after h;
  })
  commit_batch-cases (d ∷ ds) r (ok after) before =
      inr (record { after = after; queued = refl; same_commands = refl; same_guard = λ id o h. h })
  commit_batch-cases ds r (err e) before = inl refl
