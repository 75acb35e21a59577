-- ===== src/Rollouts/Batch/Waves.antt =====
-- When a rollout queues its next wave, and how large it is, server/internal/store/sqlite.go and
-- rollout_waves.go.
use openwrt_rmm.Base.{
  subst, find_where-true, eq_iff, ℕ, zero, suc, ◌+◌, ◌-◌, ◌≤◌, String, ◌≡◌, refl, sym, ap, ◌∙◌, ◌⊎◌,
  inl, inr, Bool, true, false, Option, none, some, List, [], ◌∷◌, ◌++◌, arith, length,
  length-append, take, contains, find_where, select_where, ltb, eqb, if◌then◌else◌, ◌==◌,
  Bool-cases, Option-cases,
}
use openwrt_rmm.Schema.{
  Db, Command, Json, Rollout, RolloutDevice, RolloutGuard, Result, Result-cases, ok, err,
}
use openwrt_rmm.Env.{hours, Env}
use openwrt_rmm.Commands.{new_command}
use openwrt_rmm.Rollouts.Pause.{is_running}
use openwrt_rmm.Rollouts.Guard.{last_batch, set_guard, guard_ready}
use openwrt_rmm.Rollouts.Guard.Ready.{MayGoOn, guard_ready-MayGoOn, commands-guard_ready}
use openwrt_rmm.Rollouts.Guard.Observed.{
  HasGuard, Watched, unchanged-Watched, set_guard-HasGuard, guard_ready-Watched,
}
use openwrt_rmm.Rollouts.Batch.Guarded.{Committed, commit_batch-cases, queue_targets-HasGuard}
use openwrt_rmm.Rollouts.Batch.{
  next_targets, wave_size, is_pending, update_args, queue_target, queue_command, queue_targets,
  queue_ready, queue_guarded, queue_found, queue_rollout_batch, commit_batch, clear_guard,
  active_targets,
}

-- What queueRolloutBatch adds to the commands: none, or a batch of a running rollout.
abbrev pub batch_limit : Rollout → ℕ
batch_limit r = elim r.guard [
  | none ↦ r.batch_size
  | some g ↦
      if eqb (last_batch r.devices) 0
      then length (select_where (λ d. contains g.canary_ids d.device_id) r.devices)
      else wave_size g.wave_sizes (last_batch r.devices - 1)
]

length-take : (n : ℕ) (xs : List RolloutDevice) → length (take n xs) ≤ n
length-take zero xs = omega arith
length-take (suc n) [] = omega arith
length-take (suc n) (x ∷ xs) = omega (arith, length-take n xs)

select_where-take :
    (p q : RolloutDevice → Bool) (n : ℕ) (xs : List RolloutDevice)
    → length (select_where p (take n (select_where q xs))) ≤ length (select_where p xs)
select_where-take p q zero xs = omega arith
select_where-take p q (suc n) [] = omega arith
select_where-take p q (suc n) (x ∷ xs) = elim (Bool-cases (q x)) [
  | inl t ↦ rw t (ground (arith, select_where-take p q n xs))
  | inr f ↦ rw f (ground (arith, select_where-take p q (suc n) xs))
]

first_batch : (n : ℕ) → eqb n 0 ≡ true → eqb (suc n) 1 ≡ true
first_batch n h = ground arith

later_batch : (n : ℕ) → eqb n 0 ≡ false → eqb (suc n) 1 ≡ false
later_batch n h = ground arith

less_two : (n : ℕ) → suc n - 2 ≡ n - 1
less_two n = omega arith

next_targets-limit : (r : Rollout) → length (next_targets r) ≤ batch_limit r
unfolding next_targets
next_targets-limit r = elim (Option-cases r.guard) [
  | inl n ↦ rw n (length-take r.batch_size (select_where (λ d. is_pending d.status) r.devices))
  | inr (g, e) ↦ rw e (elim (Bool-cases (eqb (last_batch r.devices) 0)) [
    | inl t ↦
        rw (t, first_batch (last_batch r.devices) t)
          (select_where-take (λ d. contains g.canary_ids d.device_id) (λ d. is_pending d.status) 500
            r.devices)
    | inr f ↦
        rw (f, later_batch (last_batch r.devices) f, less_two (last_batch r.devices))
          (length-take (wave_size g.wave_sizes (last_batch r.devices - 1))
            (take 500 (select_where (λ d. is_pending d.status) r.devices)))
  ])
]

queue_target-length :
    (marshal : List (String × String) → Json) (env : Env) (r : Rollout) (batch : ℕ)
    (d : RolloutDevice) (db after : Db)
    → queue_target marshal env r batch d db ≡ ok after
    → length after.commands ≡ length db.commands + 1
unfolding queue_target queue_command
queue_target-length marshal env r batch d db after h =
    elim (Result-cases
      (new_command env db d.device_id "agent_update" (marshal (update_args r d)) (hours 24))) [
        | inl (c, e) ↦
            let q = rw e at h in
            let shape : after.commands ≡ db.commands ++ c ∷ [] =
              sym (ap (λ (x : Result Db). commands_of x) q) in
            rw shape (length-append db.commands (c ∷ []))
        | inr (x, e) ↦ let q = rw e at h in cc
      ]
  where
    commands_of : Result Db → List Command
    commands_of (ok x) = x.commands
    commands_of (err e) = []

queue_targets-length :
    (marshal : List (String × String) → Json) (env : Env) (r : Rollout) (batch : ℕ)
    (ds : List RolloutDevice) (db after : Db)
    → queue_targets marshal env r batch ds db ≡ ok after
    → length after.commands ≡ length db.commands + length ds
unfolding queue_targets
queue_targets-length marshal env r batch [] db after h = ground arith
queue_targets-length marshal env r batch (d ∷ ds) db after h =
    elim (Result-cases (queue_target marshal env r batch d db)) [
      | inl (mid, e) ↦ omega (
        arith,
        queue_target-length marshal env r batch d db mid e,
        queue_targets-length marshal env r batch ds mid after (ground arith),
      )
      | inr (x, e) ↦ ground arith
    ]

-- The guard starts the observation of the new wave with nothing observed.
pub record Anew (r : Rollout) (rs : List Rollout) : Type 0 where
  pub next : RolloutGuard
  pub has : HasGuard r.id rs (some next)
  pub fresh : next.healthy_since ≡ none

-- What queueRolloutBatch found when it queued commands, how many it queued, and the guard then.
pub record Started (env : Env) (r : Rollout) (db after : Db) : Type 0 where
  pub runs : is_running r.status ≡ true
  pub may_go_on : (g : RolloutGuard) → r.guard ≡ some g → MayGoOn env.now r g db
  pub none_active : active_targets db r ≡ 0
  pub limited : length after.commands ≤ length db.commands + batch_limit r
  pub anew : (g : RolloutGuard) → r.guard ≡ some g → Anew r after.rollouts

-- No command is queued; the guard of a guarded rollout follows its observation.
pub record Waits (env : Env) (r : Rollout) (db after : Db) : Type 0 where
  pub same : after.commands ≡ db.commands
  pub watched : (g : RolloutGuard) → r.guard ≡ some g → Watched env.now r db g after.rollouts

module _ (marshal : List (String × String) → Json) (env : Env) where
  active_targets-commands :
      (r : Rollout) (db checked : Db)
      → checked.commands ≡ db.commands
      → active_targets checked r ≡ active_targets db r
  unfolding active_targets
  active_targets-commands r db checked same = rw same

  zero_of : (n : ℕ) → ltb 0 n ≡ false → n ≡ 0
  zero_of n h = ground arith

  queued_limit :
      (r : Rollout) (db checked after : Db) (last : List Command)
      → checked.commands ≡ db.commands
      → last ≡ after.commands
      → length after.commands ≡ length checked.commands + length (next_targets r)
      → length last ≤ length db.commands + batch_limit r
  queued_limit r db checked after last same q e =
      rw q (omega (arith, next_targets-limit r, ap (λ (cs : List Command). length cs) same))

  -- What one call may do.
  Outcome : Rollout → Db → Db → Type 0
  Outcome r db after = Waits env r db after ⊎ Started env r db after

  unchanged-Waits : (r : Rollout) (db : Db) → HasGuard r.id db.rollouts r.guard → Waits env r db db
  unchanged-Waits r db k = record {
    same = refl;
    watched = λ g e. unchanged-Watched env.now r db g (subst (HasGuard r.id db.rollouts) e k);
  }

  -- The guard of the rollout after the checks of one that may go on.
  Checked : Rollout → Db → Type 0
  Checked r checked =
      (g : RolloutGuard)
      → r.guard ≡ some g
      → (h : RolloutGuard) × HasGuard r.id checked.rollouts (some h)

  Committed-Anew :
      (r : Rollout) (checked before : Db)
      → Checked r checked
      → (c : Committed marshal env
          (next_targets r)
          r
          (queue_targets marshal env r
            (suc (last_batch r.devices))
            (next_targets r)
            (set_guard r.id clear_guard checked))
          before)
      → (g : RolloutGuard) → r.guard ≡ some g
      → Anew r
          (commit_batch marshal env
            (next_targets r)
            r
            (queue_targets marshal env r
              (suc (last_batch r.devices))
              (next_targets r)
              (set_guard r.id clear_guard checked))
            before).1.rollouts
  unfolding Checked
  Committed-Anew r checked before k c g e =
      let (h, has) = k g e in
      record {
        next = clear_guard h;
        has = c.same_guard r.id (some (clear_guard h)) (
            queue_targets-HasGuard marshal env r.id (some (clear_guard h)) r
              (suc (last_batch r.devices)) (next_targets r) (set_guard r.id clear_guard checked)
              c.after c.queued (set_guard-HasGuard r.id clear_guard h checked has));
        fresh = refl;
      }

  queue_ready-Outcome :
      (r : Rollout) (db checked : Db)
      → is_running r.status ≡ true
      → checked.commands ≡ db.commands
      → ((g : RolloutGuard) → r.guard ≡ some g → MayGoOn env.now r g db)
      → HasGuard r.id db.rollouts r.guard
      → Checked r checked
      → Outcome r db (queue_ready marshal env r db checked).1
  unfolding Outcome queue_ready
  queue_ready-Outcome r db checked runs same go k m =
      elim (Bool-cases (ltb 0 (active_targets checked r))) [
        | inl t ↦ rw t (inl (unchanged-Waits r db k))
        | inr f ↦
            rw f
              (elim (commit_batch-cases marshal env (next_targets r) r
                (queue_targets marshal env r (suc (last_batch r.devices)) (next_targets r)
                  (set_guard r.id clear_guard checked))
                db) [
                  | inl e ↦ rw e (inl (unchanged-Waits r db k))
                  | inr c ↦ inr (record {
                    runs = runs;
                    may_go_on = go;
                    none_active =
                        sym (active_targets-commands r db checked same)
                        ∙ zero_of (active_targets checked r) f;
                    limited = queued_limit r db checked c.after _ same c.same_commands (
                        queue_targets-length marshal env r (suc (last_batch r.devices))
                          (next_targets r) (set_guard r.id clear_guard checked) c.after c.queued);
                    anew = Committed-Anew r checked db m c;
                  })
                ])
      ]

  queue_guarded-Outcome :
      (r : Rollout) (o : Option RolloutGuard) (db : Db)
      → r.guard ≡ o
      → is_running r.status ≡ true
      → HasGuard r.id db.rollouts r.guard
      → Outcome r db (queue_guarded marshal env r o db).1
  unfolding queue_guarded Outcome Checked
  queue_guarded-Outcome r none db e runs k =
      queue_ready-Outcome r db db runs refl (λ g h. ground arith) k (λ g h. ground arith)
  queue_guarded-Outcome r (some g) db e runs k =
      let seen = guard_ready-Watched env.now r g db (subst (HasGuard r.id db.rollouts) e k) in
      elim (Bool-cases (guard_ready env.now r g db).0) [
        | inl t ↦ rw t (
            queue_ready-Outcome r db (guard_ready env.now r g db).1 runs
              (commands-guard_ready env.now r g db)
              (λ g' h. let same : g' ≡ g = cc in rw same (guard_ready-MayGoOn env.now r g db t)) k
              (λ g' h. (seen.next, seen.has)))
        | inr f ↦ rw f (
            inl (record {
              same = commands-guard_ready env.now r g db;
              watched = λ g' h. let same : g' ≡ g = cc in rw same seen;
            }))
      ]

  -- queueRolloutBatch adds no command, and then the guard of a guarded rollout is as it was, or its
  -- observation goes on, begins with this check of a sound wave, or is given up. Or the rollout
  -- runs, none of its commands is on its way, and it adds at most a batch: the batch size, or for a
  -- guarded rollout the canaries, then the size of the wave. A guarded rollout then queues its first
  -- wave, or every known target of its last wave has completed, reports the version, was seen within
  -- two minutes and is not offline, and the guard has recorded the observation of the wave for the
  -- whole period with no gap of more than two minutes since the last check; and the guard starts the
  -- next wave with nothing observed.
  pub queue_rollout_batch-Started :
      (id : String) (r : Rollout) (db : Db)
      → find_where (λ x. x.id == id) db.rollouts ≡ some r
      → Waits env r db (queue_rollout_batch marshal env id db).1
        ⊎ Started env r db (queue_rollout_batch marshal env id db).1
  unfolding queue_rollout_batch queue_found Outcome
  queue_rollout_batch-Started id r db f =
      let own : r.id ≡ id =
        ground (arith, find_where-true (λ x. x.id == id) db.rollouts r f, eq_iff r.id id) in
      let k : HasGuard r.id db.rollouts r.guard =
        subst (λ i. HasGuard i db.rollouts r.guard) (sym own)
          (record { row = r; found = f; holds = refl }) in
      elim (Bool-cases (is_running r.status)) [
        | inl t ↦ rw (f, t) (queue_guarded-Outcome r r.guard db refl t k)
        | inr n ↦ rw (f, n) (inl (unchanged-Waits r db k))
      ]
