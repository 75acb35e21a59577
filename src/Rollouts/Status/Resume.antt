-- ===== src/Rollouts/Status/Resume.antt =====
-- What resuming a guarded rollout does, server/internal/store/sqlite.go and rollout_waves.go.
use openwrt_rmm.Base.{
  sym, none, ◌⊎◌, ℕ, String, ◌≡◌, refl, ap, ◌∙◌, ◌≢◌, inl, inr, Bool, true, false, some, List, [],
  ◌∷◌, arith, any, find_where, find_where-true, update_where, if◌then◌else◌, Bool-cases,
}
use openwrt_rmm.Schema.{Db, Json, Rollout, RolloutGuard, RolloutStatus}
use openwrt_rmm.Env.{Env}
use openwrt_rmm.Rollouts.Guard.{last_batch}
use openwrt_rmm.Rollouts.Guard.Observed.{HasGuard, Watching, unchecked, goes_on, begins, stops}
use openwrt_rmm.Rollouts.Guard.Ready.{MayGoOn}
use openwrt_rmm.Rollouts.Batch.{queue_rollout_batch}
use openwrt_rmm.Rollouts.Batch.Waves.{queue_rollout_batch-Started}
use openwrt_rmm.Rollouts.Status.{
  named, changeable, reset_guard, set_status, change_rollout, set_agent_rollout_status,
}

find_where-changed :
    (env : Env) (id : String) (status : RolloutStatus) (rs : List Rollout) (r : Rollout)
    → find_where (named id) rs ≡ some r
    → find_where (named id) (update_where (changeable id) (set_status env status) rs)
      ≡ some (if changeable id r then set_status env status r else r)
find_where-changed env id status [] r h = cc
find_where-changed env id status (x ∷ xs) r h =
    ground (arith, find_where-changed env id status xs r)

-- The guard of a rollout that was just reset lets nothing more than the first wave go.
reset-MayGoOn :
    (now : ℕ) (r : Rollout) (g : RolloutGuard) (status : RolloutStatus) (db : Db)
    → last_batch r.devices ≢ 0
    → ¬ MayGoOn now r (reset_guard status g) db
reset-MayGoOn now r g status db ne (inl e) = ne e
reset-MayGoOn now r g status db ne (inr (sound, (since, e, le))) = cc

-- The guard of the rollout after a resume: its observation has nothing yet, or begins now.
pub record Fresh (env : Env) (r : Rollout) (rs : List Rollout) : Type 0 where
  pub next : RolloutGuard
  pub has : HasGuard r.id rs (some next)
  pub since : (next.healthy_since ≡ none) ⊎ (next.healthy_since ≡ some env.now)

Watching-reset :
    (now : ℕ) (r : Rollout) (db : Db) (g h : RolloutGuard) (status : RolloutStatus)
    → Watching now r db (reset_guard status g) h
    → (h.healthy_since ≡ none) ⊎ (h.healthy_since ≡ some now)
Watching-reset now r db g h status (unchecked e l) = inl e
Watching-reset now r db g h status (goes_on t s o e l) = absurd (ground (arith, o))
Watching-reset now r db g h status (begins s o e l) = inr e
Watching-reset now r db g h status (stops e) = inl e

-- What a resume does: no command is queued, and the observation is fresh, but for a rollout that is
-- cancelled or completed.
pub record Resumed (env : Env) (id : String) (r : Rollout) (db after : Db) : Type 0 where
  pub same : after.commands ≡ db.commands
  pub afresh : (changeable id r ≡ false) ⊎ Fresh env r after.rollouts

queue-reset :
    (marshal : List (String × String) → Json) (env : Env) (id : String) (r : Rollout)
    (g : RolloutGuard) (db : Db)
    → find_where (named id) db.rollouts ≡ some r
    → r.guard ≡ some (reset_guard RolloutStatus.running g)
    → last_batch r.devices ≢ 0
    → ((queue_rollout_batch marshal env id db).1.commands ≡ db.commands)
      × Fresh env r (queue_rollout_batch marshal env id db).1.rollouts
queue-reset marshal env id r g db f e ne =
    elim (queue_rollout_batch-Started marshal env id r db f) [
      | inl waits ↦ (
        waits.same,
        let seen = waits.watched (reset_guard RolloutStatus.running g) e in
            record {
              next = seen.next;
              has = seen.has;
              since = Watching-reset env.now r db g seen.next RolloutStatus.running seen.watching;
            },
      )
      | inr started ↦ absurd (
          reset-MayGoOn env.now r g RolloutStatus.running db ne
            (started.may_go_on (reset_guard RolloutStatus.running g) e))
    ]

-- A rollout that cannot be changed does not run.
queue-finished :
    (marshal : List (String × String) → Json) (env : Env) (id : String) (r : Rollout) (db : Db)
    → find_where (named id) db.rollouts ≡ some r
    → named id r ≡ true
    → changeable id r ≡ false
    → (queue_rollout_batch marshal env id db).1.commands ≡ db.commands
queue-finished marshal env id r db f own n =
    elim (queue_rollout_batch-Started marshal env id r db f) [
      | inl waits ↦ waits.same
      | inr started ↦ absurd (ground (arith, started.runs))
    ]

if_true : (b : Bool) (x y : Rollout) → b ≡ true → (if b then x else y) ≡ x
if_true b x y h = rw h refl

if_false : (b : Bool) (x y : Rollout) → b ≡ false → (if b then x else y) ≡ y
if_false b x y h = rw h refl

none_found :
    (p q : Rollout → Bool) (rs : List Rollout) (r : Rollout)
    → any p rs ≡ false
    → find_where q rs ≡ some r
    → p r ≡ false
none_found p q [] r h f = cc
none_found p q (x ∷ xs) r h f = elim (Bool-cases (q x)) [
  | inl t ↦ let same : x ≡ r = ground (arith, f, t) in rw (sym same) (ground (arith, h))
  | inr n ↦ none_found p q xs r (ground (arith, h)) (ground (arith, f, n))
]

-- Resuming a guarded rollout that has queued a wave queues no command. When the rollout is neither
-- cancelled nor completed, the observation of its last wave starts anew: the guard has then no start
-- of a healthy time, or the time of the resume.
pub resume-waits :
    (marshal : List (String × String) → Json) (env : Env) (id : String) (r : Rollout)
    (g : RolloutGuard) (db : Db)
    → find_where (named id) db.rollouts ≡ some r
    → r.guard ≡ some g
    → last_batch r.devices ≢ 0
    → Resumed env id r db (set_agent_rollout_status marshal env id RolloutStatus.running db).1
unfolding set_agent_rollout_status change_rollout
resume-waits marshal env id r g db f e ne = elim (Bool-cases (any (changeable id) db.rollouts)) [
  | inr n ↦ rw n (record {
    same = refl;
    afresh = inl (none_found (changeable id) (named id) db.rollouts r n f);
  })
  | inl live ↦ rw live (elim (Bool-cases (changeable id r)) [
    | inl t ↦
        let done =
          queue-reset marshal env id (set_status env RolloutStatus.running r) g
            (change_rollout env id RolloutStatus.running db)
            (find_where-changed env id RolloutStatus.running db.rollouts r f
              ∙ ap some (if_true (changeable id r) (set_status env RolloutStatus.running r) r t))
            (rw e refl) ne in
        record {
          same = done.0;
          afresh = inr (record { next = done.1.next; has = done.1.has; since = done.1.since });
        }
    | inr n ↦ record {
      same =
          queue-finished marshal env id r (change_rollout env id RolloutStatus.running db)
            (find_where-changed env id RolloutStatus.running db.rollouts r f
              ∙ ap some (if_false (changeable id r) (set_status env RolloutStatus.running r) r n))
            (find_where-true (named id) db.rollouts r f) n;
      afresh = inl n;
    }
  ])
]
