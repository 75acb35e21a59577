-- ===== src/Rollouts/Guard/Observed.antt =====
-- What becomes of the guard of a rollout, and so of the observation of its last wave,
-- server/internal/store/rollout_waves.go.
use openwrt_rmm.Base.{
  ℕ, String, ◌≡◌, refl, inl, inr, Bool, true, Option, none, some, List, [], ◌∷◌, arith, find_where,
  update_where, eqb, ◌==◌, Bool-cases, if◌then◌else◌,
}
use openwrt_rmm.Schema.{Db, Rollout, RolloutGuard}
use openwrt_rmm.Rollouts.Pause.{is_running, update_guard, paused_rollout, pause_guarded_rollout}
use openwrt_rmm.Rollouts.Guard.{
  Health, healthy, waiting, broken, wave_health, last_batch, guard_ready, observed_since,
  wave_failed, after_health, observe, set_guard, checked_guard, observed_guard,
}
use openwrt_rmm.Rollouts.Guard.Ready.{SoundWave, wave_health-Sound}

-- The rollout's guard in the table.
pub record HasGuard (id : String) (rs : List Rollout) (o : Option RolloutGuard) : Type 0 where
  pub row : Rollout
  pub found : find_where (λ r. r.id == id) rs ≡ some row
  pub holds : row.guard ≡ o

-- An update that keeps the identifiers changes the guard as it changes that of a row.
module _ (id : String) (p : Rollout → Bool) (f : Rollout → Rollout)
    (same_id : (r : Rollout) → (f r).id ≡ r.id) where
  same_name : (r : Rollout) → (if p r then f r else r).id ≡ r.id
  same_name r = elim (Bool-cases (p r)) [ inl t ↦ rw t (same_id r) | inr n ↦ rw n refl ]

  pub update-HasGuard :
      (o o' : Option RolloutGuard)
      → ((r : Rollout) → (r.id == id) ≡ true → r.guard ≡ o → (if p r then f r else r).guard ≡ o')
      → (rs : List Rollout) → HasGuard id rs o
      → HasGuard id (update_where p f rs) o'
  update-HasGuard o o' change [] h = absurd (ground (arith, h.found))
  update-HasGuard o o' change (r ∷ rs) h = elim (Bool-cases (r.id == id)) [
    | inl t ↦
        let same : r ≡ h.row = ground (arith, h.found, t) in
        record {
          row = if p r then f r else r;
          found = rw (same_name r, t) refl;
          holds = change r t (rw same h.holds);
        }
    | inr n ↦
        let rest =
          update-HasGuard o o' change rs
            (record { row = h.row; found = ground (arith, h.found, n); holds = h.holds }) in
        record { row = rest.row; found = rw (same_name r, n) rest.found; holds = rest.holds }
  ]

pub set_guard-HasGuard :
    (id : String) (f : RolloutGuard → RolloutGuard) (g : RolloutGuard) (db : Db)
    → HasGuard id db.rollouts (some g)
    → HasGuard id (set_guard id f db).rollouts (some (f g))
set_guard-HasGuard id f g db h =
    update-HasGuard id (λ r. r.id == id) (λ r. record r { guard = update_guard f r.guard })
      (λ r. refl) (some g) (some (f g)) (λ r t e. rw (t, e) refl) db.rollouts h

paused-id : (now : ℕ) (reason : String) (r : Rollout) → (paused_rollout now reason r).id ≡ r.id
unfolding paused_rollout
paused-id now reason r = ground arith

paused-guard :
    (now : ℕ) (reason : String) (r : Rollout) (g : RolloutGuard)
    → r.guard ≡ some g
    → (paused_rollout now reason r).guard
      ≡ some (record g { healthy_since = none; pause_reason = reason })
unfolding paused_rollout
paused-guard now reason r g e = elim (Bool-cases (is_running r.status)) [
  | inl t ↦ rw (t, e) refl
  | inr n ↦ rw (n, e) refl
]

pause-HasGuard :
    (now : ℕ) (id reason : String) (g : RolloutGuard) (db : Db)
    → HasGuard id db.rollouts (some g)
    → HasGuard id
        (pause_guarded_rollout now id reason db).rollouts
        (some (record g { healthy_since = none; pause_reason = reason }))
unfolding pause_guarded_rollout
pause-HasGuard now id reason g db h =
    update-HasGuard id (λ r. r.id == id) (paused_rollout now reason) (paused-id now reason) (some g)
      _ (λ r t e. rw t (paused-guard now reason r g e)) db.rollouts h

-- The guard after a check at the time `now`: nothing was checked; or the last wave is sound, and its
-- observation goes on or begins now; or the observation is given up.
pub data Watching (now : ℕ) (r : Rollout) (db : Db) (g h : RolloutGuard) : Type 0 where
  unchecked :
      h.healthy_since ≡ g.healthy_since
      → h.last_checked_at ≡ g.last_checked_at
      → Watching now r db g h
  goes_on :
      (since : ℕ)
      → SoundWave now r db
      → observed_since now g ≡ some since
      → h.healthy_since ≡ some since
      → h.last_checked_at ≡ some now
      → Watching now r db g h
  begins :
      SoundWave now r db
      → observed_since now g ≡ none
      → h.healthy_since ≡ some now
      → h.last_checked_at ≡ some now
      → Watching now r db g h
  stops : h.healthy_since ≡ none → Watching now r db g h

-- The guard in the table of a checked rollout.
pub record Watched (now : ℕ) (r : Rollout) (db : Db) (g : RolloutGuard) (rs : List Rollout)
    : Type 0 where
  pub next : RolloutGuard
  pub has : HasGuard r.id rs (some next)
  pub watching : Watching now r db g next

pub unchanged-Watched :
    (now : ℕ) (r : Rollout) (db : Db) (g : RolloutGuard)
    → HasGuard r.id db.rollouts (some g)
    → Watched now r db g db.rollouts
unchanged-Watched now r db g h = record { next = g; has = h; watching = unchecked refl refl }

observed_since-some :
    (now since : ℕ) (g : RolloutGuard)
    → observed_since now g ≡ some since
    → g.healthy_since ≡ some since
observed_since-some now since g e = ground arith

paused-Watched :
    (now : ℕ) (r : Rollout) (db : Db) (g : RolloutGuard) (reason : String)
    → HasGuard r.id db.rollouts (some g)
    → Watched now r db g (pause_guarded_rollout now r.id reason db).rollouts
paused-Watched now r db g reason k = record {
  next = record g { healthy_since = none; pause_reason = reason };
  has = pause-HasGuard now r.id reason g db k;
  watching = stops refl;
}

observe-Watched :
    (now : ℕ) (r : Rollout) (g : RolloutGuard) (db : Db) (o : Option ℕ)
    → observed_since now g ≡ o
    → SoundWave now r db
    → HasGuard r.id db.rollouts (some g)
    → Watched now r db g (observe now r.id (last_batch r.devices) g o db).1.rollouts
unfolding observe
observe-Watched now r g db none e s k = record {
  next = observed_guard now (last_batch r.devices) g;
  has = set_guard-HasGuard r.id (observed_guard now (last_batch r.devices)) g db k;
  watching = begins s e refl refl;
}
observe-Watched now r g db (some t) e s k = record {
  next = checked_guard now g;
  has = set_guard-HasGuard r.id (checked_guard now) g db k;
  watching = goes_on t s e (observed_since-some now t g e) refl;
}

after_health-Watched :
    (now : ℕ) (r : Rollout) (g : RolloutGuard) (db : Db) (h : Health)
    → wave_health now r.target_version db (last_batch r.devices) r.devices ≡ h
    → HasGuard r.id db.rollouts (some g)
    → Watched now r db g (after_health now r.id (last_batch r.devices) g h db).1.rollouts
unfolding after_health
after_health-Watched now r g db healthy e k =
    observe-Watched now r g db (observed_since now g) refl
      (wave_health-Sound now r.target_version db (last_batch r.devices) r.devices e) k
after_health-Watched now r g db waiting e k = unchanged-Watched now r db g k
after_health-Watched now r g db (broken reason) e k = paused-Watched now r db g reason k

pub guard_ready-Watched :
    (now : ℕ) (r : Rollout) (g : RolloutGuard) (db : Db)
    → HasGuard r.id db.rollouts (some g)
    → Watched now r db g (guard_ready now r g db).1.rollouts
unfolding guard_ready
guard_ready-Watched now r g db k = elim (Bool-cases (eqb (last_batch r.devices) 0)) [
  | inl z ↦ rw z (unchanged-Watched now r db g k)
  | inr n ↦ rw n (elim (Bool-cases (wave_failed db (last_batch r.devices) r.devices)) [
    | inl t ↦ rw t (paused-Watched now r db g "previous wave failed" k)
    | inr f ↦ rw f (
        after_health-Watched now r g db
          (wave_health now r.target_version db (last_batch r.devices) r.devices) refl k)
  ])
]
