-- ===== src/Rollouts/Guard/Ready.antt =====
-- What guardReady asks for before a rollout goes on, server/internal/store/rollout_waves.go.
use openwrt_rmm.Base.{
  ℕ, ◌+◌, ◌≤◌, String, ◌≡◌, refl, ◌⊎◌, inl, inr, true, false, none, some, List, [], ◌∷◌, arith, All,
  find_where, eqb, ◌==◌, Bool-cases, Option-cases, eq_iff,
}
use openwrt_rmm.Schema.{Db, Device, Rollout, RolloutDevice, RolloutGuard}
use openwrt_rmm.Env.{seconds}
use openwrt_rmm.Rollouts.Pause.{pause_guarded_rollout}
use openwrt_rmm.Rollouts.Guard.{
  Health, healthy, waiting, broken, target_health, wave_health, joined_health, first_trouble,
  is_completed, last_batch, guard_ready, unseen, offline, observed_since, wave_failed, after_health,
  observe,
}

-- A target that has done its update and that is in order still.
pub record Sound (now : ℕ) (version : String) (db : Db) (d : RolloutDevice) (device : Device)
    : Type 0 where
  pub updated : is_completed d.status ≡ true
  pub same_version : device.inventory.version ≡ version
  pub seen : unseen now device.last_seen_at ≡ false
  pub online : offline device.metrics ≡ false

target_health-Sound :
    (now : ℕ) (version : String) (db : Db) (d : RolloutDevice) (device : Device)
    → target_health now version d device ≡ healthy
    → Sound now version db d device
unfolding target_health
target_health-Sound now version db d device h =
    ground (arith, eq_iff device.inventory.version version)

-- Every target of the wave that is still known is sound.
abbrev pub SoundWave : ℕ → Rollout → Db → Type 0
SoundWave now r db =
    All
      (λ d.
        (device : Device)
        → eqb d.batch (last_batch r.devices) ≡ true
        → find_where (λ x. x.id == d.device_id) db.devices ≡ some device
        → Sound now r.target_version db d device)
      r.devices

first_trouble-healthy : (g h : Health) → first_trouble g h ≡ healthy → (g ≡ healthy) × (h ≡ healthy)
first_trouble-healthy g h e = ground arith

pub wave_health-Sound :
    (now : ℕ) (version : String) (db : Db) (wave : ℕ) (ds : List RolloutDevice)
    → wave_health now version db wave ds ≡ healthy
    → All
        (λ d.
          (device : Device)
          → eqb d.batch wave ≡ true
          → find_where (λ x. x.id == d.device_id) db.devices ≡ some device
          → Sound now version db d device)
        ds
unfolding wave_health joined_health
wave_health-Sound now version db wave [] h = tt
wave_health-Sound now version db wave (d ∷ ds) h = elim (Bool-cases (eqb d.batch wave)) [
  | inl t ↦
      let parts =
        first_trouble-healthy
          (joined_health now version d (find_where (λ x. x.id == d.device_id) db.devices))
          (wave_health now version db wave ds) (rw t at h) in
      (
        (λ device b f. target_health-Sound now version db d device (rw f at parts.0)),
        wave_health-Sound now version db wave ds parts.1,
      )
  | inr n ↦ ((λ device b f. cc), wave_health-Sound now version db wave ds (rw n at h))
]

-- What lets a guarded rollout go on: it is the first wave, or the last one is sound and has been
-- so for the observation period, with no gap in the checks.
abbrev pub MayGoOn : ℕ → Rollout → RolloutGuard → Db → Type 0
MayGoOn now r g db =
    (last_batch r.devices ≡ 0)
    ⊎ (SoundWave now r db
        × ((since : ℕ) × (observed_since now g ≡ some since)
            × (since + seconds g.observation_seconds ≤ now)))

waited-MayGoOn :
    (now : ℕ) (r : Rollout) (g : RolloutGuard) (db : Db) (h : Health)
    → wave_health now r.target_version db (last_batch r.devices) r.devices ≡ h
    → (after_health now r.id (last_batch r.devices) g h db).0 ≡ true
    → SoundWave now r db
      × ((since : ℕ) × (observed_since now g ≡ some since)
          × (since + seconds g.observation_seconds ≤ now))
unfolding after_health observe
waited-MayGoOn now r g db healthy e h = (
  wave_health-Sound now r.target_version db (last_batch r.devices) r.devices e,
  since (Option-cases (observed_since now g)),
)
  where
    since :
        (observed_since now g ≡ none) ⊎ ((t : ℕ) × (observed_since now g ≡ some t))
        → (t : ℕ) × (observed_since now g ≡ some t) × (t + seconds g.observation_seconds ≤ now)
    since (inl n) = ground arith
    since (inr (t, q)) = (t, q, ground arith)
waited-MayGoOn now r g db waiting e h = cc
waited-MayGoOn now r g db (broken reason) e h = cc

pub guard_ready-MayGoOn :
    (now : ℕ) (r : Rollout) (g : RolloutGuard) (db : Db)
    → (guard_ready now r g db).0 ≡ true
    → MayGoOn now r g db
unfolding guard_ready after_health observe
guard_ready-MayGoOn now r g db h = elim (Bool-cases (eqb (last_batch r.devices) 0)) [
  | inl z ↦ inl (ground arith)
  | inr n ↦ elim (Bool-cases (wave_failed db (last_batch r.devices) r.devices)) [
    | inl t ↦ ground arith
    | inr f ↦ inr (
        waited-MayGoOn now r g db
          (wave_health now r.target_version db (last_batch r.devices) r.devices) refl
          (rw f at (rw n at h)))
  ]
]

pub commands-guard_ready :
    (now : ℕ) (r : Rollout) (g : RolloutGuard) (db : Db)
    → (guard_ready now r g db).1.commands ≡ db.commands
unfolding guard_ready after_health observe pause_guarded_rollout
commands-guard_ready now r g db = ground arith
