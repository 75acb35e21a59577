-- ===== src/Rollouts/Guard.antt =====
-- The guard of a staged rollout, server/internal/store/rollout_waves.go: its validation, and the
-- wait until the last wave has been healthy for the whole observation period.
pub mod Ready
pub mod Observed
use openwrt_rmm.Base.{
  ℕ, suc, ◌+◌, ◌*◌, String, len, Bool, true, false, not, ◌&&◌, ◌||◌, Option, none, some, List, [],
  ◌∷◌, length, any, all, contains, find_where, update_where, leb, ltb, eqb, if◌then◌else◌, ◌==◌,
}
use openwrt_rmm.Schema.{
  Db, Device, Inventory, Metrics, Rollout, RolloutDevice, RolloutGuard, RolloutStatus, TargetStatus,
  Error, other, Result, Check, ok, err, ◌>>=◌, ◌>>◌, guard,
}
use openwrt_rmm.Env.{Env, minutes, seconds}
use openwrt_rmm.Rollouts.Pause.{is_failure, update_guard, pause_guarded_rollout}

-- The canaries are targets, and no one is named twice.
canaries_valid : List String → List String → List String → Bool
canaries_valid ids seen [] = true
canaries_valid ids seen (c ∷ cs) =
    contains ids c && not (contains seen c) && canaries_valid ids (c ∷ seen) cs

-- validateRolloutGuard; the guard is stored with nothing observed. The numbers of the code are of
-- type int: those below zero are refused as zero is.
unfoldable pub validate_rollout_guard :
    Option RolloutGuard → List String → Result (Option RolloutGuard)
unfolding canaries_valid
validate_rollout_guard none ids = ok none
validate_rollout_guard (some g) ids = do
  guard ((g.request_key == "") || not (ltb (len g.request_key) 8 || ltb 128 (len g.request_key)))
      (other "invalid rollout request key")
  guard
      (not (
        ltb (length g.canary_ids) 1
        || ltb 10 (length g.canary_ids)
        || ltb (length g.wave_sizes) 1
        || ltb 8 (length g.wave_sizes)
        || ltb g.observation_seconds 60
        || ltb 3600 g.observation_seconds))
      (other "invalid rollout waves or observation period")
  guard (canaries_valid ids [] g.canary_ids) (other "canary must be a unique eligible target")
  guard (all (λ n. not (ltb n 1 || ltb 500 n)) g.wave_sizes) (other "invalid wave size")
  ok (some (record g { healthy_since = none; pause_reason = "" }))

-- What one target of the last wave says of the rollout.
pub data Health : Type 0 where
  healthy : Health
  waiting : Health
  broken : (reason : String) → Health

abbrev pub is_completed : TargetStatus → Bool
is_completed TargetStatus.completed = true
is_completed _ = false

-- now.Sub(t) > two minutes
abbrev pub old : ℕ → ℕ → Bool
old now t = ltb (t + minutes 2) now

abbrev pub unseen : ℕ → Option ℕ → Bool
unseen now none = true
unseen now (some t) = old now t

-- Some check says whether it can be reached, and none can.
abbrev known_check : Option Bool → Bool
known_check none = false
known_check (some b) = true

abbrev reached_check : Option Bool → Bool
reached_check none = false
reached_check (some b) = b

unfoldable pub offline : Metrics → Bool
offline m = m.parses && any known_check m.reachable && not (any reached_check m.reachable)

unfoldable pub target_health : ℕ → String → RolloutDevice → Device → Health
unfolding offline
target_health now version d device =
    if not (is_completed d.status)
    then waiting
    else if not device.inventory.parses
        || not (device.inventory.version == version)
        || unseen now device.last_seen_at
    then broken "completed wave lost contact or changed version"
    else if offline device.metrics
    then broken "completed wave reports loss of connectivity"
    else healthy

abbrev pub first_trouble : Health → Health → Health
first_trouble healthy h = h
first_trouble waiting h = waiting
first_trouble (broken r) h = broken r

joined_health : ℕ → String → RolloutDevice → Option Device → Health
unfolding target_health
joined_health now version d none = healthy
joined_health now version d (some device) = target_health now version d device

-- The loop over the wave: a target that is gone from devices is not in the join.
unfoldable pub wave_health : ℕ → String → Db → ℕ → List RolloutDevice → Health
unfolding joined_health
wave_health now version db wave [] = healthy
wave_health now version db wave (d ∷ ds) =
    let rest = wave_health now version db wave ds in
    if eqb d.batch wave
    then first_trouble
        (joined_health now version d (find_where (λ x. x.id == d.device_id) db.devices)) rest
    else rest

in_join : Db → RolloutDevice → Bool
in_join db d = any (λ x. x.id == d.device_id) db.devices

wave_failed : Db → ℕ → List RolloutDevice → Bool
unfolding in_join
wave_failed db wave ds = any (λ d. eqb d.batch wave && in_join db d && is_failure d.status) ds

-- SELECT COALESCE(MAX(batch),0)
unfoldable pub last_batch : List RolloutDevice → ℕ
last_batch [] = 0
last_batch (d ∷ ds) = let rest = last_batch ds in if ltb rest d.batch then d.batch else rest

-- The start of the healthy time, forgotten after a gap in the checks.
abbrev pub observed_since : ℕ → RolloutGuard → Option ℕ
observed_since now g = elim g.last_checked_at [
  | none ↦ g.healthy_since
  | some t ↦ if old now t then none else g.healthy_since
]

abbrev pub set_guard : String → (RolloutGuard → RolloutGuard) → Db → Db
set_guard id f db = record db {
  rollouts =
      update_where (λ r. r.id == id) (λ r. record r { guard = update_guard f r.guard }) db.rollouts;
}

abbrev pub checked_guard : ℕ → RolloutGuard → RolloutGuard
checked_guard now g = record g { last_checked_at = some now }

abbrev pub observed_guard : ℕ → ℕ → RolloutGuard → RolloutGuard
observed_guard now wave g = record g {
  last_checked_at = some now;
  wave_observed = wave;
  healthy_since = some now;
  pause_reason = "";
}

observe : ℕ → String → ℕ → RolloutGuard → Option ℕ → Db → Bool × Db
observe now id wave g none db = (false, set_guard id (observed_guard now wave) db)
observe now id wave g (some t) db =
    (leb (t + seconds g.observation_seconds) now, set_guard id (checked_guard now) db)

after_health : ℕ → String → ℕ → RolloutGuard → Health → Db → Bool × Db
unfolding observe
after_health now id wave g healthy db = observe now id wave g (observed_since now g) db
after_health now id wave g waiting db = (false, db)
after_health now id wave g (broken reason) db = (false, pause_guarded_rollout now id reason db)

-- guardReady: whether the next wave may start.
unfoldable pub guard_ready : ℕ → Rollout → RolloutGuard → Db → Bool × Db
unfolding after_health wave_failed
guard_ready now r g db =
    let wave = last_batch r.devices in
    if eqb wave 0
    then (true, db)
    else if wave_failed db wave r.devices
    then (false, pause_guarded_rollout now r.id "previous wave failed" db)
    else after_health now r.id wave g (wave_health now r.target_version db wave r.devices) db
