-- ===== src/Examples/Others.antt =====
-- Rollouts, remote sessions, the login limiter and notifications at concrete inputs.
use openwrt_rmm.Base.{
  ◌≢◌, All, ℕ, ◌+◌, ◌-◌, ◌*◌, ◌^◌, ◌<◌, String, ◌≡◌, refl, ◌↔◌, ◌⊎◌, true, false, none, some, List,
  [], ◌∷◌, arith, ltb, if◌then◌else◌,
}
use openwrt_rmm.Schema.{
  RolloutGuard, ℤ, Db, empty_object, Rollout, RolloutDevice, RolloutStatus, TargetStatus,
  RemoteSession, SessionStatus, CommandStatus,
}
use openwrt_rmm.Env.{Env}
use openwrt_rmm.Rollouts.Batch.{queue_rollout_batch}
use openwrt_rmm.Rollouts.Batch.Waves.{Waits, Started, queue_rollout_batch-Started}
use openwrt_rmm.Rollouts.Report.{store_report}
use openwrt_rmm.Rollouts.Report.Foreign.{FailedTarget, store_report-foreign}
use openwrt_rmm.Rollouts.Guard.{last_batch}
use openwrt_rmm.Rollouts.Status.{set_agent_rollout_status}
use openwrt_rmm.Rollouts.Status.Resume.{Resumed, resume-waits}
use openwrt_rmm.Sessions.Safe.{IsSafe}
use openwrt_rmm.Sessions.History.{Event, run, run-IsSafe}
use openwrt_rmm.Limiter.{LoginRateLimiter, allow}
use openwrt_rmm.Limiter.Blocks.{fail_all, allow-fail_all}
use openwrt_rmm.Notices.{notification_retry_delay, in_quiet_hours}
use openwrt_rmm.Notices.Times.{minutes_until, in_quiet_hours_iff, notification_retry_delay-doubles}
use openwrt_rmm.Examples.Data.{here, env_at, fleet, noon}

abbrev target : String → ℕ → TargetStatus → RolloutDevice
target id batch status = record {
  device_id = id;
  status = status;
  batch = batch;
  command_id = "";
  feed_url = "https://feed";
  package_manager = "apk";
  package_version = "1.1.0-r1";
  manifest_url = "https://feed/manifest";
  signature_url = "https://feed/signature";
  last_error = "";
}

abbrev guarded : RolloutGuard
guarded = record {
  request_key = "";
  canary_ids = "d1" ∷ [];
  wave_sizes = 1 ∷ 5 ∷ [];
  observation_seconds = 600;
  healthy_since = some (noon - 600000000000);
  last_checked_at = some (noon - 60000000000);
  pause_reason = "";
  wave_observed = 1;
}

-- The canary is done and has been observed for ten minutes.
abbrev rollout : Rollout
rollout = record {
  id = "r1";
  channel = "stable";
  target_version = "1.0.0";
  batch_size = 10;
  failure_threshold = 1;
  status = RolloutStatus.running;
  failure_count = 0;
  updated_at = noon;
  devices =
      target "d1" 1 TargetStatus.completed
      ∷ target "d2" 0 TargetStatus.pending
      ∷ target "d3" 0 TargetStatus.pending
      ∷ [];
  guard = some guarded;
}

abbrev rolling : Db
rolling = record fleet { rollouts = rollout ∷ [] }

queue_rollout_batch-Started_example :
    Waits here rollout rolling (queue_rollout_batch (λ m. empty_object) here "r1" rolling).1
    ⊎ Started here rollout rolling (queue_rollout_batch (λ m. empty_object) here "r1" rolling).1
queue_rollout_batch-Started_example =
    queue_rollout_batch-Started (λ m. empty_object) here "r1" rollout rolling refl

abbrev wanted : ℕ → RemoteSession
wanted port = record {
  id = "";
  device_id = "d1";
  requester_user_id = "u2";
  target = "";
  status = SessionStatus.requested;
  server_port = 0;
  remote_port = port;
  luci_port = 0;
  luci_scheme = "";
  server_host = "rmm";
  local_host = "";
  local_port = 0;
  command_id = "";
  created_at = 0;
  expires_at = noon + 900000000000;
  started_at = none;
  closed_at = none;
  updated_at = 0;
}

-- Three requests, the second for a port that is in use, then the first session is closed.
abbrev visits : List (Env × Event)
visits =
    (here, Event.request none (wanted 20000))
    ∷ (here, Event.request none (wanted 20000))
    ∷ (env_at (noon + 1), Event.request none (wanted 20001))
    ∷ (env_at (noon + 1), Event.manage "" "d1" "ras_." empty_object)
    ∷ (env_at (noon + 2), Event.close "d1" "ras_.")
    ∷ (env_at (noon + 3), Event.report "c7" CommandStatus.completed)
    ∷ []

no_sessions : IsSafe []
no_sessions = record { apart = tt; few = λ d. omega arith; keyed = tt }

run-IsSafe_example : IsSafe (run visits fleet).sessions
run-IsSafe_example = run-IsSafe visits fleet no_sessions

abbrev limiter : LoginRateLimiter
limiter = record { limit = 3; window = 300; attempts = [] }

allow-fail_all_example :
    allow 30 "ann" (fail_all "ann" (10 ∷ 15 ∷ 20 ∷ []) limiter)
    ≡ (false, fail_all "ann" (10 ∷ 15 ∷ 20 ∷ []) limiter)
allow-fail_all_example =
    allow-fail_all "ann" 10 (15 ∷ 20 ∷ []) 30 limiter refl (omega arith, (omega arith, tt))
      (omega arith)

in_quiet_hours_iff_example :
    (in_quiet_hours 30 1320 420 ≡ true) ↔ (minutes_until 1320 30 < minutes_until 1320 420)
in_quiet_hours_iff_example =
    in_quiet_hours_iff 30 1320 420 (omega arith) (omega arith) (omega arith) (λ e. omega (arith, e))

notification_retry_delay-doubles_example :
    notification_retry_delay 4
    ≡ (let delay = 30 * 2 ^ (4 - 1) in if ltb 1800 delay then 1800 else delay)
notification_retry_delay-doubles_example = notification_retry_delay-doubles 4

-- Router d9 reports on the command of router d1.
abbrev updating : Rollout
updating = record rollout {
  devices = (record (target "d1" 1 TargetStatus.queued) { command_id = "c1" }) ∷ [];
  guard = none;
}

abbrev updating_fleet : Db
updating_fleet = record fleet { rollouts = updating ∷ [] }

store_report-foreign_example :
    ((store_report here "c1" "d9" CommandStatus.failed (ℤ.pos 1) "" empty_object updating_fleet).0
      ≡ false)
    × All
        (FailedTarget "r1" "d1")
        (store_report here "c1" "d9" CommandStatus.failed
          (ℤ.pos 1)
          ""
          empty_object
          updating_fleet).1.rollouts
store_report-foreign_example =
    store_report-foreign here "c1" "d9" (ℤ.pos 1) "" empty_object updating_fleet updating
      (record (target "d1" 1 TargetStatus.queued) { command_id = "c1" }) refl refl refl

abbrev paused_rollout : Rollout
paused_rollout = record rollout { status = RolloutStatus.paused }

waved : last_batch paused_rollout.devices ≢ 0
unfolding last_batch
waved h = omega (arith, h)

resume-waits_example :
    Resumed here "r1" paused_rollout
      (record fleet { rollouts = paused_rollout ∷ [] })
      (set_agent_rollout_status
        (λ m. empty_object)
        here
        "r1"
        RolloutStatus.running
        (record fleet { rollouts = paused_rollout ∷ [] })).1
resume-waits_example =
    resume-waits (λ m. empty_object) here "r1" paused_rollout guarded
      (record fleet { rollouts = paused_rollout ∷ [] }) refl refl waved
