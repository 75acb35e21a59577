-- ===== src/Examples/Watches.antt =====
-- The reaction rules at concrete inputs.
use openwrt_rmm.Base.{
  count_where, ◌/◌, ◌≤◌, arith, ◌+◌, String, ◌≡◌, refl, length, true, none, List, [], ◌∷◌,
}
use openwrt_rmm.Schema.{Json, FleetRule, empty_object}
use openwrt_rmm.Env.{Env, seconds, hours}
use openwrt_rmm.Reactions.Advance.{Observation, Watch, advance_fleet_rule}
use openwrt_rmm.Reactions.Advance.Pace.{IsPaced, watch, watch-IsPaced}
use openwrt_rmm.Reactions.Advance.Daily.{on_day, watch-daily}
use openwrt_rmm.Examples.Data.{env_at, fleet, noon}

abbrev high_load : FleetRule
high_load = record {
  kind = "load_high";
  threshold = 4000;
  action = "notify";
  service = "";
  device_ids = "d1" ∷ [];
  title = "load";
  consecutive = 1;
  cooldown_seconds = 600;
  max_actions_per_day = 2;
}

abbrev unwatched : Watch
unwatched = record {
  state = record {
    last_sample = "";
    violations = 0;
    next_action_at = 0;
    action_day = none;
    action_count = 0;
  };
  events = [];
  incidents = [];
  inbox = [];
  db = fleet;
}

abbrev high : String → Observation
high id = record { sample_id = id; violation = true; known = true; online = true }

-- High loads at noon, five minutes later and ten minutes later.
abbrev afternoon : List (Env × Observation)
afternoon =
    (env_at noon, high "s1")
    ∷ (env_at (noon + seconds 300), high "s2")
    ∷ (env_at (noon + seconds 600), high "s3")
    ∷ []

abbrev plain : List (String × String) → Json
plain fields = empty_object

-- The second one falls into the cooldown.
two_actions : length (watch plain high_load "r1" "u1" "d1" afternoon unwatched).events ≡ 2
unfolding watch advance_fleet_rule
two_actions = refl

watch-IsPaced_example :
    IsPaced (seconds 600) (watch plain high_load "r1" "u1" "d1" afternoon unwatched)
watch-IsPaced_example =
    watch-IsPaced plain high_load "r1" "u1" "d1" afternoon unwatched
      (record { spaced = tt; due = tt })

watch-daily_example :
    count_where
      (on_day (noon / hours 24))
      (watch plain high_load "r1" "u1" "d1" afternoon unwatched).events
    ≤ 2
watch-daily_example =
    watch-daily plain high_load "r1" "u1" "d1" afternoon unwatched (noon / hours 24)
      (omega arith, (omega arith, (omega arith, tt))) refl
