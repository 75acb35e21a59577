-- ===== src/Reactions/Advance.antt =====
-- advanceFleetRule of server/internal/store/fleet_rules.go: what one observation of one device
-- does. The observation itself, a sample of the metrics, a diagnostic report or the minute of an
-- offline check, is an argument. Of an inbox notification the title is kept.
pub mod Pace
pub mod Daily
use openwrt_rmm.Base.{
  ℕ, suc, ◌+◌, ◌/◌, ◌*◌, min, String, Bool, true, false, not, ◌&&◌, ◌||◌, Option, none, some, List,
  [], ◌∷◌, ◌++◌, any, update_where, leb, ltb, eqb, if◌then◌else◌, ◌==◌,
}
use openwrt_rmm.Schema.{Db, Command, CommandStatus, Json, FleetRule, Result, ok, err}
use openwrt_rmm.Env.{Env, seconds, minutes, hours, random_id, draw}
use openwrt_rmm.Commands.{new_command, insert_command, in_flight}

-- The row of fleet_rule_states. An empty next_action_at is the zero instant, the day is the number
-- of the day and an empty one is `none`.
pub record RuleState : Type 0 where
  pub last_sample : String
  pub violations : ℕ
  pub next_action_at : ℕ
  pub action_day : Option ℕ
  pub action_count : ℕ

-- The row of fleet_rule_events.
pub record RuleEvent : Type 0 where
  pub id : String
  pub action : String
  pub status : String
  pub command_id : String
  pub created_at : ℕ

pub record Observation : Type 0 where
  pub sample_id : String
  pub violation : Bool
  pub known : Bool
  pub online : Bool

-- The store as one rule and one device have it: the state, the events with the latest first, the
-- calls of syncIncidentSource with the activity that they report, the notifications, the tables.
pub record Watch : Type 0 where
  pub state : RuleState
  pub events : List RuleEvent
  pub incidents : List Bool
  pub inbox : List String
  pub db : Db

today : Env → ℕ
today env = env.now / hours 24

is_today : Env → Option ℕ → Bool
unfolding today
is_today env none = false
is_today env (some day) = eqb day (today env)

-- The actions of the current day.
attempts_today : Env → RuleState → ℕ
unfolding is_today
attempts_today env s = if is_today env s.action_day then s.action_count else 0

consecutive_violations : FleetRule → Observation → ℕ → ℕ
consecutive_violations rule o count =
    if o.violation && o.known then min (count + 1) rule.consecutive else 0

of_rule : List RuleEvent → Command → Bool
of_rule events c = any (λ e. e.command_id == c.id) events

abbrev withdrawn_command : Command → Command
withdrawn_command c = record c { status = CommandStatus.cancelled }

still_queued : CommandStatus → Bool
still_queued CommandStatus.queued = true
still_queued _ = false

-- The rule's commands that are still queued when the condition has cleared are cancelled.
clear_queued : Observation → List RuleEvent → Db → Db
unfolding of_rule still_queued
clear_queued o events db = if o.violation && o.known then db else record db {
  commands =
      update_where (λ c. still_queued c.status && of_rule events c) withdrawn_command db.commands;
}

sync_incidents : FleetRule → Observation → ℕ → List Bool → List Bool
sync_incidents rule o count calls =
    if o.known && (not o.violation || leb rule.consecutive count)
    then o.violation ∷ calls
    else calls

cleared : FleetRule → Observation → Watch → Watch
unfolding clear_queued sync_incidents consecutive_violations
cleared rule o w = record w {
  db = clear_queued o w.events w.db;
  incidents = sync_incidents rule o (consecutive_violations rule o w.state.violations) w.incidents;
}

-- The guards of an action.
action_allowed : Env → FleetRule → Observation → ℕ → ℕ → Watch → Bool
unfolding of_rule
action_allowed env rule o count attempts w =
    leb rule.consecutive count
    && leb w.state.next_action_at env.now
    && ltb attempts rule.max_actions_per_day
    && not (any (λ c. in_flight c.status && of_rule w.events c) w.db.commands)
    && ((rule.action == "notify") || o.online)

abbrev set_state : RuleState → Watch → Watch
set_state s w = record w { state = s }

-- The event and its entry in the audit.
abbrev add_event : String → String → RuleEvent → Watch → Watch
add_event user_id device_id e w = record w {
  events = e ∷ w.events;
  db = record w.db {
    audit =
        w.db.audit
        ++ (record {
          actor = user_id;
          action = "fleet.reaction";
          device_id = device_id;
          command_id = e.command_id;
          created_at = e.created_at;
        })
          ∷ [];
  };
}

-- The state after an action: the count starts again and the cooldown runs.
acted_state : Env → FleetRule → String → ℕ → RuleState
unfolding today
acted_state env rule sample_id attempts = record {
  last_sample = sample_id;
  violations = 0;
  next_action_at = env.now + seconds rule.cooldown_seconds;
  action_day = some (today env);
  action_count = attempts + 1;
}

quiet_state : Env → RuleState → String → ℕ → ℕ → RuleState
unfolding today
quiet_state env s sample_id count attempts = record {
  last_sample = sample_id;
  violations = count;
  next_action_at = s.next_action_at;
  action_day = some (today env);
  action_count = attempts;
}

reaction : Env → FleetRule → String → String → String → RuleEvent
reaction env rule id status command_id = record {
  id = id;
  action = rule.action;
  status = status;
  command_id = command_id;
  created_at = env.now;
}

module _ (env : Env) (rule : FleetRule) (user_id device_id event_id : String) where
  -- The command of a restart is stored to be tried once.
  restarted : Result Command → Watch → Result Watch
  unfolding reaction
  restarted (err e) w = err e
  restarted (ok c) w = ok (
      add_event user_id device_id (reaction env rule event_id "queued" c.id)
        (record w { db = insert_command (record c { max_attempts = 1 }) w.db }))

  notified : Watch → Watch
  unfolding reaction
  notified w =
      add_event user_id device_id (reaction env rule event_id "notified" "")
        (record w { inbox = rule.title ∷ w.inbox })

stored_state : RuleState → Result Watch → Result Watch
stored_state s (ok w) = ok (set_state s w)
stored_state s (err e) = err e

-- An error rolls the transaction back.
kept_or : Watch → Result Watch → Watch
kept_or w (ok v) = v
kept_or w (err e) = w

module _ (marshal : List (String × String) → Json) (env : Env) (rule : FleetRule)
    (id user_id device_id : String) where
  pub take_action : String → Watch → Result Watch
  unfolding restarted notified
  take_action event_id w =
      if rule.action == "service_restart"
      then restarted env rule user_id device_id event_id
          (new_command env w.db device_id "service_restart"
            (marshal (("rule_id", id) ∷ ("service", rule.service) ∷ [])) (minutes 5))
          w
      else ok (notified env rule user_id device_id event_id w)

  -- The identifier of the event is drawn before that of the command.
  react : Observation → ℕ → ℕ → Watch → Result Watch
  unfolding random_id take_action action_allowed acted_state quiet_state stored_state
  react o count attempts w =
      if action_allowed env rule o count attempts w
      then stored_state (acted_state env rule o.sample_id attempts)
          (take_action (random_id env w.db "reaction") (record w { db = draw w.db }))
      else ok (set_state (quiet_state env w.state o.sample_id count attempts) w)

  -- The body of the loop from the reading of the state. A sample is looked at once.
  observe_device : Observation → Watch → Result Watch
  unfolding react attempts_today consecutive_violations cleared
  observe_device o w =
      if o.sample_id == w.state.last_sample
      then ok w
      else react o (consecutive_violations rule o w.state.violations) (attempts_today env w.state)
          (cleared rule o w)

  -- The transaction of advanceFleetRule for a rule of one device.
  unfoldable pub advance_fleet_rule : Observation → Watch → Watch
  unfolding observe_device kept_or
  advance_fleet_rule o w = kept_or w (observe_device o w)
