-- ===== src/Reactions/Advance/Pace.antt =====
-- How often a reaction rule acts on one device, server/internal/store/fleet_rules.go.
use openwrt_rmm.Base.{
  ℕ, ◌+◌, ◌≤◌, String, ◌≡◌, refl, sym, subst, inl, inr, Bool, true, ◌&&◌, List, [], ◌∷◌, arith, All,
  Bool-cases, ◌==◌, leb,
}
use openwrt_rmm.Schema.{Command, Json, FleetRule, Result, ok, err}
use openwrt_rmm.Env.{Env, seconds, draw}
use openwrt_rmm.Reactions.Advance.{
  cleared, consecutive_violations, attempts_today, notified, RuleState, RuleEvent, Observation,
  Watch, action_allowed, acted_state, quiet_state, restarted, reaction, take_action, stored_state,
  react, observe_device, kept_or, advance_fleet_rule,
}

-- Every action comes at least a cooldown after each one before it; the latest is the first.
abbrev pub Spaced : ℕ → List RuleEvent → Type 0
Spaced c [] = Unit
Spaced c (e ∷ es) = All (λ x. x.created_at + c ≤ e.created_at) es × Spaced c es

-- The actions are a cooldown apart and the next one waits for the cooldown of each of them.
pub record IsPaced (c : ℕ) (w : Watch) : Type 0 where
  pub spaced : Spaced c w.events
  pub due : All (λ e. e.created_at + c ≤ w.state.next_action_at) w.events

abbrev Paced : ℕ → Result Watch → Type 0
Paced c (ok w) = IsPaced c w
Paced c (err e) = Unit

-- A result with one more event, of this instant.
abbrev pub Adds : ℕ → List RuleEvent → Result Watch → Type 0
Adds now events (ok v) = (e : RuleEvent) × (v.events ≡ e ∷ events) × (e.created_at ≡ now)
Adds now events (err e) = Unit

due_later :
    (c n m : ℕ) (es : List RuleEvent)
    → n ≤ m
    → All (λ e. e.created_at + c ≤ n) es
    → All (λ e. e.created_at + c ≤ m) es
due_later c n m [] h a = tt
due_later c n m (e ∷ es) h a = (omega (arith, a.0), due_later c n m es h a.1)

due_again :
    (c n m : ℕ) (es : List RuleEvent)
    → n ≡ m
    → All (λ e. e.created_at + c ≤ n) es
    → All (λ e. e.created_at + c ≤ m) es
due_again c n m es h a = due_later c n m es (omega arith) a

second_holds : (a b c d e : Bool) → (a && b && c && d && e) ≡ true → b ≡ true
second_holds a b c d e h = ground arith

restarted-Adds :
    (env : Env) (rule : FleetRule) (u d id : String) (r : Result Command) (w : Watch)
    → Adds env.now w.events (restarted env rule u d id r w)
unfolding restarted reaction
restarted-Adds env rule u d id (ok c) w = (_, refl, refl)
restarted-Adds env rule u d id (err e) w = tt

stored-Paced :
    (c now : ℕ) (s : RuleState) (events : List RuleEvent) (r : Result Watch)
    → Adds now events r
    → s.next_action_at ≡ now + c
    → Spaced c events
    → All (λ e. e.created_at + c ≤ now) events
    → Paced c (stored_state s r)
unfolding stored_state
stored-Paced c now s events (err e) a n h d = tt
stored-Paced c now s events (ok v) (e, more, at) n h d =
    let spaced : Spaced c (e ∷ events) = (due_again c now e.created_at events (sym at) d, h) in
    let due : All (λ x. x.created_at + c ≤ s.next_action_at) (e ∷ events) =
      (omega (arith, at, n), due_later c now s.next_action_at events (omega (arith, n)) d) in
    record {
      spaced = subst (Spaced c) (sym more) spaced;
      due = subst (All (λ x. x.created_at + c ≤ s.next_action_at)) (sym more) due;
    }

module _ (marshal : List (String × String) → Json) (env : Env) (rule : FleetRule)
    (id user_id device_id : String) where
  pub take_action-Adds :
      (e : String) (w : Watch)
      → Adds env.now w.events (take_action marshal env rule id user_id device_id e w)
  unfolding take_action notified reaction
  take_action-Adds e w = elim (Bool-cases (rule.action == "service_restart")) [
    | inl t ↦ rw t (restarted-Adds env rule user_id device_id e _ w)
    | inr f ↦ rw f (_, refl, refl)
  ]

  action_allowed-due :
      (o : Observation) (count attempts : ℕ) (w : Watch)
      → action_allowed env rule o count attempts w ≡ true
      → w.state.next_action_at ≤ env.now
  unfolding action_allowed
  action_allowed-due o count attempts w h =
      let due : leb w.state.next_action_at env.now ≡ true =
        second_holds (leb rule.consecutive count) (leb w.state.next_action_at env.now) _ _ _ h in
      ground arith

  react-Paced :
      (o : Observation) (count attempts : ℕ) (w : Watch)
      → IsPaced (seconds rule.cooldown_seconds) w
      → Paced
          (seconds rule.cooldown_seconds)
          (react marshal env rule id user_id device_id o count attempts w)
  unfolding react acted_state quiet_state
  react-Paced o count attempts w h =
      elim (Bool-cases (action_allowed env rule o count attempts w)) [
        | inl t ↦ rw t (
            stored-Paced _ env.now (acted_state env rule o.sample_id attempts) w.events _
              (take_action-Adds _ (record w { db = draw w.db })) refl h.spaced
              (due_later _ _ env.now w.events (action_allowed-due o count attempts w t) h.due))
        | inr f ↦ rw f (record { spaced = h.spaced; due = h.due })
      ]

  cleared-IsPaced :
      (c : ℕ) (o : Observation) (w : Watch) → IsPaced c w → IsPaced c (cleared rule o w)
  unfolding cleared
  cleared-IsPaced c o w h = record { spaced = h.spaced; due = h.due }

  observe_device-Paced :
      (o : Observation) (w : Watch)
      → IsPaced (seconds rule.cooldown_seconds) w
      → Paced
          (seconds rule.cooldown_seconds)
          (observe_device marshal env rule id user_id device_id o w)
  unfolding observe_device
  observe_device-Paced o w h = elim (Bool-cases (o.sample_id == w.state.last_sample)) [
    | inl t ↦ rw t h
    | inr f ↦ rw f (
        react-Paced o (consecutive_violations rule o w.state.violations)
          (attempts_today env w.state) (cleared rule o w) (cleared-IsPaced _ o w h))
  ]

kept_or-Paced :
    (c : ℕ) (w : Watch) (r : Result Watch) → IsPaced c w → Paced c r → IsPaced c (kept_or w r)
unfolding kept_or
kept_or-Paced c w (ok v) h k = k
kept_or-Paced c w (err e) h k = h

module _ (marshal : List (String × String) → Json) (rule : FleetRule)
    (id user_id device_id : String) where
  -- The observations of a device, one after the other.
  unfoldable pub watch : List (Env × Observation) → Watch → Watch
  watch [] w = w
  watch ((env, o) ∷ os) w = watch os (advance_fleet_rule marshal env rule id user_id device_id o w)

  -- Whatever a reaction rule observes of its device, and at whatever times, while the rule stays as
  -- it is: each of its actions comes at least a cooldown after every earlier one, and the next is
  -- put off as long after each of them, when that holds at the start.
  pub watch-IsPaced :
      (os : List (Env × Observation)) (w : Watch)
      → IsPaced (seconds rule.cooldown_seconds) w
      → IsPaced (seconds rule.cooldown_seconds) (watch os w)
  unfolding watch advance_fleet_rule
  watch-IsPaced [] w h = h
  watch-IsPaced ((env, o) ∷ os) w h =
      watch-IsPaced os _
        (kept_or-Paced _ w _ h (observe_device-Paced marshal env rule id user_id device_id o w h))
