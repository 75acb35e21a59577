-- ===== src/Reactions/Advance/Daily.antt =====
-- How many actions of a reaction rule a day sees on one device, server/internal/store/fleet_rules.go.
use openwrt_rmm.Base.{
  ℕ, ◌+◌, ◌/◌, ◌≤◌, ◌<◌, String, ◌≡◌, refl, subst, inl, inr, Bool, true, ◌&&◌, ◌∙◌, Option, some,
  none, List, [], ◌∷◌, arith, Bool-cases, ◌==◌, leb, ltb, eqb, if◌then◌else◌, count_where,
}
use openwrt_rmm.Schema.{Json, FleetRule, Result, ok, err}
use openwrt_rmm.Env.{Env, hours, draw}
use openwrt_rmm.Reactions.Advance.{
  cleared, today, is_today, RuleState, RuleEvent, Observation, Watch, consecutive_violations,
  attempts_today, action_allowed, acted_state, quiet_state, stored_state, react, observe_device,
  kept_or, advance_fleet_rule,
}
use openwrt_rmm.Reactions.Advance.Pace.{Adds, take_action-Adds, watch}

abbrev pub on_day : ℕ → RuleEvent → Bool
on_day day e = eqb (e.created_at / hours 24) day

abbrev used_on : ℕ → Option ℕ → ℕ → ℕ
used_on d none n = 0
used_on d (some day) n = if eqb day d then n else 0

-- The count of actions that the state keeps for a day.
abbrev used : ℕ → RuleState → ℕ
used d s = used_on d s.action_day s.action_count

-- Up to the day `d`, no day has more actions than the limit, and the state counts those of `d`.
record IsLimited (limit d : ℕ) (w : Watch) : Type 0 where
  limited : (day : ℕ) → count_where (on_day day) w.events ≤ limit
  counted : count_where (on_day d) w.events ≤ used d w.state
  later : (day : ℕ) → d < day → count_where (on_day day) w.events ≡ 0

abbrev Limited : ℕ → ℕ → Result Watch → Type 0
Limited limit d (ok w) = IsLimited limit d w
Limited limit d (err e) = Unit

next_day : (limit c d : ℕ) (w : Watch) → c ≤ d → IsLimited limit c w → IsLimited limit d w
next_day limit c d w le h = elim (Bool-cases (eqb c d)) [
  | inl t ↦ let same : c ≡ d = ground arith in subst (λ x. IsLimited limit x w) same h
  | inr f ↦
      let before : c < d = ground arith in
      record {
        limited = h.limited;
        counted = omega (arith, h.later d before);
        later = λ day l. h.later day (omega arith);
      }
]

eqb_refl : (n : ℕ) → eqb n n ≡ true
eqb_refl n = ground arith

is_today-used :
    (env : Env) (day : Option ℕ) (n : ℕ)
    → used_on (today env) day n ≡ (if is_today env day then n else 0)
unfolding is_today today
is_today-used env none n = refl
is_today-used env (some day) n = refl

attempts_today-used : (env : Env) (s : RuleState) → used (today env) s ≡ attempts_today env s
unfolding attempts_today
attempts_today-used env s = is_today-used env s.action_day s.action_count

fits : (a b c d e : Bool) → (a && b && c && d && e) ≡ true → c ≡ true
fits a b c d e h = ground arith

with_event :
    (limit d attempts : ℕ) (e : RuleEvent) (s : RuleState) (w v : Watch)
    → IsLimited limit d w
    → used d w.state ≡ attempts
    → attempts < limit
    → v.events ≡ e ∷ w.events
    → e.created_at / hours 24 ≡ d
    → used d s ≡ attempts + 1
    → v.state ≡ s
    → IsLimited limit d v
with_event limit d attempts e s w v h u lt more at u' st = record {
  limited = λ day. rw more (ground (arith, h.limited day, h.counted));
  counted = rw (more, st) (ground (arith, h.counted));
  later = λ day l. rw more (ground (arith, h.later day l));
}

stored-Limited :
    (limit d attempts now : ℕ) (s : RuleState) (w : Watch) (r : Result Watch)
    → Adds now w.events r
    → IsLimited limit d w
    → used d w.state ≡ attempts
    → attempts < limit
    → now / hours 24 ≡ d
    → used d s ≡ attempts + 1
    → Limited limit d (stored_state s r)
unfolding stored_state
stored-Limited limit d attempts now s w (err e) a h u lt at v = tt
stored-Limited limit d attempts now s w (ok x) (e, more, created) h u lt at v =
    with_event limit d attempts e s w _ h u lt more (rw created at) v refl

module _ (marshal : List (String × String) → Json) (env : Env) (rule : FleetRule)
    (id user_id device_id : String) where
  allowed-below :
      (o : Observation) (count attempts : ℕ) (w : Watch)
      → action_allowed env rule o count attempts w ≡ true
      → attempts < rule.max_actions_per_day
  unfolding action_allowed
  allowed-below o count attempts w h =
      let below : ltb attempts rule.max_actions_per_day ≡ true =
        fits (leb rule.consecutive count) (leb w.state.next_action_at env.now) _ _ _ h in
      ground arith

  acted_state-used :
      (sample_id : String) (attempts : ℕ)
      → used (today env) (acted_state env rule sample_id attempts) ≡ attempts + 1
  unfolding acted_state
  acted_state-used sample_id attempts = rw (eqb_refl (today env)) refl

  quiet_state-used :
      (s : RuleState) (sample_id : String) (count attempts : ℕ)
      → used (today env) (quiet_state env s sample_id count attempts) ≡ attempts
  unfolding quiet_state
  quiet_state-used s sample_id count attempts = rw (eqb_refl (today env)) refl

  react-Limited :
      (o : Observation) (count attempts : ℕ) (w : Watch)
      → used (today env) w.state ≡ attempts
      → IsLimited rule.max_actions_per_day (today env) w
      → Limited rule.max_actions_per_day
          (today env)
          (react marshal env rule id user_id device_id o count attempts w)
  unfolding react today
  react-Limited o count attempts w u h =
      elim (Bool-cases (action_allowed env rule o count attempts w)) [
        | inl t ↦ rw t (
            stored-Limited _ (today env) attempts env.now
              (acted_state env rule o.sample_id attempts) w _
              (take_action-Adds marshal env rule id user_id device_id _
                (record w { db = draw w.db }))
              h u (allowed-below o count attempts w t) refl (acted_state-used o.sample_id attempts))
        | inr f ↦ rw f (record {
          limited = h.limited;
          counted =
              omega (arith, h.counted, u, quiet_state-used w.state o.sample_id count attempts);
          later = h.later;
        })
      ]

  cleared-IsLimited :
      (limit d : ℕ) (o : Observation) (w : Watch)
      → IsLimited limit d w
      → IsLimited limit d (cleared rule o w)
  unfolding cleared
  cleared-IsLimited limit d o w h = record {
    limited = h.limited;
    counted = h.counted;
    later = h.later;
  }

  cleared-used :
      (d : ℕ) (o : Observation) (w : Watch) → used d (cleared rule o w).state ≡ used d w.state
  unfolding cleared
  cleared-used d o w = refl

  observe_device-Limited :
      (o : Observation) (w : Watch)
      → IsLimited rule.max_actions_per_day (today env) w
      → Limited rule.max_actions_per_day
          (today env)
          (observe_device marshal env rule id user_id device_id o w)
  unfolding observe_device
  observe_device-Limited o w h = elim (Bool-cases (o.sample_id == w.state.last_sample)) [
    | inl t ↦ rw t h
    | inr f ↦ rw f (
        react-Limited o (consecutive_violations rule o w.state.violations)
          (attempts_today env w.state) (cleared rule o w)
          (cleared-used (today env) o w ∙ attempts_today-used env w.state)
          (cleared-IsLimited _ _ o w h))
  ]

kept_or-Limited :
    (limit d : ℕ) (w : Watch) (r : Result Watch)
    → IsLimited limit d w
    → Limited limit d r
    → IsLimited limit d (kept_or w r)
unfolding kept_or
kept_or-Limited limit d w (ok v) h k = k
kept_or-Limited limit d w (err e) h k = h

-- The days of the observations do not go back, from the day `d` on.
abbrev pub InOrder : ℕ → List (Env × Observation) → Type 0
InOrder d [] = Unit
InOrder d ((env, o) ∷ os) = (d ≤ env.now / hours 24) × InOrder (env.now / hours 24) os

fresh-IsLimited : (limit : ℕ) (w : Watch) → w.events ≡ [] → IsLimited limit 0 w
fresh-IsLimited limit w e = record {
  limited = λ day. rw e (omega arith);
  counted = rw e (omega arith);
  later = λ day l. rw e refl;
}

module _ (marshal : List (String × String) → Json) (rule : FleetRule)
    (id user_id device_id : String) where
  watch-limited :
      (os : List (Env × Observation)) (d : ℕ) (w : Watch) (day : ℕ)
      → InOrder d os
      → IsLimited rule.max_actions_per_day d w
      → count_where (on_day day) (watch marshal rule id user_id device_id os w).events
        ≤ rule.max_actions_per_day
  unfolding watch advance_fleet_rule today
  watch-limited [] d w day i h = h.limited day
  watch-limited ((env, o) ∷ os) d w day i h =
      let now = next_day rule.max_actions_per_day d (today env) w i.0 h in
      watch-limited os (today env) _ day i.1 (
        kept_or-Limited _ _ w _ now
          (observe_device-Limited marshal env rule id user_id device_id o w now))

  -- Of one rule, which stays as it is, and one of its devices: when the days of the observations of
  -- the device do not go back and there was no action on it before them, then no day has more actions
  -- on this device than the rule's daily limit. Each device of a rule has a limit of its own.
  pub watch-daily :
      (os : List (Env × Observation)) (w : Watch) (day : ℕ)
      → InOrder 0 os
      → w.events ≡ []
      → count_where (on_day day) (watch marshal rule id user_id device_id os w).events
        ≤ rule.max_actions_per_day
  watch-daily os w day i e =
      watch-limited os 0 w day i (fresh-IsLimited rule.max_actions_per_day w e)
