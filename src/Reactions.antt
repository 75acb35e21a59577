-- ===== src/Reactions.antt =====
-- The reaction rules of server/internal/store/fleet_rules.go, as far as the delivery of a command
-- uses them. Floating-point numbers are scaled: thresholds and loads are in thousandths, so that
-- `used / total * 100 >= threshold` is compared without the rounding of the division.
pub mod Advance
use openwrt_rmm.Base.{
  ℕ, zero, suc, ◌+◌, ◌*◌, String, append, Bool, true, false, not, ◌&&◌, ◌||◌, Option, none, some,
  List, [], ◌∷◌, find_where, select_where, latest, contains, leb, ltb, if◌then◌else◌, ◌==◌,
}
use openwrt_rmm.Schema.{
  ℤ, pos, negsuc, Db, Device, Command, CommandStatus, FleetRule, RuleRow, Metrics, no_rows,
  is_fleet_access, Result, Check, ok, err, ◌>>=◌,
}
use openwrt_rmm.Env.{Env, minutes}
use openwrt_rmm.Access.{fleet_principal, fleet_device_access, permission_allowed}

memory_violation : ℕ → ℤ → ℤ → Bool × Bool
memory_violation threshold (pos zero) used = (false, false)
memory_violation threshold (negsuc t) used = (false, false)
memory_violation threshold (pos (suc t)) (negsuc u) = (false, false)
memory_violation threshold (pos (suc t)) (pos u) =
    if ltb (suc t) u then (false, false) else (leb (threshold * suc t) (u * 100000), true)

load_violation : ℕ → Option ℤ → Bool × Bool
load_violation threshold (some (pos load)) = (leb threshold load, true)
load_violation threshold (some (negsuc n)) = (false, false)
load_violation threshold none = (false, false)

-- The loop over the connectivity checks: an unknown one ends it, and so does a reachable one.
wan_loop : List (Option Bool) → Bool × Bool
wan_loop [] = (true, true)
wan_loop (none ∷ checks) = (false, false)
wan_loop (some true ∷ checks) = (false, true)
wan_loop (some false ∷ checks) = wan_loop checks

wan_violation : List (Option Bool) → Bool × Bool
unfolding wan_loop
wan_violation [] = (false, false)
wan_violation (c ∷ checks) = wan_loop (c ∷ checks)

-- reactionViolation: whether the rule's condition holds, and whether that is known.
unfoldable pub reaction_violation : FleetRule → Metrics → Bool × Bool
unfolding memory_violation load_violation wan_violation
reaction_violation rule m =
    if not m.parses
    then (false, false)
    else if rule.kind == "memory_high"
    then memory_violation rule.threshold m.memory_total m.memory_used
    else if rule.kind == "load_high"
    then load_violation rule.threshold m.load
    else if rule.kind == "wan_unreachable"
    then wan_violation m.reachable
    else (false, false)

check_failed : String → List (String × String) → Bool
check_failed service [] = false
check_failed service ((name, status) ∷ checks) =
    let rest = check_failed service checks in
    if name == append "service:" service then status == "failed" else rest

report_failed : String → Option Command → Bool
unfolding check_failed
report_failed service none = false
report_failed service (some c) = elim c.result.checks [
  | none ↦ false
  | some checks ↦ check_failed service checks
]

has_report : CommandStatus → Bool
has_report CommandStatus.completed = true
has_report CommandStatus.failed = true
has_report _ = false

completion : Command → ℕ
completion c = elim c.completed_at [ none ↦ 0 | some t ↦ t ]

-- The last diagnostic report of the past ten minutes.
recent_report : Env → Db → String → Option Command
unfolding has_report completion
recent_report env db device_id = latest completion (
    select_where
      (λ c.
        (c.device_id == device_id)
        && (c.kind == "diagnostic_report")
        && has_report c.status
        && elim c.completed_at [ none ↦ false | some t ↦ ltb env.now (t + minutes 10) ])
      db.commands)

metrics_violation : Env → FleetRule → Option Device → Result Bool
metrics_violation env rule none = err no_rows
metrics_violation env rule (some d) = elim d.last_seen_at [
  | none ↦ ok false
  | some seen ↦
      if leb (seen + minutes 2) env.now
      then ok false
      else (let (violation, known) = reaction_violation rule d.metrics in ok (violation && known))
]

-- A denied access makes the reaction disallowed; any other error is passed on.
denied_or : Check → Result Bool → Result Bool
denied_or (ok u) next = next
denied_or (err e) next = if is_fleet_access e then ok false else err e

rule_access : Db → String → String → Result Bool → Check
rule_access db user_id device_id (err e) = err e
rule_access db user_id device_id (ok admin) = do
  u ← fleet_device_access db user_id device_id admin
  permission_allowed db user_id device_id "maintenance" admin

rule_applies : FleetRule → String → String → Bool
rule_applies rule service device_id =
    (rule.action == "service_restart")
    && (rule.service == service)
    && ((service == "dnsmasq") || (service == "uhttpd"))
    && contains rule.device_ids device_id

-- reactionCommandStillAllowed after the rule's row is found.
rule_still_allowed : Env → Db → String → String → RuleRow → Result Bool
unfolding report_failed recent_report metrics_violation denied_or rule_access rule_applies
rule_still_allowed env db device_id service row =
    if not row.enabled
    then ok false
    else if not (rule_applies row.definition service device_id)
    then ok false
    else denied_or (rule_access db row.user_id device_id (fleet_principal db row.user_id)) (
        if row.definition.kind == "service_down"
        then ok (report_failed service (recent_report env db device_id))
        else metrics_violation env row.definition (find_where (λ d. d.id == device_id) db.devices))

-- reactionCommandStillAllowed
unfoldable pub reaction_command_still_allowed : Env → Db → String → String → String → Result Bool
unfolding rule_still_allowed
reaction_command_still_allowed env db device_id rule_id service =
    elim (find_where (λ r. r.id == rule_id) db.rules) [
      | none ↦ ok false
      | some row ↦ rule_still_allowed env db device_id service row
    ]
