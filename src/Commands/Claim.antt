-- ===== src/Commands/Claim.antt =====
-- ClaimNextCommand of server/internal/store/sqlite.go: the delivery of a queued command to the
-- device's agent, with the checks that may hold it back or cancel it.
pub mod Safety
pub mod Evolution
use openwrt_rmm.Base.{
  ℕ, ◌+◌, String, Bool, true, false, not, ◌&&◌, ◌||◌, Option, none, some, List, [], ◌∷◌, any,
  contains, count_where, find_where, select_where, update_where, earliest, leb, ltb, eqb,
  if◌then◌else◌, ◌==◌,
}
use openwrt_rmm.Schema.{
  Db, Command, CommandStatus, CommandPermissionRow, Rollout, RolloutDevice, AuditEvent,
  FleetOperation, Error, is_fleet_access, Result, Check, ok, err, ◌>>=◌,
}
use openwrt_rmm.Env.{Env, minutes}
use openwrt_rmm.Access.{
  command_permission, fleet_principal, fleet_device_access, permission_allowed,
}
use openwrt_rmm.Fleet.Updates.{string_at}
use openwrt_rmm.Reactions.{reaction_command_still_allowed}
use openwrt_rmm.Rollouts.Pause.{is_running, is_failure, pause_guarded_rollout}
use openwrt_rmm.Commands.{is_queued, past, expire_claimed_commands}

-- What a check says of the command that is next.
pub data Gate : Type 0 where
  deliver : Gate
  hold : Gate
  pause : (rollout_id : String) → Gate
  cancel : (reason : String) → Gate
  revoke : (reason : String) → Gate
  fail : Error → Gate

-- The checks in their order: the first that does not let the command through decides.
abbrev pub and_then : Gate → Gate → Gate
and_then deliver g = g
and_then hold g = hold
and_then (pause r) g = pause r
and_then (cancel r) g = cancel r
and_then (revoke r) g = revoke r
and_then (fail e) g = fail e

-- WHERE device_id = ? AND status = 'queued' AND attempt_count < max_attempts AND not expired
abbrev pub deliverable : ℕ → String → Command → Bool
deliverable now device_id c =
    (c.device_id == device_id)
    && is_queued c.status
    && ltb c.attempt_count c.max_attempts
    && not (past c.expires_at now)

pub next_command : Env → String → Db → Option Command
next_command env device_id db =
    earliest (λ c. c.created_at) (select_where (deliverable env.now device_id) db.commands)

pub is_guarded : Rollout → Bool
is_guarded r = elim r.guard [ none ↦ false | some g ↦ true ]

wave_gate : Rollout → Option RolloutDevice → Gate
wave_gate r none = deliver
wave_gate r (some d) =
    if not (is_running r.status)
    then hold
    else if eqb (count_where (λ x. eqb x.batch d.batch && is_failure x.status) r.devices) 0
    then deliver
    else pause r.id

-- An update of a guarded rollout is held back while the rollout does not run, and pauses it when
-- its wave has a failed target.
rollout_gate : Db → Command → Gate
unfolding is_guarded wave_gate
rollout_gate db c =
    if not (c.kind == "agent_update")
    then deliver
    else elim (find_where (λ r. is_guarded r && any (λ d. d.command_id == c.id) r.devices)
        db.rollouts) [
          | none ↦ deliver
          | some r ↦ wave_gate r (find_where (λ d. d.command_id == c.id) r.devices)
        ]

-- The actions of the audit log that name who created a command.
abbrev creation_actions : List String
creation_actions =
    "command.create" ∷ "command.bulk_create" ∷ "agent.update_queue" ∷ "agent.rollback_queue"
    ∷ "backup.restore" ∷ "backup.create" ∷ "remote_session.create" ∷ []

audit_creator : Db → Command → Option String
audit_creator db c =
    elim (earliest (λ a. a.created_at)
      (select_where
        (λ a.
          (a.command_id == c.id)
          && contains creation_actions a.action
          && any (λ u. u.username == a.actor) db.users)
        db.audit)) [
          | none ↦ none
          | some a ↦ elim (find_where (λ u. u.username == a.actor) db.users) [
            | none ↦ none
            | some u ↦ some u.id
          ]
        ]

creator_of_row : Db → Command → Option CommandPermissionRow → Option (String × String)
creator_of_row db c (some row) = some (row.user_id, row.permission)
creator_of_row db c none = elim (audit_creator db c) [
  | none ↦ none
  | some u ↦ some (u, command_permission c.kind)
]

-- Who created the command, and the permission that it needs, if that is recorded.
unfoldable pub creator : Db → Command → Option (String × String)
unfolding audit_creator creator_of_row
creator db c = creator_of_row db c (find_where (λ r. r.command_id == c.id) db.command_permissions)

gate_of : Gate → Check → Gate
gate_of denied (ok u) = deliver
gate_of denied (err e) = if is_fleet_access e then denied else fail e

unfoldable pub creator_gate : Db → String → Option (String × String) → Gate
unfolding gate_of
creator_gate db device_id none = deliver
creator_gate db device_id (some (user, permission)) =
    gate_of (revoke "permission revoked before delivery")
      (do admin ← fleet_principal db user; permission_allowed db user device_id permission admin)

pub fleet_check : Db → String → String → Command → Check
fleet_check db user device_id c = do
  admin ← fleet_principal db user
  u ← fleet_device_access db user device_id admin
  permission_allowed db user device_id (command_permission c.kind) admin

-- The owner of the fleet operation that the command belongs to must still have access.
fleet_gate : Db → String → Command → Gate
unfolding gate_of fleet_check
fleet_gate db device_id c =
    elim (find_where (λ o. any (λ i. i.command_id == c.id) o.items) db.operations) [
      | none ↦ deliver
      | some o ↦
          gate_of (cancel "fleet access revoked before delivery")
            (fleet_check db o.user_id device_id c)
    ]

reaction_verdict : Result Bool → Gate
reaction_verdict (ok true) = deliver
reaction_verdict (ok false) = cancel "automatic condition recovered or rule disabled"
reaction_verdict (err e) = fail e

-- An automatic restart needs its condition to hold still.
reaction_gate : Env → Db → String → Command → Gate
unfolding string_at reaction_verdict
reaction_gate env db device_id c =
    if not (c.kind == "service_restart") then deliver else elim c.args.strings [
      | none ↦ deliver
      | some args ↦
          if string_at "rule_id" args == ""
          then deliver
          else reaction_verdict (
              reaction_command_still_allowed env db device_id (string_at "rule_id" args)
                (string_at "service" args))
    ]

unfoldable pub gate : Env → Db → String → Command → Gate
unfolding rollout_gate fleet_gate reaction_gate
gate env db device_id c = and_then (rollout_gate db c) (
    and_then (creator_gate db device_id (creator db c))
      (and_then (fleet_gate db device_id c) (reaction_gate env db device_id c)))

abbrev pub claim_row : ℕ → Command → Command
claim_row now c = record c {
  status = CommandStatus.claimed;
  claimed_at = some now;
  attempt_count = c.attempt_count + 1;
}

abbrev pub cancel_row : ℕ → String → Command → Command
cancel_row now reason c = record c {
  status = CommandStatus.cancelled;
  cancelled_at = some now;
  output = reason;
}

pass : Env → Command → Gate → Db → Result (Option Command) × Db
pass env c deliver db = (
  ok (some (record c { status = CommandStatus.claimed; attempt_count = c.attempt_count + 1 })),
  record db {
    commands =
        update_where (λ r. (r.id == c.id) && is_queued r.status) (claim_row env.now) db.commands;
  },
)
pass env c hold db = (ok none, db)
pass env c (pause id) db =
    (ok none, pause_guarded_rollout env.now id "current wave has a failed target" db)
pass env c (cancel reason) db = (
  ok none,
  record db {
    commands =
        update_where (λ r. (r.id == c.id) && is_queued r.status) (cancel_row env.now reason)
          db.commands;
  },
)
-- This update does not ask for the status.
pass env c (revoke reason) db = (
  ok none,
  record db { commands = update_where (λ r. r.id == c.id) (cancel_row env.now reason) db.commands },
)
pass env c (fail e) db = (err e, db)

claim_found : Env → String → Option Command → Db → Result (Option Command) × Db
unfolding pass
claim_found env device_id none db = (ok none, db)
claim_found env device_id (some c) db = pass env c (gate env db device_id c) db

-- ClaimNextCommand. The expiry before it is a transaction of its own.
unfoldable pub claim_next_command : Env → String → Db → Result (Option Command) × Db
unfolding claim_found next_command
claim_next_command env device_id db =
    let db' = expire_claimed_commands env (minutes 2) db in
    claim_found env device_id (next_command env device_id db') db'
