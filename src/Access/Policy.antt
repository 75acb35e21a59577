-- ===== src/Access/Policy.antt =====
-- SavePermissionPolicy of server/internal/store/permissions.go: the edit of a user's policy, which
-- closes what the user had open under the old one.
pub mod Save
pub mod Requester
use openwrt_rmm.Base.{
  ◌+◌, ℕ, ◌<◌, ◌≤◌, String, len, Bool, true, false, not, ◌&&◌, ◌||◌, Option, none, some, List, [],
  ◌∷◌, ◌++◌, length, any, all, contains, update_where, delete_where, leb, ltb, if◌then◌else◌, ◌==◌,
  trim_space,
}
use openwrt_rmm.Schema.{
  CommandPermissionRow, AuditEvent, Db, User, PolicyRow, PermissionPolicy, SessionStatus,
  CommandStatus, RemoteSession, Command, AccessGrant, Error, fleet_access, other, Result, Check, ok,
  err, ◌>>=◌, ◌>>◌, guard, commit_if,
}
use openwrt_rmm.Env.{Env, draw}
use openwrt_rmm.Access.{permissions, fleet_principal}

-- The checks on the policy before the database is opened.
unfoldable pub valid_policy : PermissionPolicy → Check
valid_policy p = do
  guard
      (not (
        ltb (length permissions) (length p.permissions)
        || ltb 100 (length p.groups)
        || ltb 100 (length p.sites)))
      (other "invalid permission limits")
  guard (all (contains permissions) p.permissions) (other "unknown permission")
  guard (all (λ v. not ((trim_space v == "") || ltb 255 (len v))) (p.groups ++ p.sites))
      (other "invalid scope")
  guard (not (not (contains p.permissions "view") && ltb 0 (length p.permissions)))
      (other "view is required")

-- status IN ('requested', 'queued', 'active')
abbrev pub is_open : SessionStatus → Bool
is_open SessionStatus.requested = true
is_open SessionStatus.queued = true
is_open SessionStatus.active = true
is_open _ = false

abbrev pub commanded_by : String → RemoteSession → CommandPermissionRow → Bool
commanded_by user_id s c =
    (c.command_id == s.command_id) && (c.user_id == user_id) && (c.permission == "remote")

abbrev pub is_actor : String → AuditEvent → User → Bool
is_actor user_id a u = (u.username == a.actor) && (u.id == user_id)

abbrev pub created_by : Db → String → RemoteSession → AuditEvent → Bool
created_by db user_id s a =
    (a.command_id == s.command_id)
    && (a.action == "remote_session.create")
    && any (is_actor user_id a) db.users

abbrev pub granted_to : String → RemoteSession → AccessGrant → Bool
granted_to user_id s g = (g.remote_session_id == s.id) && (g.user_id == user_id)

-- The sessions that the user asked for, by the command's permission row, by the audit log, or by
-- an access session or grant.
unfoldable pub belongs_to : Db → String → RemoteSession → Bool
belongs_to db user_id s =
    any (commanded_by user_id s) db.command_permissions
    || any (created_by db user_id s) db.audit
    || any (granted_to user_id s) db.access_sessions
    || any (granted_to user_id s) db.access_grants

abbrev pub close_session : ℕ → RemoteSession → RemoteSession
close_session now s = record s {
  status = SessionStatus.closed;
  closed_at = some now;
  updated_at = now;
}

abbrev is_closed : SessionStatus → Bool
is_closed SessionStatus.closed = true
is_closed _ = false

abbrev is_queued : CommandStatus → Bool
is_queued CommandStatus.queued = true
is_queued _ = false

-- INSERT … ON CONFLICT(user_id) DO UPDATE
unfoldable pub upsert_policy : PolicyRow → List PolicyRow → List PolicyRow
upsert_policy row [] = row ∷ []
upsert_policy row (r ∷ rs) = if r.user_id == row.user_id then row ∷ rs else r ∷ upsert_policy row rs

close_sessions : Env → String → Db → Db
unfolding belongs_to
close_sessions env user_id db = record db {
  sessions =
      update_where (λ s. is_open s.status && belongs_to db user_id s) (close_session env.now)
        db.sessions;
}

cancel_commands : Env → Db → Db
cancel_commands env db = record db {
  commands =
      update_where
        (λ c.
          is_queued c.status
          && (c.kind == "remote_ssh_reverse")
          && any (λ s. is_closed s.status && (s.command_id == c.id)) db.sessions)
        (λ c. record c { status = CommandStatus.cancelled; cancelled_at = some env.now })
        db.commands;
}

-- The statements of the transaction.
store_policy : Env → String → String → PermissionPolicy → Db → Db
unfolding upsert_policy close_sessions cancel_commands
store_policy env admin_id user_id p db =
    let stored = record db {
      policies =
          upsert_policy (record { user_id = user_id; policy = p; updated_at = env.now })
            db.policies;
    } in
    let cancelled = cancel_commands env (close_sessions env user_id stored) in
    record cancelled {
      access_sessions = delete_where (λ g. g.user_id == user_id) cancelled.access_sessions;
      access_grants = delete_where (λ g. g.user_id == user_id) cancelled.access_grants;
      audit =
          (record {
            actor = admin_id;
            action = "permissions.update";
            device_id = "";
            command_id = "";
            created_at = env.now;
          })
          ∷ cancelled.audit;
      draws = cancelled.draws + 1;
    }

authorize_save : Db → String → String → Check
authorize_save db admin_id user_id = do
  admin ← fleet_principal db admin_id
  guard admin fleet_access
  target_admin ← fleet_principal db user_id
  guard (not target_admin) (other "administrator permissions cannot be restricted")

-- SavePermissionPolicy. An error leaves the database as it was.
unfoldable pub save_permission_policy : Env → String → String → PermissionPolicy → Db → Check × Db
unfolding valid_policy store_policy authorize_save commit_if
save_permission_policy env admin_id user_id p db =
    commit_if (valid_policy p >> authorize_save db admin_id user_id)
      (store_policy env admin_id user_id (record p { configured = true }) db) db
