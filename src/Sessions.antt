-- ===== src/Sessions.antt =====
-- The remote sessions of server/internal/store/sqlite.go (CreateRemoteSession,
-- AttachRemoteSessionCommand, CloseRemoteSession, ExpireRemoteSessions), the command of a session
-- (CreateManagedRemoteCommand) and the access policies of
-- server/internal/store/fleet_access.go that they are subject to.
pub mod Safe
pub mod History
pub mod Managed
use openwrt_rmm.Base.{
  ◌-◌, ℕ, ◌+◌, ◌*◌, String, Bool, true, false, not, ◌&&◌, ◌||◌, Option, none, some, List, [], ◌∷◌,
  ◌++◌, any, contains, count_where, find_where, update_where, leb, ltb, eqb, if◌then◌else◌, ◌==◌,
  trim_space,
}
use openwrt_rmm.Schema.{
  Command, CommandPermissionRow, Json, other, Db, FleetAccessPolicy, RemoteSession, SessionStatus,
  Error, fleet_access, tunnel_session_limit, tunnel_rate_limit, tunnel_port_unavailable, Result,
  Check, ok, err, ◌>>=◌, ◌>>◌, guard,
}
use openwrt_rmm.Env.{Env, random_id, minutes, seconds}
use openwrt_rmm.Access.{fleet_principal, fleet_device_access, permission_allowed}
use openwrt_rmm.Access.Policy.{is_open}
use openwrt_rmm.Commands.{past, new_command, insert_command}

-- What a session asks for, of the policy of its device.
policy_permits : ℕ → String → Bool → Bool → ℕ → FleetAccessPolicy → Bool
policy_permits now user_id ssh luci expires p = not (
    (ssh && not p.ssh_allowed)
    || (luci && not p.luci_allowed)
    || (p.restrict_users && not (contains p.user_ids user_id))
    || ltb (now + seconds p.max_ttl_seconds + seconds 1) expires)

remote_right : Db → String → String → Check
remote_right db user_id device_id =
    if user_id == ""
    then ok tt
    else fleet_principal db user_id >>= λ admin.
        permission_allowed db user_id device_id "remote" admin

policy_check : ℕ → Db → String → String → Bool → Bool → ℕ → Option FleetAccessPolicy → Check
unfolding policy_permits
policy_check now db user_id device_id ssh luci expires none = ok tt
policy_check now db user_id device_id ssh luci expires (some p) = do
  guard (not (user_id == "")) fleet_access
  admin ← fleet_principal db user_id
  u ← fleet_device_access db user_id device_id admin
  guard (policy_permits now user_id ssh luci expires p) fleet_access

-- enforceFleetAccess, with loadFleetAccessPolicy: without a policy there is nothing to enforce.
unfoldable pub enforce_fleet_access : ℕ → Db → String → String → Bool → Bool → ℕ → Check
unfolding remote_right policy_check
enforce_fleet_access now db user_id device_id ssh luci expires =
    remote_right db user_id device_id
    >> policy_check now db user_id device_id ssh luci expires
        (find_where (λ p. p.device_id == device_id) db.access_policies)

abbrev pub overdue : ℕ → RemoteSession → Bool
overdue now s = is_open s.status && leb s.expires_at now

abbrev pub expire_session : ℕ → RemoteSession → RemoteSession
expire_session now s = record s {
  status = SessionStatus.expired;
  closed_at = some now;
  updated_at = now;
}

-- ExpireRemoteSessions
unfoldable pub expire_remote_sessions : ℕ → Db → Db
expire_remote_sessions now db = record db {
  sessions = update_where (overdue now) (expire_session now) db.sessions;
}

abbrev pub open_on : String → RemoteSession → Bool
open_on device_id s = (s.device_id == device_id) && is_open s.status

-- remote_port>0 AND remote_port IN (…) OR luci_port>0 AND luci_port IN (…)
abbrev pub shares_port : RemoteSession → RemoteSession → Bool
shares_port s t =
    (ltb 0 s.remote_port && (eqb s.remote_port t.remote_port || eqb s.remote_port t.luci_port))
    || (ltb 0 s.luci_port && (eqb s.luci_port t.remote_port || eqb s.luci_port t.luci_port))

abbrev recent : ℕ → String → RemoteSession → Bool
recent now device_id s = (s.device_id == device_id) && leb now (s.created_at + minutes 10)

abbrev text_or : String → String → String
text_or default value = if trim_space value == "" then default else trim_space value

abbrev number_or : ℕ → ℕ → ℕ
number_or default value = if eqb value 0 then default else value

-- The session as it is stored. `status` is the status that is asked for, `none` when it is blank.
unfoldable pub new_session : Env → Db → Option SessionStatus → RemoteSession → RemoteSession
unfolding random_id
new_session env db status s = record s {
  id = random_id env db "ras";
  status = elim status [ none ↦ SessionStatus.requested | some x ↦ x ];
  target = text_or "ssh" s.target;
  local_host = text_or "127.0.0.1" s.local_host;
  local_port = number_or 22 s.local_port;
  server_port = number_or 22 s.server_port;
  luci_scheme = if s.luci_scheme == "" then "http" else s.luci_scheme;
  created_at = number_or env.now s.created_at;
  expires_at = number_or (env.now + minutes 15) s.expires_at;
  started_at = none;
  closed_at = none;
  updated_at = env.now;
}

-- The checks after the overdue sessions are expired.
unfoldable pub admit : ℕ → RemoteSession → Db → Check
admit now s db = do
  guard (ltb (count_where (open_on s.device_id) db.sessions) 2) tunnel_session_limit
  guard (ltb (count_where (recent now s.device_id) db.sessions) 10) tunnel_rate_limit
  guard (not (any (λ t. is_open t.status && shares_port t s) db.sessions)) tunnel_port_unavailable

-- The table has no column for the requester, and id is its PRIMARY KEY.
insert_session : RemoteSession → Db → Db
insert_session s db = record db {
  sessions = db.sessions ++ (record s { requester_user_id = "" }) ∷ [];
  draws = db.draws + 1;
}

create_admitted :
    Env
    → Option SessionStatus
    → RemoteSession
    → Check
    → Db
    → Db
    → Result (Option RemoteSession) × Db
unfolding insert_session
create_admitted env status s (err e) expired db = (err e, db)
create_admitted env status s (ok u) expired db =
    let created = new_session env db status s in
    if any (λ t. t.id == created.id) expired.sessions
    then (err (other "UNIQUE constraint failed: remote_sessions.id"), db)
    else (ok (some created), insert_session created expired)

create_permitted :
    Env → Option SessionStatus → RemoteSession → Check → Db → Result (Option RemoteSession) × Db
unfolding create_admitted
create_permitted env status s (err e) db = (err e, db)
create_permitted env status s (ok u) db =
    let expired = expire_remote_sessions env.now db in
    if any (λ d. d.id == s.device_id) db.devices
    then create_admitted env status s (admit env.now s expired) expired db
    else (ok none, db)

-- CreateRemoteSession: the session, or `none` for a device that is not known. Only a session that
-- is made is committed.
unfoldable pub create_remote_session :
    Env → Option SessionStatus → RemoteSession → Db → Result (Option RemoteSession) × Db
unfolding create_permitted
create_remote_session env status s db =
    create_permitted env status s
      (enforce_fleet_access env.now db s.requester_user_id s.device_id (ltb 0 s.remote_port)
        (ltb 0 s.luci_port) s.expires_at)
      db

abbrev pub awaits : String → String → RemoteSession → Bool
awaits device_id id s =
    (s.device_id == device_id)
    && (s.id == id)
    && elim s.status [ SessionStatus.requested ↦ true | SessionStatus.queued ↦ true | _ ↦ false ]

abbrev pub attached : ℕ → String → RemoteSession → RemoteSession
attached now command_id s = record s {
  status = SessionStatus.queued;
  command_id = command_id;
  updated_at = now;
}

abbrev pub is_named : String → String → RemoteSession → Bool
is_named device_id id s = (s.device_id == device_id) && (s.id == id)

-- GetRemoteSession, which expires what is overdue first.
unfoldable pub get_remote_session : ℕ → String → String → Db → Option RemoteSession × Db
get_remote_session now device_id id db =
    let db' = expire_remote_sessions now db in
    (find_where (is_named device_id id) db'.sessions, db')

-- AttachRemoteSessionCommand
unfoldable pub attach_remote_session_command :
    ℕ → String → String → String → Db → Option RemoteSession × Db
attach_remote_session_command now device_id id command_id db =
    get_remote_session now device_id id (record db {
      sessions = update_where (awaits device_id id) (attached now command_id) db.sessions;
    })

abbrev pub closable : String → String → RemoteSession → Bool
closable device_id id s = is_named device_id id s && is_open s.status

abbrev pub closed_session : ℕ → RemoteSession → RemoteSession
closed_session now s = record s {
  status = SessionStatus.closed;
  closed_at = some now;
  updated_at = now;
}

-- CloseRemoteSession
unfoldable pub close_remote_session : ℕ → String → String → Db → Option RemoteSession × Db
close_remote_session now device_id id db =
    get_remote_session now device_id id (record db {
      sessions = update_where (closable device_id id) (closed_session now) db.sessions;
    })

abbrev is_requested : SessionStatus → Bool
is_requested SessionStatus.requested = true
is_requested _ = false

permitted_row : String → Command → List CommandPermissionRow → List CommandPermissionRow
permitted_row user_id c rows =
    if user_id == ""
    then rows
    else rows ++ (record { command_id = c.id; user_id = user_id; permission = "remote" }) ∷ []

-- The command is stored with the user's right, and the session waits for it. The update asks for
-- the identifier only.
managed : ℕ → String → String → Result Command → Db → Result (Option Command) × Db
unfolding permitted_row
managed now user_id id (err e) db = (err e, db)
managed now user_id id (ok c) db =
    let inserted = insert_command c db in
    (
      ok (some c),
      record inserted {
        command_permissions = permitted_row user_id c inserted.command_permissions;
        sessions = update_where (λ s. s.id == id) (attached now c.id) inserted.sessions;
      },
    )

managed_permitted : Env → String → RemoteSession → Json → Check → Db → Result (Option Command) × Db
unfolding managed
managed_permitted env user_id s args (err e) db = (err e, db)
managed_permitted env user_id s args (ok u) db =
    managed env.now user_id s.id
      (new_command env db s.device_id "remote_ssh_reverse" args (s.expires_at - env.now)) db

managed_session : Env → String → Json → Option RemoteSession → Db → Result (Option Command) × Db
unfolding managed_permitted
managed_session env user_id args none db = (ok none, db)
managed_session env user_id args (some s) db =
    if not (is_requested s.status) || leb s.expires_at env.now
    then (err fleet_access, db)
    else managed_permitted env user_id s args
        (enforce_fleet_access env.now db user_id s.device_id (ltb 0 s.remote_port)
          (ltb 0 s.luci_port) s.expires_at)
        db

-- CreateManagedRemoteCommand: the command of a session, or `none` when the device has no such
-- session. An error rolls the transaction back.
unfoldable pub create_managed_remote_command :
    Env → String → String → String → Json → Db → Result (Option Command) × Db
unfolding managed_session
create_managed_remote_command env user_id device_id id args db =
    managed_session env user_id args (find_where (is_named device_id id) db.sessions) db
