-- ===== src/Commands.antt =====
-- The life of a command in the table commands, server/internal/store/sqlite.go: newCommand,
-- CreateCommand, ExpireClaimedCommands, SaveCommandResult, CancelCommand and
-- updateRemoteSessionFromCommandResult. The delivery to an agent is in Commands/Claim.antt.
pub mod Claim
pub mod Life
pub mod Trust
pub mod History
use openwrt_rmm.Base.{
  ℕ, ◌+◌, ◌-◌, ◌%◌, String, Bool, true, false, not, ◌&&◌, ◌||◌, Option, none, some, List, [], ◌∷◌,
  ◌++◌, map, length, any, find_where, update_where, leb, ltb, eqb, if◌then◌else◌, ◌==◌,
}
use openwrt_rmm.Schema.{
  ℤ, Db, Command, CommandStatus, Backup, BackupStatus, RemoteSession, SessionStatus, Json,
  empty_object, Error, other, Result, ok, err, ◌>>=◌, ◌>>◌, guard,
}
use openwrt_rmm.Env.{Env, draw, random_id, hours}
use openwrt_rmm.Signing.{Envelope, sign}
use openwrt_rmm.Access.Policy.{is_open}
use openwrt_rmm.Redact.{redact_sensitive_output}

-- NormalizeRawJSON
unfoldable pub normalize_raw_json : Json → Json
normalize_raw_json doc =
    if (doc.text == "") || not doc.is_valid
    then empty_object
    else record doc { text = doc.compacted }

-- time.Time.Truncate(time.Microsecond)
abbrev pub microsecond : ℕ → ℕ
microsecond t = t - t % 1000

with_signature : Command → Result String → Result Command
with_signature c (ok s) = ok (record c { signature = s })
with_signature c (err e) = err e

-- The command that newCommand builds, before its signature.
unsigned_command : Env → Db → String → String → Json → ℕ → Command
unfolding normalize_raw_json random_id
unsigned_command env db device_id kind args ttl =
    let created_at = microsecond env.now in
    record {
      id = random_id env db "cmd";
      device_id = device_id;
      kind = kind;
      args = normalize_raw_json args;
      status = CommandStatus.queued;
      result = empty_object;
      output = "";
      exit_code = none;
      attempt_count = 0;
      max_attempts = 3;
      created_at = created_at;
      expires_at = some (microsecond (created_at + ttl));
      claimed_at = none;
      completed_at = none;
      cancelled_at = none;
      expired_at = none;
      nonce = env.random_nonce db.draws;
      signature_key_id = env.ed25519.key_id (env.ed25519.public_of env.signing_key);
      signature = "";
    }

-- newCommand: the signed command, not yet stored.
unfoldable pub new_command : Env → Db → String → String → Json → ℕ → Result Command
unfolding normalize_raw_json random_id with_signature unsigned_command
new_command env db device_id kind args ttl = do
  guard (eqb (length env.signing_key) 64) (other "command signing is unavailable")
  with_signature (unsigned_command env db device_id kind args ttl) (
      sign env.ed25519 env.signing_key (record {
        id = random_id env db "cmd";
        device_id = device_id;
        kind = kind;
        args = normalize_raw_json args;
        created_at = microsecond env.now;
        expires_at = microsecond (microsecond env.now + ttl);
        nonce = env.random_nonce db.draws;
      }))

-- INSERT INTO commands
abbrev pub insert_command : Command → Db → Db
insert_command c db = record db { commands = db.commands ++ c ∷ []; draws = db.draws + 1 }

stored : Result Command → Db → Result (Option Command) × Db
stored (ok c) db = (ok (some c), insert_command c db)
stored (err e) db = (err e, db)

-- CreateCommand; `none` when the device is not known.
unfoldable pub create_command : Env → String → String → Json → Db → Result (Option Command) × Db
unfolding stored new_command
create_command env device_id kind args db =
    if any (λ d. d.id == device_id) db.devices
    then stored (new_command env db device_id kind args (hours 24)) db
    else (ok none, db)

abbrev pub is_queued : CommandStatus → Bool
is_queued CommandStatus.queued = true
is_queued _ = false

abbrev pub is_claimed : CommandStatus → Bool
is_claimed CommandStatus.claimed = true
is_claimed _ = false

-- status IN ('queued', 'claimed')
abbrev pub in_flight : CommandStatus → Bool
in_flight s = is_queued s || is_claimed s

-- status IN ('failed', 'expired', 'cancelled')
abbrev pub is_lost : CommandStatus → Bool
is_lost CommandStatus.failed = true
is_lost CommandStatus.expired = true
is_lost CommandStatus.cancelled = true
is_lost _ = false

-- t IS NOT NULL AND julianday(t) <= julianday(limit)
abbrev pub past : Option ℕ → ℕ → Bool
past none limit = false
past (some t) limit = leb t limit

abbrev pub expire : ℕ → Command → Command
expire now c = record c { status = CommandStatus.expired; expired_at = some now }

abbrev pub requeue : Command → Command
requeue c = record c { status = CommandStatus.queued; claimed_at = none }

-- claimed_at IS NOT NULL AND claimed_at <= now - max_age, without the subtraction
abbrev pub stale : ℕ → ℕ → Command → Bool
stale now max_age c =
    is_claimed c.status && elim c.claimed_at [ none ↦ false | some t ↦ leb (t + max_age) now ]

-- The first update: what is past its expiry.
unfoldable pub expire_due : ℕ → Command → Command
expire_due now c = if in_flight c.status && past c.expires_at now then expire now c else c

-- The second: a stale claim with no attempt left.
unfoldable pub expire_worn : ℕ → ℕ → Command → Command
expire_worn now max_age c =
    if stale now max_age c && leb c.max_attempts c.attempt_count then expire now c else c

-- The third: a stale claim with an attempt left goes back to the queue.
unfoldable pub requeue_stale : ℕ → ℕ → Command → Command
requeue_stale now max_age c =
    if stale now max_age c && ltb c.attempt_count c.max_attempts then requeue c else c

-- The three updates of one row, in their order.
unfoldable pub expire_row : ℕ → ℕ → Command → Command
expire_row now max_age c = requeue_stale now max_age (expire_worn now max_age (expire_due now c))

abbrev pub is_creating : BackupStatus → Bool
is_creating BackupStatus.creating = true
is_creating _ = false

fail_lost_backups : ℕ → Db → Db
fail_lost_backups now db = record db {
  backups =
      update_where
        (λ b.
          is_creating b.status && any (λ c. (c.id == b.command_id) && is_lost c.status) db.commands)
        (λ b. record b {
          status = BackupStatus.failed;
          error = "backup command expired or was cancelled";
          completed_at = some now;
        })
        db.backups;
}

-- ExpireClaimedCommands
unfoldable pub expire_claimed_commands : Env → ℕ → Db → Db
unfolding fail_lost_backups
expire_claimed_commands env max_age db =
    fail_lost_backups env.now
      (record db { commands = map (expire_row env.now max_age) db.commands })

-- status != 'cancelled' AND status != 'expired'
abbrev pub takes_result : CommandStatus → Bool
takes_result CommandStatus.cancelled = false
takes_result CommandStatus.expired = false
takes_result _ = true

abbrev pub coalesce : Option ℕ → ℕ → Option ℕ
coalesce none now = some now
coalesce (some t) now = some t

abbrev pub awaits_command : SessionStatus → Bool
awaits_command SessionStatus.requested = true
awaits_command SessionStatus.queued = true
awaits_command _ = false

abbrev pub starts : String → RemoteSession → Bool
starts command_id s = (s.command_id == command_id) && awaits_command s.status

abbrev pub started_session : ℕ → RemoteSession → RemoteSession
started_session now s = record s {
  status = SessionStatus.active;
  started_at = coalesce s.started_at now;
  updated_at = now;
}

abbrev pub breaks_off : String → RemoteSession → Bool
breaks_off command_id s = (s.command_id == command_id) && is_open s.status

abbrev pub failed_session : ℕ → RemoteSession → RemoteSession
failed_session now s = record s {
  status = SessionStatus.failed;
  closed_at = coalesce s.closed_at now;
  updated_at = now;
}

-- updateRemoteSessionFromCommandResult
unfoldable pub update_remote_session_from_command_result : ℕ → String → CommandStatus → Db → Db
update_remote_session_from_command_result now command_id CommandStatus.completed db = record db {
  sessions = update_where (starts command_id) (started_session now) db.sessions;
}
update_remote_session_from_command_result now command_id CommandStatus.failed db = record db {
  sessions = update_where (breaks_off command_id) (failed_session now) db.sessions;
}
update_remote_session_from_command_result now command_id _ db = db

abbrev pub result_row : String → String → Command → Bool
result_row command_id device_id c =
    (c.id == command_id) && (c.device_id == device_id) && takes_result c.status

unfoldable pub save_row : Env → CommandStatus → ℤ → String → Json → Command → Command
unfolding normalize_raw_json
save_row env status exit_code output result c = record c {
  status = status;
  result = normalize_raw_json result;
  output = redact_sensitive_output env.lower output;
  exit_code = some exit_code;
  completed_at = some env.now;
}

-- SaveCommandResult: whether a row took the result.
unfoldable pub save_command_result :
    Env → String → String → CommandStatus → ℤ → String → Json → Db → Bool × Db
save_command_result env command_id device_id status exit_code output result db =
    let saved = record db {
      commands =
          update_where (result_row command_id device_id)
            (save_row env status exit_code output result) db.commands;
    } in
    if any (result_row command_id device_id) db.commands
    then (true, update_remote_session_from_command_result env.now command_id status saved)
    else (false, saved)

abbrev pub cancellable : String → String → Command → Bool
cancellable device_id command_id c =
    (c.device_id == device_id) && (c.id == command_id) && in_flight c.status

abbrev pub cancelled_row : ℕ → Command → Command
cancelled_row now c = record c { status = CommandStatus.cancelled; cancelled_at = some now }

-- CancelCommand; the command as it is then, or `none` when the device has no such command.
unfoldable pub cancel_command : Env → String → String → Db → Option Command × Db
cancel_command env device_id command_id db =
    let cancelled = record db {
      commands =
          update_where (cancellable device_id command_id) (cancelled_row env.now) db.commands;
    } in
    (
      find_where (λ c. (c.device_id == device_id) && (c.id == command_id)) cancelled.commands,
      cancelled,
    )
