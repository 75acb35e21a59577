-- ===== src/Fleet/Advance/Dispatch.antt =====
-- The second half of advanceFleetOperation, server/internal/store/fleet_operations.go: pending
-- items are sent to their devices while there is room.
pub mod Counters
pub mod Idle
pub mod Authority
use openwrt_rmm.Base.{
  ℕ, zero, suc, ◌+◌, ◌-◌, String, append, Bool, true, false, not, ◌&&◌, ◌||◌, Option, none, some,
  List, [], ◌∷◌, ◌++◌, count_where, leb, ltb, eqb, if◌then◌else◌, ◌==◌,
}
use openwrt_rmm.Schema.{
  Db, Command, FleetOperation, FleetOperationItem, OperationStatus, ItemStatus, Backup,
  BackupStatus, Error, fleet_feature_unavailable, is_fleet_access, Result, Check, ok, err, ◌>>=◌,
}
use openwrt_rmm.Env.{Env, random_id}
use openwrt_rmm.Access.{command_permission, fleet_device_access, permission_allowed}
use openwrt_rmm.Commands.{new_command, insert_command, is_creating}
use openwrt_rmm.Fleet.{is_pending}
use openwrt_rmm.Fleet.Updates.{validate_fleet_update_device}

-- The database, the operation's status, and the loop's counters.
pub record Loop : Type 0 where
  pub db : Db
  pub status : OperationStatus
  pub active : ℕ
  pub failed : ℕ

-- What the code decides for one item: leave it, mark it, send it, or give the round up.
pub data Decision : Type 0 where
  skip : Decision
  deny : Decision
  current : Decision
  changed : Decision
  send : Decision
  abort : Error → Decision

-- The access of the operation's user to the item's device, checked anew in each round.
unfoldable pub target_check : Db → FleetOperation → Result Bool → FleetOperationItem → Check
target_check db op access i = do
  admin ← access
  u ← fleet_device_access db op.user_id i.device_id admin
  permission_allowed db op.user_id i.device_id (command_permission op.kind) admin

backup_decision : Db → FleetOperation → FleetOperationItem → Decision
backup_decision db op i =
    if (op.kind == "system_backup_create")
      && ltb 0 (count_where (λ b. (b.device_id == i.device_id) && is_creating b.status) db.backups)
    then skip
    else send

abbrev is_unavailable : Error → Bool
is_unavailable fleet_feature_unavailable = true
is_unavailable _ = false

update_decision : Decision → Result Bool → Decision
update_decision next (ok true) = current
update_decision next (ok false) = next
update_decision next (err e) = if is_unavailable e then changed else abort e

allowed_decision : Db → FleetOperation → FleetOperationItem → Decision
unfolding backup_decision update_decision
allowed_decision db op i =
    if op.kind == "agent_update"
    then update_decision (backup_decision db op i)
        (validate_fleet_update_device db i.device_id i.args)
    else backup_decision db op i

access_decision : Check → Decision → Decision
access_decision (ok u) next = next
access_decision (err e) next = if is_fleet_access e then deny else abort e

unfoldable pub decide_item :
    Db → FleetOperation → Result Bool → ℕ → ℕ → FleetOperationItem → Decision
unfolding allowed_decision access_decision
decide_item db op access parallelism active i =
    if not (is_pending i.status) || leb parallelism active
    then skip
    else access_decision (target_check db op access i) (allowed_decision db op i)

-- INSERT INTO device_backups for a backup command.
add_backup : Env → FleetOperation → Command → Db → Db
unfolding random_id
add_backup env op c db =
    if op.kind == "system_backup_create"
    then record db {
      backups =
          db.backups
          ++ (record {
            id = random_id env db "bkp";
            device_id = c.device_id;
            command_id = c.id;
            status = BackupStatus.creating;
            error = "";
            completed_at = none;
          })
            ∷ [];
      draws = db.draws + 1;
    }
    else db

unfoldable pub send_command : Env → FleetOperation → Command → Db → Db
unfolding add_backup
send_command env op c db =
    let added = add_backup env op c (insert_command c db) in
    record added {
      audit =
          (record {
            actor = op.user_id;
            action = "fleet.command_create";
            device_id = c.device_id;
            command_id = c.id;
            created_at = env.now;
          })
          ∷ added.audit;
    }

-- How the loop goes on after an item: with the item and the state, and whether it breaks.
pub data Step : Type 0 where
  next : FleetOperationItem → Loop → Step
  break : FleetOperationItem → Loop → Step
  raise : Error → Step

-- A failure before the command is made: the operation may stop on it.
fail_item : FleetOperation → String → FleetOperationItem → Loop → Step
fail_item op message i l =
    let i' = record i { status = ItemStatus.failed; error = message } in
    if op.stop_on_failure
    then break i' (record l { failed = l.failed + 1; status = OperationStatus.paused })
    else next i' (record l { failed = l.failed + 1 })

sent : Env → FleetOperation → FleetOperationItem → Loop → Result Command → Step
sent env op i l (ok c) =
    next (record i { status = ItemStatus.queued; command_id = c.id })
      (record l { db = send_command env op c l.db; active = l.active + 1 })
sent env op i l (err e) = raise e

take_decision : Env → FleetOperation → FleetOperationItem → Loop → Decision → Step
unfolding fail_item sent
take_decision env op i l skip = next i l
take_decision env op i l deny = fail_item op "device access changed" i l
take_decision env op i l current = next (record i { status = ItemStatus.completed }) l
take_decision env op i l changed = fail_item op "update platform changed; recreate schedule" i l
take_decision env op i l send =
    sent env op i l (new_command env l.db i.device_id op.kind i.args (op.deadline_at - env.now))
take_decision env op i l (abort e) = raise e

-- One pass of the loop body.
unfoldable pub dispatch_item :
    Env → FleetOperation → Result Bool → ℕ → FleetOperationItem → Loop → Step
unfolding take_decision
dispatch_item env op access parallelism i l =
    take_decision env op i l (decide_item l.db op access parallelism l.active i)

pub prepend :
    FleetOperationItem
    → Result (List FleetOperationItem × Loop)
    → Result (List FleetOperationItem × Loop)
prepend i (ok (is, l)) = ok (i ∷ is, l)
prepend i (err e) = err e

after_step :
    List FleetOperationItem
    → (Loop → Result (List FleetOperationItem × Loop))
    → Step
    → Result (List FleetOperationItem × Loop)
unfolding prepend
after_step is rest (next i l) = prepend i (rest l)
after_step is rest (break i l) = ok (i ∷ is, l)
after_step is rest (raise e) = err e

-- The loop. A `break` leaves the items that follow as they are, an error ends the round.
unfoldable pub dispatch :
    Env
    → FleetOperation
    → Result Bool
    → ℕ
    → List FleetOperationItem
    → Loop
    → Result (List FleetOperationItem × Loop)
unfolding after_step
dispatch env op access parallelism [] l = ok ([], l)
dispatch env op access parallelism (i ∷ is) l =
    after_step is (λ l'. dispatch env op access parallelism is l')
      (dispatch_item env op access parallelism i l)
