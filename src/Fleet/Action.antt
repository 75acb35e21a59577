-- ===== src/Fleet/Action.antt =====
-- SetFleetOperationAction of server/internal/store/fleet_operations.go: the owner of an operation
-- cancels it or resumes it.
pub mod Cancel
use openwrt_rmm.Base.{
  String, Bool, true, false, ◌&&◌, Option, none, some, List, any, find_where, update_where,
  if◌then◌else◌, ◌==◌,
}
use openwrt_rmm.Schema.{
  Db, Command, CommandStatus, FleetOperation, FleetOperationItem, OperationStatus, ItemStatus,
  Error, fleet_access, other, Result, Check, ok, err, ◌>>=◌, ◌>>◌,
}
use openwrt_rmm.Env.{Env}
use openwrt_rmm.Access.{command_permission, fleet_principal, permission_allowed}
use openwrt_rmm.Commands.{is_queued}
use openwrt_rmm.Fleet.{is_active, is_pending}

abbrev pub is_paused : OperationStatus → Bool
is_paused OperationStatus.paused = true
is_paused _ = false

abbrev pub cancelled_item : FleetOperationItem → FleetOperationItem
cancelled_item i = record i { status = ItemStatus.cancelled }

unfoldable pub cancelling_row : Env → FleetOperation → FleetOperation
cancelling_row env o = record o {
  status = OperationStatus.cancelling;
  updated_at = env.now;
  items = update_where (λ i. is_pending i.status) cancelled_item o.items;
}

-- The queued commands of the operation.
abbrev pub waits_for : FleetOperation → Command → Bool
waits_for op c = is_queued c.status && any (λ i. i.command_id == c.id) op.items

abbrev pub withdraw : Env → Command → Command
withdraw env c = record c { status = CommandStatus.cancelled; cancelled_at = some env.now }

unfoldable pub cancel_operation : Env → FleetOperation → Db → Db
unfolding cancelling_row
cancel_operation env op db = record db {
  operations = update_where (λ o. o.id == op.id) (cancelling_row env) db.operations;
  commands = update_where (waits_for op) (withdraw env) db.commands;
}

abbrev pub resumed_row : Env → FleetOperation → FleetOperation
resumed_row env o = record o { status = OperationStatus.running; updated_at = env.now }

unfoldable pub resume_operation : Env → FleetOperation → Db → Db
resume_operation env op db = record db {
  operations = update_where (λ o. o.id == op.id) (resumed_row env) db.operations;
}

act : Env → FleetOperation → String → Db → Check × Db
act env op action db =
    if action == "cancel"
    then (ok tt, if is_active op.status then cancel_operation env op db else db)
    else if (action == "resume") && is_paused op.status
    then (ok tt, resume_operation env op db)
    else (err (other "operation action is unavailable"), db)

may_act : Db → String → Bool → FleetOperation → String → Check
may_act db user_id admin op action =
    if action == "resume"
    then permission_allowed db user_id "" (command_permission op.kind) admin
    else ok tt

authorize_action : Db → String → String → String → Result FleetOperation
unfolding may_act
authorize_action db user_id id action = do
  admin ← fleet_principal db user_id
  elim (find_where (λ o. (o.id == id) && (o.user_id == user_id)) db.operations) [
    | none ↦ err fleet_access
    | some op ↦ may_act db user_id admin op action >> ok op
  ]

perform : Env → String → Result FleetOperation → Db → Check × Db
unfolding act
perform env action (err e) db = (err e, db)
perform env action (ok op) db = act env op action db

-- SetFleetOperationAction
unfoldable pub set_fleet_operation_action : Env → String → String → String → Db → Check × Db
unfolding perform authorize_action
set_fleet_operation_action env user_id id action db =
    perform env action (authorize_action db user_id id action) db
