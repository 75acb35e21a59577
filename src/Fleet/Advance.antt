-- ===== src/Fleet/Advance.antt =====
-- advanceFleetOperation and AdvanceFleetOperations of server/internal/store/fleet_operations.go:
-- one round of an operation, and a round of every active one.
pub mod Poll
pub mod Dispatch
pub mod Limits
pub mod Targets
pub mod Deadline
use openwrt_rmm.Base.{
  ℕ, zero, suc, ◌+◌, String, Bool, true, false, not, ◌&&◌, ◌||◌, Option, none, some, List, [], ◌∷◌,
  any, count_where, find_where, update_where, select_where, ltb, eqb, if◌then◌else◌, ◌==◌,
}
use openwrt_rmm.Schema.{
  Db, FleetOperation, FleetOperationItem, OperationStatus, Error, no_rows, Result, Check, ok, err,
  ◌>>=◌,
}
use openwrt_rmm.Env.{Env}
use openwrt_rmm.Access.{fleet_principal}
use openwrt_rmm.Fleet.{is_running, is_active, is_cancelling, is_pending, is_working}
use openwrt_rmm.Fleet.Advance.Poll.{Polled, expire_commands, expire_pending, poll_items}
use openwrt_rmm.Fleet.Advance.Dispatch.{Loop, dispatch}

-- A new failure pauses a running operation that stops on failures.
pause_on_failure : FleetOperation → Bool → OperationStatus
pause_on_failure op new_failure =
    if new_failure && op.stop_on_failure && is_running op.status
    then OperationStatus.paused
    else op.status

-- The canary has been sent and has ended.
canary_done : List FleetOperationItem → Bool
canary_done items = any (λ i. not (i.command_id == "") && not (is_working i.status)) items

-- The canary's flag and the operation's status after the canary is looked at.
after_canary : Bool → Bool → OperationStatus → Bool × OperationStatus
after_canary pending done status =
    if pending && done
    then (false, if is_running status then OperationStatus.paused else status)
    else (pending, status)

-- While the canary is pending, one device at a time.
abbrev pub room : FleetOperation → Bool → ℕ
room op canary_pending = if canary_pending then 1 else op.parallelism

dispatch_if_running :
    Env
    → FleetOperation
    → Result Bool
    → ℕ
    → List FleetOperationItem
    → Loop
    → Result (List FleetOperationItem × Loop)
dispatch_if_running env op access parallelism items l =
    if is_running l.status then dispatch env op access parallelism items l else ok (items, l)

-- The status when nothing is pending and nothing is in work.
unfoldable pub final_status : List FleetOperationItem → Loop → OperationStatus
final_status items l =
    if eqb (count_where (λ i. is_pending i.status) items) 0 && eqb l.active 0
    then (if is_cancelling l.status
        then OperationStatus.cancelled
        else if ltb 0 l.failed
        then OperationStatus.failed
        else OperationStatus.completed)
    else l.status

store_round :
    Env
    → FleetOperation
    → Bool
    → Result (List FleetOperationItem × Loop)
    → Result (FleetOperation × Db)
unfolding final_status
store_round env op canary (err e) = err e
store_round env op canary (ok (items, l)) =
    let op' = record op {
      items = items;
      status = final_status items l;
      canary_pending = canary;
      updated_at = env.now;
    } in
    ok (
      op',
      record l.db { operations = update_where (λ o. o.id == op.id) (λ o. op') l.db.operations },
    )

-- The round after the items have been polled.
round_of : Env → FleetOperation → Result Bool → Db → Polled → Result (FleetOperation × Db)
unfolding pause_on_failure canary_done after_canary dispatch_if_running store_round
round_of env op access db p =
    let (canary, status) =
      after_canary op.canary_pending (canary_done p.items) (pause_on_failure op p.new_failure) in
    store_round env op canary (
      dispatch_if_running env op access (room op canary) p.items
        (record { db = db; status = status; active = p.active; failed = p.failed }))

-- One round of an operation that has not ended: the operation after it, and the database.
unfoldable pub round : Env → FleetOperation → Db → Result (FleetOperation × Db)
unfolding round_of
round env op db =
    let expired = expire_commands env op db in
    round_of env op (fleet_principal db op.user_id) expired
      (poll_items env expired op (expire_pending env op))

commit_round : Db → Result (FleetOperation × Db) → Check × Db
commit_round db (ok (op, after)) = (ok tt, after)
commit_round db (err e) = (err e, db)

-- advanceFleetOperation
unfoldable pub advance_fleet_operation : Env → String → Db → Check × Db
unfolding commit_round
advance_fleet_operation env id db = elim (find_where (λ o. o.id == id) db.operations) [
  | none ↦ (err no_rows, db)
  | some op ↦ if is_active op.status then commit_round db (round env op db) else (ok tt, db)
]

-- AdvanceFleetOperations: the first error ends the loop; what was committed before stays.
unfoldable pub advance_all : Env → List String → Db → Check × Db
advance_all env [] db = (ok tt, db)
advance_all env (id ∷ ids) db =
    let (c, after) = advance_fleet_operation env id db in
    let rest = advance_all env ids after in elim c [ ok u ↦ rest | err e ↦ (err e, after) ]
