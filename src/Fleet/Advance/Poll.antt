-- ===== src/Fleet/Advance/Poll.antt =====
-- The first half of advanceFleetOperation, server/internal/store/fleet_operations.go: overdue
-- commands expire, the deadline fails what is pending, and the items follow their commands.
pub mod Overdue
pub mod Unsent
use openwrt_rmm.Base.{
  ℕ, suc, ◌+◌, Bool, true, false, not, ◌&&◌, ◌||◌, Option, none, some, List, [], ◌∷◌, any, map,
  find_where, update_where, leb, ltb, if◌then◌else◌, ◌==◌,
}
use openwrt_rmm.Schema.{
  ℤ, is_zero, Db, Command, CommandStatus, FleetOperation, FleetOperationItem, ItemStatus,
}
use openwrt_rmm.Env.{Env, minutes}
use openwrt_rmm.Commands.{in_flight, past, expire}
use openwrt_rmm.Fleet.{is_cancelling, is_pending, is_working, is_failed}

unfoldable pub expire_commands : Env → FleetOperation → Db → Db
expire_commands env op db = record db {
  commands =
      update_where
        (λ c.
          in_flight c.status
          && past c.expires_at env.now
          && any (λ i. i.command_id == c.id) op.items)
        (expire env.now) db.commands;
}

-- `!deadline.After(time.Now())`
abbrev pub is_over : Env → FleetOperation → Bool
is_over env op = leb op.deadline_at env.now

unfoldable pub expire_item : FleetOperationItem → FleetOperationItem
expire_item i =
    if is_pending i.status
    then record i { status = ItemStatus.failed; error = "maintenance window expired" }
    else i

unfoldable pub expire_pending : Env → FleetOperation → List FleetOperationItem
unfolding expire_item
expire_pending env op = if is_over env op then map expire_item op.items else op.items

-- The status of a command, as the operation reads it: a command that is gone has failed, and so
-- has one that ended without the exit code 0, or that was cancelled by someone else.
abbrev exit_failed : Option ℤ → Bool
exit_failed none = true
exit_failed (some e) = not (is_zero e)

after_exit : Option ℤ → Bool → CommandStatus → CommandStatus
after_exit exit cancelling CommandStatus.completed =
    if exit_failed exit then CommandStatus.failed else CommandStatus.completed
after_exit exit cancelling CommandStatus.cancelled =
    if cancelling then CommandStatus.cancelled else CommandStatus.failed
after_exit exit cancelling s = s

late : Env → Option ℕ → Bool
late env none = false
late env (some t) = ltb (t + minutes 5) env.now

-- An update has ended when the agent is healthy; it may take five minutes, up to the deadline.
after_health : Env → FleetOperation → Command → CommandStatus → CommandStatus
unfolding late
after_health env op c CommandStatus.completed =
    if (op.kind == "agent_update") && not (c.result.health_status == "healthy")
    then (if is_over env op || late env c.completed_at
        then CommandStatus.failed
        else CommandStatus.claimed)
    else CommandStatus.completed
after_health env op c s = s

unfoldable pub read_status : Env → FleetOperation → Option Command → CommandStatus
unfolding after_exit after_health
read_status env op none = CommandStatus.failed
read_status env op (some c) =
    after_health env op c (after_exit c.exit_code (is_cancelling op.status) c.status)

-- What an item becomes, and whether that is a new failure.
unfoldable pub follow : CommandStatus → FleetOperationItem → FleetOperationItem × Bool
follow CommandStatus.queued i = (record i { status = ItemStatus.queued }, false)
follow CommandStatus.claimed i = (record i { status = ItemStatus.claimed }, false)
follow CommandStatus.completed i = (record i { status = ItemStatus.completed }, false)
follow CommandStatus.cancelled i = (record i { status = ItemStatus.cancelled }, false)
follow _ i = (
  record i { status = ItemStatus.failed; error = "command failed, expired or was removed" },
  true,
)

unfoldable pub poll_item :
    Env → Db → FleetOperation → FleetOperationItem → FleetOperationItem × Bool
poll_item env db op i =
    if is_working i.status
    then follow (read_status env op (find_where (λ c. c.id == i.command_id) db.commands)) i
    else (i, false)

-- The loop over the items with its counters.
pub record Polled : Type 0 where
  pub items : List FleetOperationItem
  pub active : ℕ
  pub failed : ℕ
  pub new_failure : Bool

abbrev pub one_if : Bool → ℕ → ℕ
one_if true n = suc n
one_if false n = n

unfoldable pub poll_items : Env → Db → FleetOperation → List FleetOperationItem → Polled
poll_items env db op [] = record { items = []; active = 0; failed = 0; new_failure = false }
poll_items env db op (i ∷ is) =
    let rest = poll_items env db op is in
    let (i', new) = poll_item env db op i in
    record {
      items = i' ∷ rest.items;
      active = one_if (is_working i'.status) rest.active;
      failed = one_if (is_failed i'.status) rest.failed;
      new_failure = new || rest.new_failure;
    }
