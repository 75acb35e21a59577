-- ===== src/Examples/Operations.antt =====
-- Fleet operations at concrete inputs.
use openwrt_rmm.Base.{
  Related, ◌||◌, find_where, ◌+◌, ◌≤◌, eq_iff, String, ◌≡◌, refl, ◌≢◌, ◌⊎◌, Bool, true, false, none,
  some, [], ◌∷◌, arith, All, Related, ◌==◌, ◌&&◌, if◌then◌else◌, trim_space, is_space, sort,
  compact_texts, equal_texts,
}
use openwrt_rmm.Schema.{
  Db, FleetOperation, ItemStatus, OperationStatus, empty_object, Error, fleet_conflict, Result, ok,
  err,
}
use openwrt_rmm.Env.{random_id}
use openwrt_rmm.Signing.{sign, canonical}
use openwrt_rmm.Access.{
  fleet_principal, permission_allowed, command_permission, fleet_device_access, permission_policy,
}
use openwrt_rmm.Commands.{new_command, normalize_raw_json}
use openwrt_rmm.Fleet.{fleet_command_allowed}
use openwrt_rmm.Fleet.Advance.{round, final_status, room}
use openwrt_rmm.Fleet.Advance.Poll.{poll_items, poll_item, expire_commands, expire_pending}
use openwrt_rmm.Fleet.Advance.Dispatch.{
  dispatch, dispatch_item, decide_item, target_check, send_command,
}
use openwrt_rmm.Fleet.Advance.Dispatch.Counters.{working}
use openwrt_rmm.Fleet.Advance.Poll.Unsent.{Unsent, Unchanged}
use openwrt_rmm.Fleet.Advance.Limits.{round-working, round-idle, round-completed}
use openwrt_rmm.Fleet.Advance.Targets.{Reached, round-Reached}
use openwrt_rmm.Fleet.Create.{
  FleetOperationInput, CreateLib, within_limits, operation_targets, authorize_create,
  authorize_targets, args_for,
}
use openwrt_rmm.Fleet.Create.Insert.{
  create_fleet_operation, prepare, make_operation, new_operation, same_request,
}
use openwrt_rmm.Fleet.Create.Insert.Retry.{create_twice, create_conflicts}
use openwrt_rmm.Fleet.Action.{set_fleet_operation_action, waits_for}
use openwrt_rmm.Fleet.Action.Cancel.{Withdrawn, cancel-withdraws, action_authorized}
use openwrt_rmm.Examples.Data.{here, env_at, fleet, noon, operation, item}

abbrev value : FleetOperation → Result (FleetOperation × Db) → FleetOperation × Db
value op (ok p) = p
value op (err e) = (op, fleet)

abbrev sent_round : FleetOperation × Db
sent_round = value operation (round here operation fleet)

sends : round here operation fleet ≡ ok (sent_round.0, sent_round.1)
unfolding round final_status poll_items poll_item expire_commands expire_pending dispatch
    dispatch_item decide_item target_check send_command fleet_principal permission_allowed
    fleet_device_access permission_policy command_permission new_command normalize_raw_json sign
    canonical trim_space is_space random_id
sends = refl

sends_one : working sent_round.0.items ≡ 1
unfolding round final_status poll_items poll_item expire_commands expire_pending dispatch
    dispatch_item decide_item target_check send_command fleet_principal permission_allowed
    fleet_device_access permission_policy command_permission new_command normalize_raw_json sign
    canonical trim_space is_space random_id
sends_one = refl

round-working_example :
    (working sent_round.0.items ≤ working operation.items)
    ⊎ (working sent_round.0.items ≤ room operation sent_round.0.canary_pending)
round-working_example = round-working here operation fleet sent_round.0 sent_round.1 sends

round-Reached_example : Related (Reached fleet operation) operation.items sent_round.0.items
round-Reached_example = round-Reached here operation fleet sent_round.0 sent_round.1 sends

-- A paused operation sends nothing.
abbrev paused : FleetOperation
paused = record operation { status = OperationStatus.paused }

abbrev paused_round : FleetOperation × Db
paused_round = value paused (round here paused fleet)

stays : round here paused fleet ≡ ok (paused_round.0, paused_round.1)
unfolding round final_status poll_items poll_item expire_commands expire_pending dispatch
    fleet_principal
stays = refl

round-idle_example :
    Related Unsent paused.items paused_round.0.items
    × Related Unchanged fleet.commands paused_round.1.commands
round-idle_example = round-idle here paused fleet paused_round.0 paused_round.1 stays refl

-- The last round of an operation whose only item is done.
abbrev done : FleetOperation
done = record operation {
  items = (record item { command_id = "c1"; status = ItemStatus.completed }) ∷ [];
}

abbrev done_round : FleetOperation × Db
done_round = value done (round here done fleet)

ends : round here done fleet ≡ ok (done_round.0, done_round.1)
unfolding round final_status poll_items poll_item expire_commands expire_pending dispatch
    dispatch_item decide_item fleet_principal
ends = refl

ended : done_round.0.status ≡ OperationStatus.completed
unfolding round final_status poll_items poll_item expire_commands expire_pending dispatch
    dispatch_item decide_item fleet_principal
ended = refl

round-completed_example :
    All
      (λ i. (i.status ≡ ItemStatus.completed) ⊎ (i.status ≡ ItemStatus.cancelled))
      done_round.0.items
round-completed_example = round-completed here done fleet done_round.0 done_round.1 ends refl ended

cancels : (set_fleet_operation_action here "u2" "o1" "cancel" fleet).0 ≡ ok tt
unfolding set_fleet_operation_action fleet_principal
cancels = refl

cancel-withdraws_example :
    All
      (Withdrawn operation)
      (set_fleet_operation_action here "u2" "o1" "cancel" fleet).1.operations
    × All
        (λ c. waits_for operation c ≡ false)
        (set_fleet_operation_action here "u2" "o1" "cancel" fleet).1.commands
cancel-withdraws_example = cancel-withdraws here "u2" "o1" fleet operation refl refl cancels

action_authorized_example :
    ((set_fleet_operation_action here "u1" "o1" "resume" fleet).0 ≡ ok tt
      → (admin : Bool) × (op : FleetOperation) × (fleet_principal fleet "u1" ≡ ok admin)
        × (find_where (λ o. (o.id == "o1") && (o.user_id == "u1")) fleet.operations ≡ some op)
        × ((◌≡◌ {A = String} "resume" "cancel")
            ⊎ ((◌≡◌ {A = String} "resume" "resume")
                × (op.status ≡ OperationStatus.paused)
                × (permission_allowed fleet "u1" "" (command_permission op.kind) admin ≡ ok tt))))
    × ((e : Error)
        → (set_fleet_operation_action here "u1" "o1" "resume" fleet).0 ≡ err e
        → (set_fleet_operation_action here "u1" "o1" "resume" fleet).1 ≡ fleet)
action_authorized_example = action_authorized here "u1" "o1" fleet "resume"

-- Times are written as their names; the store writes a deadline with the offset Z.
abbrev lib : CreateLib
lib = record {
  parse_url = λ s. none;
  marshal_map = λ m. empty_object;
  digest = λ p. p.title;
  parse_time =
      λ s. if (s == "13:00Z") || (s == "16:00+03:00") then some (noon + 3600000000000) else none;
  format_time = λ t. "13:00Z";
}

abbrev request : String → FleetOperationInput
request deadline_at = record {
  request_key = "request-2";
  title = "all";
  device_ids = "d1" ∷ "d1" ∷ [];
  kind = "ping";
  args = empty_object;
  targets = none;
  device_args = [];
  parallelism = 1;
  canary = false;
  deadline_at = deadline_at;
  stop_on_failure = true;
  schedule_run_id = "";
}

abbrev made_of : String → FleetOperation × Db
made_of deadline_at =
    let r = create_fleet_operation lib here "u2" (request deadline_at) fleet in
    elim r.0 [ ok op ↦ (op, r.1) | err e ↦ (operation, r.1) ]

makes_utc :
    create_fleet_operation lib here "u2" (request "13:00Z") fleet
    ≡ (ok (made_of "13:00Z").0, (made_of "13:00Z").1)
unfolding create_fleet_operation prepare make_operation new_operation same_request within_limits
    operation_targets authorize_create authorize_targets args_for fleet_principal permission_allowed
    fleet_device_access permission_policy command_permission normalize_raw_json
    fleet_command_allowed trim_space is_space random_id sort compact_texts equal_texts
makes_utc = refl

makes_local :
    create_fleet_operation lib here "u2" (request "16:00+03:00") fleet
    ≡ (ok (made_of "16:00+03:00").0, (made_of "16:00+03:00").1)
unfolding create_fleet_operation prepare make_operation new_operation same_request within_limits
    operation_targets authorize_create authorize_targets args_for fleet_principal permission_allowed
    fleet_device_access permission_policy command_permission normalize_raw_json
    fleet_command_allowed trim_space is_space random_id sort compact_texts equal_texts
makes_local = refl

local_given : ◌≢◌ {A = String} "16:00+03:00" ""
local_given h = ground (arith, eq_iff "16:00+03:00" "")

local_differs : ◌≢◌ {A = String} "13:00Z" "16:00+03:00"
local_differs h = ground (arith, eq_iff "13:00Z" "16:00+03:00")

create_twice_example :
    create_fleet_operation lib (env_at (noon + 5)) "u2" (request "13:00Z") (made_of "13:00Z").1
    ≡ (ok (made_of "13:00Z").0, (made_of "13:00Z").1)
create_twice_example =
    create_twice lib here (env_at (noon + 5)) "u2" (request "13:00Z") (made_of "13:00Z").0 fleet
      (made_of "13:00Z").1 (λ t h. refl) makes_utc

create_conflicts_example :
    create_fleet_operation lib
      (env_at (noon + 5))
      "u2"
      (request "16:00+03:00")
      (made_of "16:00+03:00").1
    ≡ (err fleet_conflict, (made_of "16:00+03:00").1)
create_conflicts_example =
    create_conflicts lib here (env_at (noon + 5)) "u2" (request "16:00+03:00")
      (made_of "16:00+03:00").0 fleet (made_of "16:00+03:00").1 refl (λ t h. local_differs)
      local_given makes_local
