-- ===== src/Fleet/Create/Insert.antt =====
-- CreateFleetOperation of server/internal/store/fleet_operations.go: the request as a whole.
pub mod Retry
use openwrt_rmm.Base.{
  ℕ, zero, suc, ◌+◌, String, len, Bool, true, false, not, ◌&&◌, ◌||◌, Option, none, some, List, [],
  ◌∷◌, ◌++◌, map, all, count_where, find_where, leb, ltb, eqb, same_bool, if◌then◌else◌, ◌==◌,
  equal_texts,
}
use openwrt_rmm.Schema.{
  Db, Json, FleetOperation, FleetOperationItem, OperationStatus, ItemStatus, Error, fleet_access,
  fleet_conflict, other, Result, Check, ok, err, ◌>>=◌, ◌>>◌, guard,
}
use openwrt_rmm.Env.{Env, random_id, hours}
use openwrt_rmm.Commands.{normalize_raw_json}
use openwrt_rmm.Fleet.{fleet_command_allowed, is_active}
use openwrt_rmm.Fleet.Create.{
  FleetOperationInput, CreateLib, Payload, Prepared, within_limits, operation_targets,
  fleet_update_device_args, args_for, authorize_create,
}

-- WHERE user_id=? AND request_key=?
abbrev pub key_row : String → FleetOperationInput → FleetOperation → Bool
key_row user_id input o = (o.user_id == user_id) && (o.request_key == input.request_key)

module _ (lib : CreateLib) where
  device_args_of : FleetOperationInput → List String → Result (List (String × Json))
  device_args_of input ids =
      if input.kind == "agent_update"
      then fleet_update_device_args lib input.targets ids
      else ok input.device_args

  -- The checks and the hash before the database is opened.
  unfoldable pub prepare : FleetOperationInput → Result Prepared
  unfolding device_args_of
  prepare input = do
    guard (fleet_command_allowed input.kind) (other "command is not available for fleet operations")
    guard (within_limits input) (other "invalid operation limits")
    let ids = operation_targets input.device_ids
    let args = normalize_raw_json input.args
    guard args.is_valid (other "invalid operation arguments")
    device_args ← device_args_of input ids
    ok (record {
      ids = ids;
      args = args;
      device_args = device_args;
      request_hash = lib.digest (record {
        title = input.title;
        kind = input.kind;
        deadline = input.deadline_at;
        parallelism = input.parallelism;
        stop = input.stop_on_failure;
        canary = input.canary;
        args = map (λ id. (id, args_for args device_args id)) ids;
      });
    })

  -- The stored operation answers the same request.
  unfoldable pub same_request : FleetOperationInput → Prepared → FleetOperation → Bool
  same_request input p op =
      (op.request_hash == p.request_hash)
      && ((input.deadline_at == "") || (lib.format_time op.deadline_at == input.deadline_at))
      && (op.title == input.title)
      && (op.kind == input.kind)
      && (op.args.text == p.args.text)
      && eqb op.parallelism input.parallelism
      && same_bool op.stop_on_failure input.stop_on_failure
      && equal_texts p.ids (map (λ i. i.device_id) op.items)

  -- The deadline of the request, at most a day ahead.
  deadline_of : Env → FleetOperationInput → Result ℕ
  deadline_of env input =
      if input.deadline_at == ""
      then ok (env.now + hours 24)
      else elim (lib.parse_time input.deadline_at) [
        | none ↦ err (other "invalid operation deadline")
        | some t ↦
            if ltb env.now t && leb t (env.now + hours 24)
            then ok t
            else err (other "invalid operation deadline")
      ]

  item_valid : Json → Bool
  item_valid a = a.is_valid && leb (len a.text) 16384

  new_item : Prepared → String → FleetOperationItem
  new_item p id = record {
    device_id = id;
    command_id = "";
    status = ItemStatus.pending;
    error = "";
    args = args_for p.args p.device_args id;
  }

  unfoldable pub new_operation :
      Env → Db → String → FleetOperationInput → Prepared → ℕ → FleetOperation
  unfolding new_item random_id
  new_operation env db user_id input p deadline = record {
    id = random_id env db "operation";
    user_id = user_id;
    request_key = input.request_key;
    request_hash = p.request_hash;
    title = input.title;
    kind = input.kind;
    args = p.args;
    parallelism = input.parallelism;
    canary_pending = input.canary;
    deadline_at = deadline;
    stop_on_failure = input.stop_on_failure;
    status = OperationStatus.running;
    created_at = env.now;
    updated_at = env.now;
    items = map (new_item p) p.ids;
  }

  -- A request that is not stored yet.
  unfoldable pub make_operation :
      Env → Db → String → FleetOperationInput → Prepared → Result FleetOperation
  unfolding deadline_of item_valid
  make_operation env db user_id input p = do
    guard (ltb (count_where (λ o. (o.user_id == user_id) && is_active o.status) db.operations) 20)
        (other "too many active fleet operations")
    deadline ← deadline_of env input
    guard (all (λ id. item_valid (args_for p.args p.device_args id)) p.ids)
        (other "invalid device arguments")
    ok (new_operation env db user_id input p deadline)

  insert_made : Result FleetOperation → Db → Result FleetOperation × Db
  insert_made (ok op) db =
      (ok op, record db { operations = db.operations ++ op ∷ []; draws = db.draws + 1 })
  insert_made (err e) db = (err e, db)

  store_or_reuse :
      Env
      → String
      → FleetOperationInput
      → Prepared
      → Option FleetOperation
      → Db
      → Result FleetOperation × Db
  unfolding insert_made
  store_or_reuse env user_id input p (some op) db =
      (if same_request input p op then ok op else err fleet_conflict, db)
  store_or_reuse env user_id input p none db =
      insert_made (make_operation env db user_id input p) db

  create_prepared :
      Env → String → FleetOperationInput → Result Prepared → Db → Result FleetOperation × Db
  unfolding store_or_reuse
  create_prepared env user_id input (err e) db = (err e, db)
  create_prepared env user_id input (ok p) db = elim (authorize_create db user_id input p.ids) [
    | err e ↦ (err e, db)
    | ok u ↦
        store_or_reuse env user_id input p (find_where (key_row user_id input) db.operations) db
  ]

  -- CreateFleetOperation: the operation that the request stands for, made now or before.
  unfoldable pub create_fleet_operation :
      Env → String → FleetOperationInput → Db → Result FleetOperation × Db
  unfolding create_prepared
  create_fleet_operation env user_id input db = create_prepared env user_id input (prepare input) db
