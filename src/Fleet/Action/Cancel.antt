-- ===== src/Fleet/Action/Cancel.antt =====
-- What cancelling and resuming a fleet operation do, server/internal/store/fleet_operations.go.
use openwrt_rmm.Base.{
  String, ◌≡◌, refl, ◌⊎◌, inl, inr, Bool, true, false, ◌&&◌, some, arith, All, find_where,
  All-update_where-full, if◌then◌else◌, ◌==◌, eq_iff, Bool-cases, Option-cases,
}
use openwrt_rmm.Schema.{
  Db, Command, FleetOperation, FleetOperationItem, OperationStatus, Error, Result-cases, ok, err,
}
use openwrt_rmm.Env.{Env}
use openwrt_rmm.Access.{command_permission, fleet_principal, permission_allowed}
use openwrt_rmm.Fleet.{is_active, is_pending}
use openwrt_rmm.Fleet.Action.{
  set_fleet_operation_action, cancel_operation, cancelling_row, cancelled_item, waits_for, withdraw,
  act, perform, authorize_action, may_act,
}

-- An operation whose items are all decided or at work.
abbrev pub Withdrawn : FleetOperation → FleetOperation → Type 0
Withdrawn op o =
    (o.id ≡ op.id)
    → (o.status ≡ OperationStatus.cancelling) × All (λ i. is_pending i.status ≡ false) o.items

item_decided :
    (i : FleetOperationItem)
    → (let r = if is_pending i.status then cancelled_item i else i in is_pending r.status) ≡ false
item_decided i = ground arith

command_withdrawn :
    (env : Env) (op : FleetOperation) (c : Command)
    → waits_for op (if waits_for op c then withdraw env c else c) ≡ false
command_withdrawn env op c = elim (Bool-cases (waits_for op c)) [
  | inl t ↦ rw t refl
  | inr f ↦ rw f f
]

cancelling_row-Withdrawn :
    (env : Env) (op o : FleetOperation)
    → Withdrawn op (if o.id == op.id then cancelling_row env o else o)
unfolding cancelling_row
cancelling_row-Withdrawn env op o = elim (Bool-cases (o.id == op.id)) [
  | inl t ↦ rw t (λ e. (
    refl,
    All-update_where-full (λ i. is_pending i.status ≡ false) (λ i. is_pending i.status)
        cancelled_item o.items item_decided,
  ))
  | inr f ↦ rw f (λ e. ground (arith, eq_iff o.id op.id))
]

module _ (env : Env) (user_id id : String) (db : Db) where
  -- When an owner's request to cancel his active operation succeeds, the operation is cancelling
  -- and none of its items is pending any more, and none of its commands is queued any more.
  pub cancel-withdraws :
      (op : FleetOperation)
      → find_where (λ o. (o.id == id) && (o.user_id == user_id)) db.operations ≡ some op
      → is_active op.status ≡ true
      → (set_fleet_operation_action env user_id id "cancel" db).0 ≡ ok tt
      → All (Withdrawn op) (set_fleet_operation_action env user_id id "cancel" db).1.operations
        × All
            (λ c. waits_for op c ≡ false)
            (set_fleet_operation_action env user_id id "cancel" db).1.commands
  unfolding set_fleet_operation_action perform act authorize_action may_act cancel_operation
  cancel-withdraws op f a h = elim (Result-cases (fleet_principal db user_id)) [
    | inl (admin, p) ↦
        rw (p, f, a)
          (
            All-update_where-full (Withdrawn op) (λ o. o.id == op.id) (cancelling_row env)
                db.operations (cancelling_row-Withdrawn env op),
            All-update_where-full (λ c. waits_for op c ≡ false) (waits_for op) (withdraw env)
                db.commands (command_withdrawn env op),
          )
    | inr (x, p) ↦ ground arith
  ]

  -- An action takes effect only for an enabled user on an operation of his own: it is a
  -- cancellation, or a resumption of a paused operation by a user who may still send its command;
  -- an action that is refused changes nothing.
  pub action_authorized :
      (action : String)
      → ((set_fleet_operation_action env user_id id action db).0 ≡ ok tt
          → (admin : Bool) × (op : FleetOperation) × (fleet_principal db user_id ≡ ok admin)
            × (find_where (λ o. (o.id == id) && (o.user_id == user_id)) db.operations ≡ some op)
            × ((action ≡ "cancel")
                ⊎ ((action ≡ "resume")
                    × (op.status ≡ OperationStatus.paused)
                    × (permission_allowed db user_id "" (command_permission op.kind) admin
                        ≡ ok tt))))
        × ((e : Error)
            → (set_fleet_operation_action env user_id id action db).0 ≡ err e
            → (set_fleet_operation_action env user_id id action db).1 ≡ db)
  unfolding set_fleet_operation_action perform act authorize_action may_act
  action_authorized action = (there, back)
    where
      there :
          (set_fleet_operation_action env user_id id action db).0 ≡ ok tt
          → (admin : Bool) × (op : FleetOperation) × (fleet_principal db user_id ≡ ok admin)
            × (find_where (λ o. (o.id == id) && (o.user_id == user_id)) db.operations ≡ some op)
            × ((action ≡ "cancel")
                ⊎ ((action ≡ "resume")
                    × (op.status ≡ OperationStatus.paused)
                    × (permission_allowed db user_id "" (command_permission op.kind) admin
                        ≡ ok tt)))
      there h = elim (Result-cases (fleet_principal db user_id)) [
        | inl (admin, p) ↦
            elim (Option-cases
              (find_where (λ o. (o.id == id) && (o.user_id == user_id)) db.operations)) [
                | inl n ↦ ground arith
                | inr (op, f) ↦ (
                  admin,
                  op,
                  p,
                  f,
                  ground (
                    arith,
                    eq_iff action "cancel",
                    eq_iff action "resume",
                    Result-cases
                        (permission_allowed db user_id "" (command_permission op.kind) admin),
                  ),
                )
              ]
        | inr (x, p) ↦ ground arith
      ]

      back :
          (e : Error)
          → (set_fleet_operation_action env user_id id action db).0 ≡ err e
          → (set_fleet_operation_action env user_id id action db).1 ≡ db
      back e h = elim (Result-cases (authorize_action db user_id id action)) [
        | inl (op, p) ↦ ground (arith, eq_iff action "cancel", eq_iff action "resume")
        | inr (x, p) ↦ ground arith
      ]
