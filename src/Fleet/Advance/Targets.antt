-- ===== src/Fleet/Advance/Targets.antt =====
-- Whom a round of a fleet operation reaches, server/internal/store/fleet_operations.go.
use openwrt_rmm.Base.{
  ◌≡◌, refl, sym, ◌∙◌, Bool, true, false, List, [], ◌∷◌, arith, Related, Related-then, Related-map,
  Related-refl, none_left, both, Bool-cases, inl, inr, String, ◌≢◌, ◌⊎◌,
}
use openwrt_rmm.Schema.{
  Db, CommandStatus, FleetOperation, FleetOperationItem, Result, Result-cases, ok,
}
use openwrt_rmm.Env.{Env}
use openwrt_rmm.Access.{
  fleet_principal, permission_policy, permission_allowed, fleet_device_access, command_permission,
}
use openwrt_rmm.Access.Scope.{Granted, permission_allowed_iff}
use openwrt_rmm.Fleet.{is_working}
use openwrt_rmm.Fleet.Advance.Poll.{
  poll_item, poll_items, expire_commands, expire_pending, expire_item, is_over, follow,
}
use openwrt_rmm.Fleet.Advance.Dispatch.{target_check}
use openwrt_rmm.Fleet.Advance.Dispatch.Authority.{Fate}
use openwrt_rmm.Fleet.Advance.{round}
use openwrt_rmm.Fleet.Advance.Limits.{polled, made}

-- The steps before the dispatch change no device and put nothing in work.
record Followed (i j : FleetOperationItem) : Type 0 where
  same_device : j.device_id ≡ i.device_id
  still_idle : is_working i.status ≡ false → is_working j.status ≡ false

expire_item-Followed : (i : FleetOperationItem) → Followed i (expire_item i)
unfolding expire_item
expire_item-Followed i = ground arith

expire_pending-Followed :
    (env : Env) (op : FleetOperation) → Related Followed op.items (expire_pending env op)
unfolding expire_pending
expire_pending-Followed env op = elim (Bool-cases (is_over env op)) [
  | inl t ↦ rw t (Related-map expire_item expire_item-Followed op.items)
  | inr f ↦ rw f (Related-refl (λ i. record { same_device = refl; still_idle = λ h. h }) op.items)
]

follow-device :
    (s : CommandStatus) (i : FleetOperationItem) → (follow s i).0.device_id ≡ i.device_id
unfolding follow
follow-device s i = ground arith

poll_item-Followed :
    (env : Env) (db : Db) (op : FleetOperation) (i : FleetOperationItem)
    → Followed i (poll_item env db op i).0
unfolding poll_item
poll_item-Followed env db op i = elim (Bool-cases (is_working i.status)) [
  | inl t ↦ rw t (record { same_device = follow-device _ i; still_idle = λ h. cc })
  | inr f ↦ rw f (record { same_device = refl; still_idle = λ h. h })
]

poll_items-Followed :
    (env : Env) (db : Db) (op : FleetOperation) (is : List FleetOperationItem)
    → Related Followed is (poll_items env db op is).items
unfolding poll_items
poll_items-Followed env db op [] = none_left
poll_items-Followed env db op (i ∷ is) =
    both (poll_item-Followed env db op i) (poll_items-Followed env db op is)

target_check-device :
    (db : Db) (op : FleetOperation) (access : Result Bool) (i j : FleetOperationItem)
    → j.device_id ≡ i.device_id
    → target_check db op access j ≡ target_check db op access i
unfolding target_check
target_check-device db op access i j e = rw e

-- The operation's user may send its command to the device: he is an enabled administrator, or an
-- enabled user to whom the tables grant it.
abbrev pub MayReach : Db → FleetOperation → String → Type 0
MayReach db op device_id =
    (fleet_principal db op.user_id ≡ ok true)
    ⊎ ((fleet_principal db op.user_id ≡ ok false)
        × Granted db op.user_id device_id "view"
        × Granted db op.user_id device_id (command_permission op.kind))

target_check-MayReach :
    (db : Db) (op : FleetOperation) (i : FleetOperationItem)
    → i.device_id ≢ ""
    → target_check db op (fleet_principal db op.user_id) i ≡ ok tt
    → MayReach db op i.device_id
unfolding target_check fleet_device_access
target_check-MayReach db op i ne h = elim (Result-cases (fleet_principal db op.user_id)) [
  | inl (a, e) ↦ elim (Bool-cases a) [
    | inl t ↦ inl (ground arith)
    | inr f ↦ inr (
      ground arith,
      (permission_allowed_iff db op.user_id i.device_id "view" ne).0 (
          ground (arith, Result-cases (permission_allowed db op.user_id i.device_id "view" false))),
      (permission_allowed_iff db op.user_id i.device_id (command_permission op.kind) ne).0 (
          ground (arith, Result-cases (permission_allowed db op.user_id i.device_id "view" false))),
    )
  ]
  | inr (x, e) ↦ ground arith
]

-- What a round may do to an item: it keeps its device, and is put in work only if the
-- operation's user may reach the device.
pub record Reached (db : Db) (op : FleetOperation) (i j : FleetOperationItem) : Type 0 where
  pub same_device : j.device_id ≡ i.device_id
  pub authorized :
      i.device_id ≢ ""
      → is_working i.status ≡ false
      → is_working j.status ≡ true
      → MayReach db op i.device_id

expired_check :
    (env : Env) (db : Db) (op : FleetOperation) (access : Result Bool) (i : FleetOperationItem)
    → target_check (expire_commands env op db) op access i ≡ target_check db op access i
unfolding target_check expire_commands fleet_device_access permission_allowed permission_policy
expired_check env db op access i = refl

reached :
    (env : Env) (db : Db) (op : FleetOperation) (i j k : FleetOperationItem)
    → Followed i j
    → Fate (expire_commands env op db) op (fleet_principal db op.user_id) j k
    → Reached db op i k
reached env db op i j k f g = record {
  same_device = g.same_device ∙ f.same_device;
  authorized = λ ne idle works. target_check-MayReach db op i ne (
      sym (target_check-device db op (fleet_principal db op.user_id) i j f.same_device)
      ∙ sym (expired_check env db op (fleet_principal db op.user_id) j)
      ∙ g.authorized (f.still_idle idle) works);
}

module _ (env : Env) (op : FleetOperation) (db : Db) (op' : FleetOperation) (db' : Db)
    (advanced : round env op db ≡ ok (op', db')) where
  -- A round keeps the devices of the items, and puts an item with a device in work only if the
  -- operation's user is, as the round begins, an enabled administrator, or enabled and granted both
  -- the view of the device and the permission for the command there.
  pub round-Reached : Related (Reached db op) op.items op'.items
  unfolding polled
  round-Reached =
      Related-then (reached env db op)
        (Related-then {T = Followed}
          (λ i j k f g. record {
            same_device = g.same_device ∙ f.same_device;
            still_idle = λ h. g.still_idle (f.still_idle h);
          })
          (expire_pending-Followed env op)
          (poll_items-Followed env (expire_commands env op db) op (expire_pending env op)))
        (made env op db op' db' advanced).looped.fates
