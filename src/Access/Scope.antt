-- ===== src/Access/Scope.antt =====
-- What a permission amounts to, server/internal/store/permissions.go.
use openwrt_rmm.Base.{
  String, ◌≡◌, refl, ◌≢◌, ◌↔◌, ◌⊎◌, inl, inr, true, false, Option, none, some, arith, contains,
  find_where, ◌==◌, eq_iff, Bool-cases,
}
use openwrt_rmm.Schema.{Db, Device, ok, Result-cases}
use openwrt_rmm.Access.{
  fleet_principal, permission_policy, permission_allowed, fleet_device_access, device_in_scope,
  in_scope, check_permission,
}

-- What permissionAllowed grants to a user who is no administrator, said of the tables.
pub record Granted (db : Db) (user_id device_id permission : String) : Type 0 where
  pub device : Device
  pub found : find_where (λ d. d.id == device_id) db.devices ≡ some device
  pub owned : device.owner_user_id ≡ user_id
  pub may_view : contains (permission_policy db user_id).permissions "view" ≡ true
  pub may : contains (permission_policy db user_id).permissions permission ≡ true
  pub group_ok : in_scope (permission_policy db user_id).groups device.group_name ≡ true
  pub site_ok : in_scope (permission_policy db user_id).sites device.site ≡ true

device_in_scope-Granted :
    (db : Db) (u d p : String) (o : Option Device)
    → find_where (λ x. x.id == d) db.devices ≡ o
    → contains (permission_policy db u).permissions "view" ≡ true
    → contains (permission_policy db u).permissions p ≡ true
    → device_in_scope (permission_policy db u) u o ≡ ok tt
    → Granted db u d p
unfolding device_in_scope
device_in_scope-Granted db u d p none e v m h = cc
device_in_scope-Granted db u d p (some x) e v m h = record {
  device = x;
  found = e;
  owned = ground (arith, eq_iff x.owner_user_id u);
  may_view = v;
  may = m;
  group_ok = ground arith;
  site_ok = ground arith;
}

pub permission_allowed_iff :
    (db : Db) (u d p : String)
    → d ≢ ""
    → (permission_allowed db u d p false ≡ ok tt) ↔ Granted db u d p
unfolding permission_allowed device_in_scope
permission_allowed_iff db u d p ne = (there, back)
  where
    there : permission_allowed db u d p false ≡ ok tt → Granted db u d p
    there h =
        device_in_scope-Granted db u d p (find_where (λ x. x.id == d) db.devices) refl
          (ground arith) (ground arith) (ground (arith, eq_iff d ""))

    back : Granted db u d p → permission_allowed db u d p false ≡ ok tt
    back g =
        rw (g.may_view, g.may, g.found)
          (ground
            (arith, eq_iff d "", eq_iff g.device.owner_user_id u, g.owned, g.group_ok, g.site_ok))

-- On a named device, CheckPermission lets an enabled administrator pass, and any other enabled user
-- exactly when the tables grant the permission, and no one else.
pub check_permission_iff :
    (db : Db) (u d p : String)
    → d ≢ ""
    → (check_permission db u d p ≡ ok tt)
      ↔ ((fleet_principal db u ≡ ok true) ⊎ ((fleet_principal db u ≡ ok false) × Granted db u d p))
unfolding check_permission permission_allowed
check_permission_iff db u d p ne = (there, back)
  where
    there :
        check_permission db u d p ≡ ok tt
        → (fleet_principal db u ≡ ok true) ⊎ ((fleet_principal db u ≡ ok false) × Granted db u d p)
    there h = elim (Result-cases (fleet_principal db u)) [
      | inl (a, e) ↦ elim (Bool-cases a) [
        | inl t ↦ inl (ground arith)
        | inr f ↦ inr (ground arith, (permission_allowed_iff db u d p ne).0 (ground arith))
      ]
      | inr (x, e) ↦ ground arith
    ]

    back :
        (fleet_principal db u ≡ ok true) ⊎ ((fleet_principal db u ≡ ok false) × Granted db u d p)
        → check_permission db u d p ≡ ok tt
    back (inl e) = rw e
    back (inr (e, g)) = rw e ((permission_allowed_iff db u d p ne).1 g)

-- An owner's access to a device is no more than what the tables grant.
pub fleet_device_access-Granted :
    (db : Db) (u d : String)
    → d ≢ ""
    → fleet_device_access db u d false ≡ ok tt
    → Granted db u d "view"
unfolding fleet_device_access
fleet_device_access-Granted db u d ne h = (permission_allowed_iff db u d "view" ne).0 (ground arith)
