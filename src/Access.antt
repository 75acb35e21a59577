-- ===== src/Access.antt =====
-- server/internal/store/permissions.go, and fleetPrincipal and fleetDeviceAccess of
-- server/internal/store/fleet_operations.go: who may do what to which device.
pub mod Scope
pub mod Policy
use openwrt_rmm.Base.{
  ℕ, String, Bool, true, false, not, ◌&&◌, ◌||◌, Option, none, some, List, [], ◌∷◌, ◌++◌, length,
  any, contains, find_where, update_where, delete_where, leb, ltb, eqb, if◌then◌else◌, ◌==◌,
  starts_with, trim_space, contains_text, all,
}
use openwrt_rmm.Schema.{
  Db, User, Device, PolicyRow, PermissionPolicy, Error, fleet_access, other, Result, Check, ok, err,
  ◌>>=◌, ◌>>◌, guard,
}

abbrev pub permissions : List String
permissions =
    "view" ∷ "diagnostics" ∷ "updates" ∷ "uci" ∷ "remote" ∷ "backups" ∷ "maintenance" ∷ "incidents"
    ∷ []

-- CommandPermission
unfoldable pub command_permission : String → String
command_permission kind =
    if starts_with kind "uci_"
    then "uci"
    else if starts_with kind "remote_"
    then "remote"
    else if starts_with kind "system_backup_"
    then "backups"
    else if (kind == "agent_update")
        || (kind == "agent_rollback")
        || starts_with kind "pkg_"
        || starts_with kind "opkg_"
    then (if contains_text kind "list" then "diagnostics" else "updates")
    else if contains
        ("ping" ∷ "traceroute" ∷ "route_show" ∷ "interfaces_show" ∷ "diagnostic_report" ∷ []) kind
    then "diagnostics"
    else "maintenance"

user_rights : Option User → Result Bool
user_rights none = err fleet_access
user_rights (some u) = if u.disabled then err fleet_access else ok (u.role == "admin")

-- fleetPrincipal: whether an enabled user is an administrator.
unfoldable pub fleet_principal : Db → String → Result Bool
unfolding user_rights
fleet_principal db user_id = user_rights (find_where (λ u. u.id == user_id) db.users)

abbrev pub default_policy : PermissionPolicy
default_policy = record { permissions = permissions; groups = []; sites = []; configured = false }

policy_or_default : Option PolicyRow → PermissionPolicy
policy_or_default none = default_policy
policy_or_default (some row) = record row.policy { configured = true }

-- permissionPolicy: an absent policy keeps every permission.
unfoldable pub permission_policy : Db → String → PermissionPolicy
unfolding policy_or_default
permission_policy db user_id =
    policy_or_default (find_where (λ r. r.user_id == user_id) db.policies)

abbrev pub is_empty : List String → Bool
is_empty [] = true
is_empty (x ∷ xs) = false

-- An empty list restricts nothing.
abbrev pub in_scope : List String → String → Bool
in_scope scope value = is_empty scope || contains scope value

device_in_scope : PermissionPolicy → String → Option Device → Check
device_in_scope p user_id none = err fleet_access
device_in_scope p user_id (some d) =
    guard
      ((d.owner_user_id == user_id) && in_scope p.groups d.group_name && in_scope p.sites d.site)
      fleet_access

-- permissionAllowed
unfoldable pub permission_allowed : Db → String → String → String → Bool → Check
unfolding device_in_scope permission_policy
permission_allowed db user_id device_id permission admin = if admin then ok tt else do
  let p = permission_policy db user_id
  guard (contains p.permissions "view" && contains p.permissions permission) fleet_access
  if device_id == ""
      then ok tt
      else device_in_scope p user_id (find_where (λ d. d.id == device_id) db.devices)

-- fleetDeviceAccess
unfoldable pub fleet_device_access : Db → String → String → Bool → Check
fleet_device_access db user_id device_id admin = do
  guard (any (λ d. (d.id == device_id) && ((d.owner_user_id == user_id) || admin)) db.devices)
      fleet_access
  permission_allowed db user_id device_id "view" admin

-- CheckPermission
unfoldable pub check_permission : Db → String → String → String → Check
unfolding fleet_principal permission_allowed
check_permission db user_id device_id permission = do
  admin ← fleet_principal db user_id
  permission_allowed db user_id device_id permission admin
