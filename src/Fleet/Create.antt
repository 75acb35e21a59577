-- ===== src/Fleet/Create.antt =====
-- CreateFleetOperation of server/internal/store/fleet_operations.go, with the helpers of
-- server/internal/store/fleet_updates.go.
pub mod Insert
use openwrt_rmm.Base.{
  ℕ, zero, suc, ◌+◌, ◌*◌, String, len, Bool, true, false, not, ◌&&◌, ◌||◌, Option, none, some, List,
  [], ◌∷◌, ◌++◌, map, length, any, all, contains, count_where, find_where, leb, ltb, eqb,
  if◌then◌else◌, ◌==◌, starts_with, sort, text_le, compact_texts, equal_texts, trim_space,
}
use openwrt_rmm.Schema.{
  Db, Device, Json, FleetOperation, FleetOperationItem, OperationStatus, ItemStatus, Error,
  fleet_access, fleet_conflict, fleet_feature_unavailable, no_rows, other, Result, Check, ok, err,
  ◌>>=◌, ◌>>◌, guard,
}
use openwrt_rmm.Env.{Env, random_id, hours}
use openwrt_rmm.Access.{
  command_permission, fleet_principal, fleet_device_access, permission_allowed,
}
use openwrt_rmm.Commands.{normalize_raw_json}
use openwrt_rmm.Fleet.{fleet_command_allowed, is_active}
use openwrt_rmm.Fleet.Updates.{string_at}

abbrev pub StringMap : Type 0
StringMap = List (String × String)

-- FleetOperationInput; `targets` is the field of the update arguments, `deadline_at` a text.
pub record FleetOperationInput : Type 0 where
  pub request_key : String
  pub title : String
  pub device_ids : List String
  pub kind : String
  pub args : Json
  pub targets : Option (List (String × StringMap))
  pub device_args : List (String × Json)
  pub parallelism : ℕ
  pub canary : Bool
  pub deadline_at : String
  pub stop_on_failure : Bool
  pub schedule_run_id : String

-- What net/url reads of an address.
pub record Url : Type 0 where
  pub scheme : String
  pub host : String
  pub has_user : Bool

-- The content that the request's hash is made of.
pub record Payload : Type 0 where
  pub title : String
  pub kind : String
  pub deadline : String
  pub parallelism : ℕ
  pub stop : Bool
  pub canary : Bool
  pub args : List (String × Json)

-- net/url, encoding/json, crypto/sha256 and the RFC 3339 texts of package time.
pub record CreateLib : Type 0 where
  pub parse_url : String → Option Url
  pub marshal_map : StringMap → Json
  pub digest : Payload → String
  pub parse_time : String → Option ℕ
  pub format_time : ℕ → String

-- fleetArgsLimit
unfoldable pub fleet_args_limit : String → ℕ
fleet_args_limit kind = if kind == "agent_update" then 262144 else 16384

unfoldable pub within_limits : FleetOperationInput → Bool
unfolding fleet_args_limit
within_limits input =
    leb 1 input.parallelism
    && leb input.parallelism 20
    && ltb 0 (length input.device_ids)
    && leb (length input.device_ids) 100
    && leb (len input.title) 160
    && leb 8 (len input.request_key)
    && leb (len input.request_key) 128
    && leb (len input.args.text) (fleet_args_limit input.kind)

unfoldable pub lookup {ℓ} : {A : Type ℓ} → String → List (String × A) → Option A
lookup k [] = none
lookup k ((j, v) ∷ m) = let rest = lookup k m in if j == k then some v else rest

module _ (lib : CreateLib) where
  signed_https : Option Url → Bool
  signed_https none = false
  signed_https (some u) = (u.scheme == "https") && not (u.host == "") && not u.has_user

  target_complete : StringMap → Bool
  unfolding string_at
  target_complete args =
      (string_at "package" args == "rmm-agent-go-production")
      && not (string_at "target_version" args == "")
      && not (string_at "package_version" args == "")
      && not (string_at "expected_release" args == "")
      && not (string_at "expected_target" args == "")
      && ((string_at "package_manager" args == "apk")
          || (string_at "package_manager" args == "opkg"))

  resolved_args : Option StringMap → Result Json
  unfolding target_complete signed_https string_at
  resolved_args none = err (other "invalid resolved update")
  resolved_args (some args) = do
    guard (target_complete args) (other "invalid resolved update")
    guard
        (all (λ key. signed_https (lib.parse_url (string_at key args)))
          ("feed_url" ∷ "manifest_url" ∷ "signature_url" ∷ []))
        (other "signed HTTPS update required")
    let json = lib.marshal_map args
    guard (leb (len json.text) 16384) (other "update arguments exceed limit")
    ok json

  resolve_all : List (String × StringMap) → List String → Result (List (String × Json))
  unfolding resolved_args lookup
  resolve_all targets [] = ok []
  resolve_all targets (id ∷ ids) = do
    json ← resolved_args (lookup id targets)
    rest ← resolve_all targets ids
    ok ((id, json) ∷ rest)

  -- fleetUpdateDeviceArgs: every target of an update is resolved, signed and reached by HTTPS.
  unfoldable pub fleet_update_device_args :
      Option (List (String × StringMap)) → List String → Result (List (String × Json))
  unfolding resolve_all
  fleet_update_device_args none ids = err (other "resolved update targets required")
  fleet_update_device_args (some targets) ids = do
    guard (eqb (length targets) (length ids)) (other "resolved update targets required")
    resolve_all targets ids

-- slices.Sort, then slices.Compact
unfoldable pub operation_targets : List String → List String
operation_targets ids = compact_texts (sort text_le ids)

unfoldable pub args_for : Json → List (String × Json) → String → Json
unfolding lookup
args_for args device_args id = elim (lookup id device_args) [ none ↦ args | some a ↦ a ]

features_needed : String → Bool
features_needed kind = (kind == "diagnostic_report") || starts_with kind "uci_profile_"

has_feature : String → Option Device → Check
has_feature kind none = err no_rows
has_feature kind (some d) =
    guard (d.inventory.parses && contains d.inventory.features kind) fleet_feature_unavailable

-- The checks on one target.
authorize_target : Db → String → Bool → String → String → Check
unfolding features_needed has_feature
authorize_target db user_id admin kind id = do
  u ← fleet_device_access db user_id id admin
  v ← permission_allowed db user_id id (command_permission kind) admin
  if features_needed kind then has_feature kind (find_where (λ d. d.id == id) db.devices) else ok tt

unfoldable pub authorize_targets : Db → String → Bool → String → List String → Check
unfolding authorize_target
authorize_targets db user_id admin kind [] = ok tt
authorize_targets db user_id admin kind (id ∷ ids) = do
  u ← authorize_target db user_id admin kind id
  authorize_targets db user_id admin kind ids

-- A scheduled operation needs its reservation to be pending.
schedule_valid : Db → String → String → Bool
schedule_valid db run_id user_id =
    any
      (λ r.
        (r.id == run_id)
        && r.is_pending
        && any (λ s. (s.id == r.schedule_id) && s.enabled && (s.user_id == user_id)) db.schedules)
      db.schedule_runs

unfoldable pub authorize_create : Db → String → FleetOperationInput → List String → Check
unfolding schedule_valid
authorize_create db user_id input ids = do
  guard ((input.schedule_run_id == "") || schedule_valid db input.schedule_run_id user_id)
      fleet_access
  admin ← fleet_principal db user_id
  authorize_targets db user_id admin input.kind ids

-- The request after the checks that need no database.
pub record Prepared : Type 0 where
  pub ids : List String
  pub args : Json
  pub device_args : List (String × Json)
  pub request_hash : String
