-- ===== src/Fleet/Updates.antt =====
-- The checks on an agent update, server/internal/store/fleet_updates.go.
use openwrt_rmm.Base.{
  String, Bool, ◌&&◌, Option, none, some, List, [], ◌∷◌, find_where, if◌then◌else◌, ◌==◌,
}
use openwrt_rmm.Schema.{
  Db, Device, Inventory, Json, fleet_feature_unavailable, no_rows, Result, ok, err,
}

-- A Go map gives "" for a key that is missing.
unfoldable pub string_at : String → List (String × String) → String
string_at k [] = ""
string_at k ((j, v) ∷ m) = let rest = string_at k m in if j == k then v else rest

unfoldable pub platform_matches : Inventory → List (String × String) → Bool
unfolding string_at
platform_matches inv expected =
    (inv.runtime == "go")
    && (inv.package_name == "rmm-agent-go-production")
    && (inv.release == string_at "expected_release" expected)
    && (inv.target == string_at "expected_target" expected)
    && (inv.manager == string_at "package_manager" expected)

update_state : Inventory → Option (List (String × String)) → Result Bool
unfolding platform_matches
update_state inv none = err fleet_feature_unavailable
update_state inv (some expected) =
    if inv.parses && platform_matches inv expected
    then ok (inv.version == string_at "target_version" expected)
    else err fleet_feature_unavailable

device_update_state : Option Device → Json → Result Bool
unfolding update_state
device_update_state none args = err no_rows
device_update_state (some d) args = update_state d.inventory args.strings

-- validateFleetUpdateDevice: whether the device runs the requested version already.
unfoldable pub validate_fleet_update_device : Db → String → Json → Result Bool
unfolding device_update_state
validate_fleet_update_device db device_id args =
    device_update_state (find_where (λ d. d.id == device_id) db.devices) args
