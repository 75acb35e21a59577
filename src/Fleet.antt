-- ===== src/Fleet.antt =====
-- The fleet operations of server/internal/store/fleet_operations.go: one command for many devices,
-- with limits, a canary and a deadline.
pub mod Updates
pub mod Advance
pub mod Create
pub mod Action
use openwrt_rmm.Base.{
  String, Bool, true, false, contains, trim_space, List, [], ◌∷◌, ◌&&◌, ◌||◌, ◌==◌,
}
use openwrt_rmm.Schema.{OperationStatus, ItemStatus, FleetOperationItem}

-- FleetCommandAllowed
unfoldable pub fleet_command_allowed : String → Bool
fleet_command_allowed kind =
    contains
      ("ping" ∷ "traceroute" ∷ "route_show" ∷ "interfaces_show" ∷ "pkg_list_installed"
        ∷ "system_backup_create" ∷ "diagnostic_report" ∷ "uci_profile_preview" ∷ "uci_profile_apply"
        ∷ "uci_profile_rollback" ∷ "agent_update" ∷ [])
      (trim_space kind)

abbrev pub is_running : OperationStatus → Bool
is_running OperationStatus.running = true
is_running _ = false

-- status IN ('running','paused','cancelling')
abbrev pub is_active : OperationStatus → Bool
is_active OperationStatus.running = true
is_active OperationStatus.paused = true
is_active OperationStatus.cancelling = true
is_active _ = false

abbrev pub is_cancelling : OperationStatus → Bool
is_cancelling OperationStatus.cancelling = true
is_cancelling _ = false

abbrev pub is_pending : ItemStatus → Bool
is_pending ItemStatus.pending = true
is_pending _ = false

-- status == "queued" || status == "claimed"
abbrev pub is_working : ItemStatus → Bool
is_working ItemStatus.queued = true
is_working ItemStatus.claimed = true
is_working _ = false

abbrev pub is_failed : ItemStatus → Bool
is_failed ItemStatus.failed = true
is_failed _ = false
