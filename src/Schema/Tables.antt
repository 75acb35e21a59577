-- ===== src/Schema/Tables.antt =====
-- The rows of the tables.
use openwrt_rmm.Base.{ℕ, String, Bool, Option, List}
use openwrt_rmm.Schema.Columns.{
  ℤ, CommandStatus, OperationStatus, ItemStatus, RolloutStatus, TargetStatus, SessionStatus,
  BackupStatus, Json, Inventory, Metrics,
}

pub record User : Type 0 where
  pub id : String
  pub username : String
  pub role : String
  pub disabled : Bool

-- devices, with the site of fleet_assets ('' without a row there)
pub record Device : Type 0 where
  pub id : String
  pub owner_user_id : String
  pub group_name : String
  pub site : String
  pub inventory : Inventory
  pub metrics : Metrics
  pub last_seen_at : Option ℕ

pub record PermissionPolicy : Type 0 where
  pub permissions : List String
  pub groups : List String
  pub sites : List String
  pub configured : Bool

-- management_permissions
pub record PolicyRow : Type 0 where
  pub user_id : String
  pub policy : PermissionPolicy
  pub updated_at : ℕ

pub record FleetAccessPolicy : Type 0 where
  pub device_id : String
  pub ssh_allowed : Bool
  pub luci_allowed : Bool
  pub max_ttl_seconds : ℕ
  pub restrict_users : Bool
  pub user_ids : List String

pub record Command : Type 0 where
  pub id : String
  pub device_id : String
  pub kind : String
  pub args : Json
  pub status : CommandStatus
  pub result : Json
  pub output : String
  pub exit_code : Option ℤ
  pub attempt_count : ℕ
  pub max_attempts : ℕ
  pub created_at : ℕ
  pub expires_at : Option ℕ
  pub claimed_at : Option ℕ
  pub completed_at : Option ℕ
  pub cancelled_at : Option ℕ
  pub expired_at : Option ℕ
  pub nonce : String
  pub signature_key_id : String
  pub signature : String

-- management_command_permissions
pub record CommandPermissionRow : Type 0 where
  pub command_id : String
  pub user_id : String
  pub permission : String

pub record FleetOperationItem : Type 0 where
  pub device_id : String
  pub command_id : String
  pub status : ItemStatus
  pub error : String
  pub args : Json

-- fleet_operations, with its rows of fleet_operation_items in the order of their devices
pub record FleetOperation : Type 0 where
  pub id : String
  pub user_id : String
  pub request_key : String
  pub request_hash : String
  pub title : String
  pub kind : String
  pub args : Json
  pub parallelism : ℕ
  pub canary_pending : Bool
  pub deadline_at : ℕ
  pub stop_on_failure : Bool
  pub status : OperationStatus
  pub created_at : ℕ
  pub updated_at : ℕ
  pub items : List FleetOperationItem

-- device_backups
pub record Backup : Type 0 where
  pub id : String
  pub device_id : String
  pub command_id : String
  pub status : BackupStatus
  pub error : String
  pub completed_at : Option ℕ

-- agent_rollout_devices
pub record RolloutDevice : Type 0 where
  pub device_id : String
  pub status : TargetStatus
  pub batch : ℕ
  pub command_id : String
  pub feed_url : String
  pub package_manager : String
  pub package_version : String
  pub manifest_url : String
  pub signature_url : String
  pub last_error : String

-- management_rollout_guards
pub record RolloutGuard : Type 0 where
  pub request_key : String
  pub canary_ids : List String
  pub wave_sizes : List ℕ
  pub observation_seconds : ℕ
  pub healthy_since : Option ℕ
  pub last_checked_at : Option ℕ
  pub pause_reason : String
  pub wave_observed : ℕ

-- agent_rollouts, with its devices in the order of their ids and its guard
pub record Rollout : Type 0 where
  pub id : String
  pub channel : String
  pub target_version : String
  pub batch_size : ℕ
  pub failure_threshold : ℕ
  pub status : RolloutStatus
  pub failure_count : ℕ
  pub updated_at : ℕ
  pub devices : List RolloutDevice
  pub guard : Option RolloutGuard

-- A FleetRule as fleet_rules.definition_json holds it; the threshold in thousandths.
pub record FleetRule : Type 0 where
  pub kind : String
  pub threshold : ℕ
  pub action : String
  pub service : String
  pub device_ids : List String
  pub title : String
  pub consecutive : ℕ
  pub cooldown_seconds : ℕ
  pub max_actions_per_day : ℕ

-- fleet_rules
pub record RuleRow : Type 0 where
  pub id : String
  pub user_id : String
  pub definition : FleetRule
  pub enabled : Bool

pub record RemoteSession : Type 0 where
  pub id : String
  pub device_id : String
  pub requester_user_id : String
  pub target : String
  pub status : SessionStatus
  pub server_port : ℕ
  pub remote_port : ℕ
  pub luci_port : ℕ
  pub luci_scheme : String
  pub server_host : String
  pub local_host : String
  pub local_port : ℕ
  pub command_id : String
  pub created_at : ℕ
  pub expires_at : ℕ
  pub started_at : Option ℕ
  pub closed_at : Option ℕ
  pub updated_at : ℕ

-- device_access_grants and device_access_sessions
pub record AccessGrant : Type 0 where
  pub user_id : String
  pub device_id : String
  pub remote_session_id : String

pub record AuditEvent : Type 0 where
  pub actor : String
  pub action : String
  pub device_id : String
  pub command_id : String
  pub created_at : ℕ

-- fleet_schedules and fleet_schedule_runs, as far as a reservation is looked up.
pub record ScheduleRow : Type 0 where
  pub id : String
  pub user_id : String
  pub enabled : Bool

pub record ScheduleRun : Type 0 where
  pub id : String
  pub schedule_id : String
  pub is_pending : Bool
