-- ===== src/Agent/Platform.antt =====
-- What the agent takes from its surroundings when it handles a command,
-- agent/go/cmd/rmm-agent/main.go.
use openwrt_rmm.Base.{ℕ, String, Bool, Option, List}
use openwrt_rmm.Schema.{ℤ, Check}
use openwrt_rmm.Signing.{Ed25519}
use openwrt_rmm.Signing.Keys.{Base64}
use openwrt_rmm.Agent.{Config, AgentCommand}

-- What running a command gives: its output, its exit code, and the details of its report.
pub record Outcome : Type 0 where
  pub output : String
  pub exit_code : ℤ
  pub details : List (String × String)

-- Where the agent may stop while it handles a command.
pub data Stop : Type 0 where
  before_run during_run after_persist : Stop

-- What the code takes from the packages crypto/ed25519, encoding/base64, encoding/json and strings,
-- and from the router's programs.
pub record Platform : Type 0 where
  pub ed25519 : Ed25519
  pub base64 : Base64
  pub lower : String → String
  pub version : String
  pub is_object : String → Bool
  pub is_diagnostic_report : String → Bool
  pub run_command : Config → AgentCommand → Outcome
  pub run_fleet_profile : Config → AgentCommand → Outcome
  pub agent_package_operation : Config → AgentCommand → Outcome
  pub system_backup_operation : Config → AgentCommand → Outcome

-- The surroundings of one call: the time of its start and how long the command runs, the errors of
-- the file system, the answer of the server, and where the agent stops, if it does.
pub record Circumstances : Type 0 where
  pub now : ℕ
  pub elapsed : ℕ
  pub make_directory : Check
  pub listed : Bool
  pub read_result : Check
  pub parse_result : Check
  pub reserve_marker : Check
  pub persist : Check
  pub removed : Bool
  pub answer : Option ℕ
  pub spooled : Bool
  pub stop : Option Stop
