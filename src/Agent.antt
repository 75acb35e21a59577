-- ===== src/Agent.antt =====
-- The router's agent, agent/go/cmd/rmm-agent/main.go: the commands that it accepts, runs and reports.
-- Its directories are lists of files; what the commands do to the router is a parameter.
pub mod Validate
pub mod Redact
pub mod State
pub mod Platform
pub mod Process
pub mod Shell
pub mod Profile
use openwrt_rmm.Base.{ℕ, String, Option, List, [], ◌∷◌, if◌then◌else◌, ◌==◌}
use openwrt_rmm.Schema.{Json}

-- The fields of config that the modelled code reads.
pub record Config : Type 0 where
  pub device_id : String
  pub command_signing_public_key : String
  pub command_signing_key_id : String

-- command, as the server sends it
pub record AgentCommand : Type 0 where
  pub id : String
  pub device_id : String
  pub kind : String
  pub args : Json
  pub created_at : ℕ
  pub expires_at : Option ℕ
  pub nonce : String
  pub signature_key_id : String
  pub signature : String

-- args[key], which is empty for a missing key
unfoldable pub argument : String → List (String × String) → String
argument key [] = ""
argument key ((k, v) ∷ args) = let rest = argument key args in if k == key then v else rest
