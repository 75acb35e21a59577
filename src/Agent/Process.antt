-- ===== src/Agent/Process.antt =====
-- processCommand of agent/go/cmd/rmm-agent/main.go, with the failures of the file system and the
-- moments at which the agent or the router may stop.
pub mod Once
pub mod Report
pub mod History
use openwrt_rmm.Base.{
  ℕ, ◌+◌, String, Bool, true, false, ◌&&◌, ◌||◌, Option, none, some, List, [], ◌∷◌, ◌++◌, any,
  find_where, starts_with, if◌then◌else◌, ◌==◌,
}
use openwrt_rmm.Schema.{ℤ, pos, is_zero, Check, other, Result, ok, err, ◌>>=◌, ◌>>◌, guard}
use openwrt_rmm.Signing.{Ed25519}
use openwrt_rmm.Signing.Keys.{Base64}
use openwrt_rmm.Agent.{Config, AgentCommand}
use openwrt_rmm.Agent.Platform.{Outcome, Stop, Platform, Circumstances}
use openwrt_rmm.Agent.Validate.{validate_signed_command}
use openwrt_rmm.Agent.Redact.{redact_sensitive_output}
use openwrt_rmm.Agent.State.{
  CommandResult, Content, pending, saved, StateFile, AgentState, marker_of, result_of, find_result,
  cleanup_command_state, reserve, persist_command_result, remove_marker, deliver_command_result,
}

abbrev pub stops_before : Option Stop → Bool
stops_before (some Stop.before_run) = true
stops_before _ = false

abbrev pub stops_during : Option Stop → Bool
stops_during (some Stop.during_run) = true
stops_during _ = false

abbrev pub stops_after : Option Stop → Bool
stops_after (some Stop.after_persist) = true
stops_after _ = false

module _ (p : Platform) where
  -- commandMetadata
  abbrev pub command_metadata : List (String × String)
  command_metadata = ("agent_version", p.version) ∷ ("agent_runtime", "go") ∷ []

  -- commandResult
  unfoldable pub command_result :
      String → String → ℤ → String → List (String × String) → CommandResult
  command_result device_id status exit_code output details = record {
    device_id = device_id;
    status = status;
    exit_code = exit_code;
    output = redact_sensitive_output p.lower output;
    details = details;
  }

  -- runCommand, or runFleetProfile for a type uci_profile_…
  first_outcome : Config → AgentCommand → Outcome
  first_outcome cfg cmd =
      if starts_with cmd.kind "uci_profile_"
      then p.run_fleet_profile cfg cmd
      else p.run_command cfg cmd

  -- resultDetails of the first outcome
  first_details : AgentCommand → Outcome → List (String × String)
  first_details cmd o =
      command_metadata
      ++ (if (cmd.kind == "uci_profile_preview") && is_zero o.exit_code && p.is_object o.output
          then ("profile", o.output) ∷ []
          else [])
      ++ (if (cmd.kind == "diagnostic_report") && p.is_diagnostic_report o.output
          then ("diagnostics", o.output) ∷ []
          else [])

  -- What is run for the type of the command. The managed operations replace the first outcome.
  unfoldable pub run_outcome : Config → AgentCommand → Outcome
  unfolding first_outcome first_details
  run_outcome cfg cmd =
      if (cmd.kind == "system_backup_create") || (cmd.kind == "system_backup_restore")
      then p.system_backup_operation cfg cmd
      else if (cmd.kind == "agent_update") || (cmd.kind == "agent_rollback")
      then p.agent_package_operation cfg cmd
      else let o = first_outcome cfg cmd in
        record { output = o.output; exit_code = o.exit_code; details = first_details cmd o }

  -- status, output and result after the run
  unfoldable pub outcome_result : Config → Outcome → CommandResult
  unfolding command_result
  outcome_result cfg o =
      command_result cfg.device_id (if is_zero o.exit_code then "completed" else "failed")
        o.exit_code (redact_sensitive_output p.lower o.output) o.details

  abbrev pub interrupted : Config → CommandResult
  interrupted cfg =
      command_result cfg.device_id "failed" (pos 75)
        "command execution was interrupted; refusing unsafe replay\n" command_metadata

  -- What follows a successful persistCommandResult.
  settle : Circumstances → String → CommandResult → AgentState → Check × AgentState
  unfolding persist_command_result remove_marker deliver_command_result
  settle w id result s = if stops_after w.stop then (err (other "agent stopped"), s) else (
    ok tt,
    deliver_command_result w.answer w.spooled id result (remove_marker w.removed id s),
  )

  keep_result : Circumstances → ℕ → String → CommandResult → Check → AgentState → Check × AgentState
  unfolding settle persist_command_result
  keep_result w now id result (err e) s = (err e, s)
  keep_result w now id result (ok u) s = settle w id result (persist_command_result now id result s)

  -- From the reserved marker on: the run, and its result.
  run_reserved : Circumstances → AgentCommand → AgentState → Check × AgentState
  unfolding keep_result
  run_reserved w cmd s =
      let ran = record s { runs = s.runs ++ cmd ∷ [] } in
      if stops_before w.stop
      then (err (other "agent stopped"), s)
      else if stops_during w.stop
      then (err (other "agent stopped"), ran)
      else keep_result w (w.now + w.elapsed) cmd.id
          (outcome_result s.config (run_outcome s.config cmd)) w.persist ran

  reserve_and_run : Circumstances → AgentCommand → Check → AgentState → Check × AgentState
  unfolding run_reserved reserve
  reserve_and_run w cmd (err e) s = (err e, s)
  reserve_and_run w cmd (ok u) s = run_reserved w cmd (reserve w.now cmd.id s)

  -- Without a result file: a marker is left from a run that was interrupted, or there is none.
  start_command : Circumstances → AgentCommand → AgentState → Check × AgentState
  unfolding reserve_and_run keep_result
  start_command w cmd s =
      if any (marker_of cmd.id) s.files
      then keep_result w w.now cmd.id (interrupted s.config) w.persist s
      else reserve_and_run w cmd w.reserve_marker s

  deliver_again : Circumstances → String → CommandResult → Check → AgentState → Check × AgentState
  unfolding deliver_command_result
  deliver_again w id result (err e) s = (err e, s)
  deliver_again w id result (ok u) s =
      (ok tt, deliver_command_result w.answer w.spooled id result s)

  from_result :
      Circumstances → AgentCommand → Option CommandResult → AgentState → Check × AgentState
  unfolding deliver_again start_command
  from_result w cmd (some r) s = deliver_again w cmd.id r w.parse_result s
  from_result w cmd none s = start_command w cmd s

  look_up : Circumstances → AgentCommand → Check → AgentState → Check × AgentState
  unfolding from_result
  look_up w cmd (err e) s = (err e, s)
  look_up w cmd (ok u) s = from_result w cmd (find_result cmd.id s.files) s

  with_directory : Circumstances → AgentCommand → Check → AgentState → Check × AgentState
  unfolding look_up
  with_directory w cmd (err e) s = (err e, s)
  with_directory w cmd (ok u) s =
      look_up w cmd w.read_result (cleanup_command_state w.listed w.now s)

  accepted : Circumstances → AgentCommand → Check → AgentState → Check × AgentState
  unfolding with_directory
  accepted w cmd (err e) s = (err e, s)
  accepted w cmd (ok u) s = with_directory w cmd w.make_directory s

  -- processCommand. The restart of the agent after its own update is no step of the model.
  unfoldable pub process_command : Circumstances → AgentCommand → AgentState → Check × AgentState
  unfolding accepted
  process_command w cmd s =
      accepted w cmd (validate_signed_command p.ed25519 p.base64 s.config cmd w.now) s
