-- ===== src/Agent/Shell/Commands.antt =====
-- runCommand of agent/go/cmd/rmm-agent/main.go: what the agent runs for each type of command.
pub mod Allowlist
use openwrt_rmm.Base.{
  ℕ, zero, suc, String, append, Bool, true, false, not, ◌&&◌, ◌||◌, Option, none, some, List, [],
  ◌∷◌, if◌then◌else◌, ◌==◌, trim_space,
}
use openwrt_rmm.Schema.{ℤ, pos, Json}
use openwrt_rmm.Agent.{AgentCommand, argument}
use openwrt_rmm.Agent.Validate.Names.{
  safe_host_name, safe_package_name, safe_service_name, safe_config, safe_section, safe_option,
}
use openwrt_rmm.Agent.Shell.{
  Answer, Programs, Shell, UciTarget, exec_command, uci_backup_output, uci_preview_output,
  uci_set_output,
}
use openwrt_rmm.Agent.Shell.Confirm.{uci_commit_confirmed_output, uci_restore_output}

-- The commands that start programs of their own: diagnostics, the tunnels and the reboot.
pub record Others (W : Type 0) : Type 0 where
  pub run_diagnostics : List (String × String) → W → Answer × W
  pub remote_ssh_reverse : List (String × String) → W → Answer × W
  pub remote_ssh_close : List (String × String) → W → Answer × W
  pub schedule_reboot : W → Answer × W

-- commandTarget and uciConfigArg: a default for an empty text
abbrev or_default : String → String → String
or_default text fallback = if text == "" then fallback else text

-- uciTargetArgs, where the configuration is allowed
abbrev target_of : List (String × String) → String → UciTarget
target_of args config = record {
  config = config;
  section = trim_space (argument "section" args);
  option = trim_space (argument "option" args);
  value = argument "value" args;
}

abbrev pub ping_line : String → List String
ping_line target = "ping" ∷ "-c" ∷ "4" ∷ target ∷ []

abbrev pub traceroute_line : String → List String
traceroute_line target = "traceroute" ∷ target ∷ []

module _ {W : Type 0} (p : Programs W) (others : Others W) where
  elsewhere : (W → Answer × W) → Shell W → Answer × Shell W
  elsewhere f s = let (a, w) = f s.world in (a, record s { world = w })

  -- A command that is refused before anything is run
  refuse : String → Shell W → Answer × Shell W
  refuse text s = ((text, pos 2), s)

  -- runPackageCommand
  unfoldable pub run_package_command : List String → List String → Shell W → Answer × Shell W
  unfolding exec_command refuse
  run_package_command apk opkg s =
      if p.package_manager == "apk"
      then exec_command p ("apk" ∷ apk) s
      else if p.package_manager == "opkg"
      then exec_command p ("opkg" ∷ opkg) s
      else refuse "no supported package manager found\n" s

  package_command : String → String → String → Shell W → Answer × Shell W
  unfolding run_package_command refuse
  package_command apk opkg name s =
      if safe_package_name name
      then run_package_command (apk ∷ name ∷ []) (opkg ∷ name ∷ []) s
      else refuse "package name is invalid\n" s

  host_command : (String → List String) → String → Shell W → Answer × Shell W
  unfolding exec_command refuse
  host_command line target s =
      if safe_host_name target
      then exec_command p (line target) s
      else refuse "target is invalid\n" s

  service_command : String → Shell W → Answer × Shell W
  unfolding exec_command refuse
  service_command service s =
      if safe_service_name service
      then exec_command p (append "/etc/init.d/" service ∷ "restart" ∷ []) s
      else refuse "service is not allowlisted\n" s

  -- A command on a configuration that is allowed
  config_command : (String → Shell W → Answer × Shell W) → String → Shell W → Answer × Shell W
  unfolding refuse
  config_command run config s =
      if safe_config config then run config s else refuse "uci config is not allowlisted\n" s

  target_command : (UciTarget → Shell W → Answer × Shell W) → UciTarget → Shell W → Answer × Shell W
  unfolding refuse
  target_command run t s =
      if safe_section t.section && safe_option t.option
      then run t s
      else refuse "uci section or option is invalid\n" s

  uci_line : String → String → Shell W → Answer × Shell W
  unfolding exec_command
  uci_line action config s = exec_command p ("uci" ∷ action ∷ config ∷ []) s

  preview_command : List (String × String) → String → Shell W → Answer × Shell W
  unfolding target_command uci_preview_output argument
  preview_command args config = target_command (uci_preview_output p) (target_of args config)

  set_committed : List (String × String) → UciTarget → Shell W → Answer × Shell W
  unfolding uci_set_output argument
  set_committed args t s = uci_set_output p t (trim_space (argument "commit" args) == "true") s

  set_command : List (String × String) → String → Shell W → Answer × Shell W
  unfolding target_command set_committed argument
  set_command args config = target_command (set_committed args) (target_of args config)

  -- intDefault
  int_default : Option ℤ → ℤ → ℤ
  int_default none fallback = fallback
  int_default (some n) fallback = n

  confirmed_command : List (String × String) → String → Shell W → Answer × Shell W
  unfolding uci_commit_confirmed_output int_default argument
  confirmed_command args config s =
      uci_commit_confirmed_output p config
        (int_default (p.atoi (trim_space (argument "confirm_seconds" args))) (pos 15)) s

  -- The commands on the configuration of the router
  uci_command : String → List (String × String) → Shell W → Answer × Shell W
  unfolding config_command uci_line preview_command set_command confirmed_command refuse
      uci_backup_output uci_restore_output argument
  uci_command kind args s =
      let config = or_default (trim_space (argument "config" args)) "network" in
      if kind == "uci_show"
      then config_command (uci_line "show") config s
      else if kind == "uci_backup"
      then config_command (uci_backup_output p) config s
      else if kind == "uci_preview"
      then config_command (preview_command args) config s
      else if kind == "uci_set"
      then config_command (set_command args) config s
      else if kind == "uci_commit"
      then config_command (uci_line "commit") config s
      else if kind == "uci_commit_confirmed"
      then config_command (confirmed_command args) config s
      else if kind == "uci_revert"
      then config_command (uci_line "revert") config s
      else if kind == "uci_restore"
      then config_command (uci_restore_output p) config s
      else refuse (append "rmm-agent does not implement command " (append (p.quote kind) "\n")) s

  -- The commands on packages
  software_command : String → List (String × String) → Shell W → Answer × Shell W
  unfolding run_package_command package_command uci_command refuse argument
  software_command kind args s =
      let name = trim_space (argument "package" args) in
      if (kind == "pkg_list_installed") || (kind == "opkg_list_installed")
      then run_package_command ("list" ∷ "-I" ∷ []) ("list-installed" ∷ []) s
      else if (kind == "pkg_update") || (kind == "opkg_update")
      then run_package_command ("update" ∷ []) ("update" ∷ []) s
      else if (kind == "pkg_list_upgradable") || (kind == "opkg_list_upgradable")
      then run_package_command ("list" ∷ "--upgradeable" ∷ []) ("list-upgradable" ∷ []) s
      else if (kind == "pkg_install") || (kind == "opkg_install")
      then package_command "add" "install" name s
      else if (kind == "pkg_remove") || (kind == "opkg_remove")
      then package_command "del" "remove" name s
      else if (kind == "agent_update") || (kind == "agent_rollback")
      then refuse "agent update is handled separately\n" s
      else uci_command kind args s

  run_kind : String → List (String × String) → Shell W → Answer × Shell W
  unfolding host_command service_command software_command elsewhere refuse exec_command argument
  run_kind kind args s =
      let target = or_default (trim_space (argument "target" args)) "1.1.1.1" in
      if kind == "diagnostic_report"
      then elsewhere (others.run_diagnostics args) s
      else if kind == "ping"
      then host_command ping_line target s
      else if kind == "traceroute"
      then host_command traceroute_line target s
      else if kind == "route_show"
      then exec_command p ("ip" ∷ "route" ∷ "show" ∷ []) s
      else if kind == "interfaces_show"
      then exec_command p ("ip" ∷ "-o" ∷ "addr" ∷ "show" ∷ []) s
      else if kind == "reboot"
      then elsewhere others.schedule_reboot s
      else if (kind == "system_backup_create") || (kind == "system_backup_restore")
      then refuse "backup operation requires the managed transfer path\n" s
      else if kind == "service_restart"
      then service_command (trim_space (argument "service" args)) s
      else if kind == "remote_ssh_reverse"
      then elsewhere (others.remote_ssh_reverse args) s
      else if kind == "remote_ssh_close"
      then elsewhere (others.remote_ssh_close args) s
      else software_command kind args s

  -- runCommand; the cases of its switch are distinct texts, so that their order does not matter.
  unfoldable pub run_command : AgentCommand → Shell W → Answer × Shell W
  unfolding run_kind
  run_command cmd s = run_kind cmd.kind (p.read_args cmd.args) s
