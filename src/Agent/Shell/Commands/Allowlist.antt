-- ===== src/Agent/Shell/Commands/Allowlist.antt =====
-- That a command only makes the agent run allowed lines, agent/go/cmd/rmm-agent/main.go.
use openwrt_rmm.Base.{
  String, ◌≡◌, refl, Bool, true, false, ◌&&◌, ◌||◌, List, [], ◌∷◌, any, if◌then◌else◌, ◌==◌,
  trim_space, if_ind,
}
use openwrt_rmm.Schema.{pos}
use openwrt_rmm.Agent.{AgentCommand, argument}
use openwrt_rmm.Agent.Validate.Names.{
  safe_host_name, safe_package_name, safe_service_name, safe_config, safe_section, safe_option,
}
use openwrt_rmm.Agent.Shell.{
  Answer, Programs, Shell, UciTarget, exec_command, uci_backup_output, uci_preview_output,
}
use openwrt_rmm.Agent.Shell.Allowed.{
  Allowed, IsClean, Ends, exec_command-IsClean, route_show, addr_show, apk_list, apk_update,
  apk_upgradable, opkg_list, opkg_update, opkg_upgradable, ping, traceroute, restart, apk_add,
  apk_del, opkg_install, opkg_remove, uci_on,
}
use openwrt_rmm.Agent.Shell.Allowed.Uci.{
  uci_backup_output-IsClean, uci_set_output-IsClean, uci_preview_output-IsClean,
}
use openwrt_rmm.Agent.Shell.Confirm.{uci_restore_output}
use openwrt_rmm.Agent.Shell.Confirm.Safe.{
  uci_commit_confirmed_output-IsClean, uci_restore_output-IsClean,
}
use openwrt_rmm.Agent.Shell.Commands.{
  Others, elsewhere, refuse, run_package_command, package_command, host_command, service_command,
  config_command, ping_line, traceroute_line, uci_line, preview_command, set_command, set_committed,
  confirmed_command, int_default, target_command, target_of, or_default, uci_command,
  software_command, run_kind, run_command,
}

-- A test that holds is known in its branch.
checked {ℓ κ} :
    {A : Type ℓ} (P : A → Type κ) (b : Bool) {x y : A}
    → (b ≡ true → P x)
    → P y
    → P (if b then x else y)
checked P true h k = h refl
checked P false h k = k

module _ {W : Type 0} (p : Programs W) (others : Others W) (s : Shell W) (h : IsClean p s) where
  refuse-IsClean : (text : String) → Ends p (refuse p others text s)
  unfolding refuse
  refuse-IsClean text = record { shell = h }

  elsewhere-IsClean : (f : W → Answer × W) → Ends p (elsewhere p others f s)
  unfolding elsewhere
  elsewhere-IsClean f = record { shell = record { clean = h.clean } }

  run : (line : List String) → Allowed p line → Ends p (exec_command p line s)
  run line a = exec_command-IsClean p line s a h

  run_package_command-IsClean :
      (apk opkg : List String)
      → Allowed p ("apk" ∷ apk)
      → Allowed p ("opkg" ∷ opkg)
      → Ends p (run_package_command p others apk opkg s)
  unfolding run_package_command
  run_package_command-IsClean apk opkg a b =
      if_ind (Ends p) (p.package_manager == "apk") (run _ a)
        (if_ind (Ends p) (p.package_manager == "opkg") (run _ b) (refuse-IsClean _))

  package_command-IsClean :
      (apk opkg name : String)
      → (safe_package_name name ≡ true → Allowed p ("apk" ∷ apk ∷ name ∷ []))
      → (safe_package_name name ≡ true → Allowed p ("opkg" ∷ opkg ∷ name ∷ []))
      → Ends p (package_command p others apk opkg name s)
  unfolding package_command
  package_command-IsClean apk opkg name a b =
      checked (Ends p) (safe_package_name name)
        (λ e. run_package_command-IsClean (apk ∷ name ∷ []) (opkg ∷ name ∷ []) (a e) (b e))
        (refuse-IsClean _)

  host_command-IsClean :
      (line : String → List String) (target : String)
      → (safe_host_name target ≡ true → Allowed p (line target))
      → Ends p (host_command p others line target s)
  unfolding host_command
  host_command-IsClean line target a =
      checked (Ends p) (safe_host_name target) (λ e. run (line target) (a e)) (refuse-IsClean _)

  service_command-IsClean : (service : String) → Ends p (service_command p others service s)
  unfolding service_command
  service_command-IsClean service =
      checked (Ends p) (safe_service_name service) (λ e. run _ (restart service e))
        (refuse-IsClean _)

  config_command-IsClean :
      (f : String → Shell W → Answer × Shell W) (config : String)
      → (safe_config config ≡ true → Ends p (f config s))
      → Ends p (config_command p others f config s)
  unfolding config_command
  config_command-IsClean f config k = checked (Ends p) (safe_config config) k (refuse-IsClean _)

  target_command-IsClean :
      (f : UciTarget → Shell W → Answer × Shell W) (t : UciTarget)
      → ((safe_section t.section && safe_option t.option) ≡ true → Ends p (f t s))
      → Ends p (target_command p others f t s)
  unfolding target_command
  target_command-IsClean f t k =
      checked (Ends p) (safe_section t.section && safe_option t.option) k (refuse-IsClean _)

  -- `uci` with an action on a configuration
  on_config :
      (action config : String)
      → any (λ a. a == action) ("show" ∷ "export" ∷ "commit" ∷ "revert" ∷ "import" ∷ []) ≡ true
      → Ends p (config_command p others (uci_line p others action) config s)
  unfolding uci_line
  on_config action config e =
      config_command-IsClean (uci_line p others action) config
        (λ c. run ("uci" ∷ action ∷ config ∷ []) (uci_on action config e c))

  on_target :
      (args : List (String × String)) (config : String)
      → Ends p (config_command p others (preview_command p others args) config s)
        × Ends p (config_command p others (set_command p others args) config s)
  unfolding preview_command set_command set_committed
  on_target args config =
      let t = target_of args config in
      (
        config_command-IsClean (preview_command p others args) config (λ c.
            target_command-IsClean (uci_preview_output p) t
              (λ n. uci_preview_output-IsClean p t c n s h)),
        config_command-IsClean (set_command p others args) config (λ c.
            target_command-IsClean (set_committed p others args) t (λ n.
              uci_set_output-IsClean p t c n (trim_space (argument "commit" args) == "true") s h)),
      )

  on_confirmed :
      (args : List (String × String)) (config : String)
      → Ends p (config_command p others (confirmed_command p others args) config s)
  unfolding confirmed_command
  on_confirmed args config = config_command-IsClean (confirmed_command p others args) config (λ c.
      uci_commit_confirmed_output-IsClean p config c
        (int_default p others (p.atoi (trim_space (argument "confirm_seconds" args))) (pos 15)) s h)

  uci_command-IsClean :
      (kind : String) (args : List (String × String)) → Ends p (uci_command p others kind args s)
  unfolding uci_command
  uci_command-IsClean kind args =
      let config = or_default (trim_space (argument "config" args)) "network" in
      if_ind (Ends p) (kind == "uci_show") (on_config "show" config refl) (
        if_ind (Ends p) (kind == "uci_backup")
          (config_command-IsClean (uci_backup_output p) config
            (λ c. uci_backup_output-IsClean p config s c h))
          (if_ind (Ends p) (kind == "uci_preview") (on_target args config).0 (
            if_ind (Ends p) (kind == "uci_set") (on_target args config).1 (
              if_ind (Ends p) (kind == "uci_commit") (on_config "commit" config refl) (
                if_ind (Ends p) (kind == "uci_commit_confirmed") (on_confirmed args config) (
                  if_ind (Ends p) (kind == "uci_revert") (on_config "revert" config refl) (
                    if_ind (Ends p) (kind == "uci_restore")
                      (config_command-IsClean (uci_restore_output p) config
                        (λ c. uci_restore_output-IsClean p config c s h))
                      (refuse-IsClean _))))))))

  software_command-IsClean :
      (kind : String) (args : List (String × String))
      → Ends p (software_command p others kind args s)
  unfolding software_command
  software_command-IsClean kind args =
      let name = trim_space (argument "package" args) in
      if_ind (Ends p) ((kind == "pkg_list_installed") || (kind == "opkg_list_installed"))
        (run_package_command-IsClean ("list" ∷ "-I" ∷ []) ("list-installed" ∷ []) apk_list
          opkg_list)
        (if_ind (Ends p) ((kind == "pkg_update") || (kind == "opkg_update"))
          (run_package_command-IsClean ("update" ∷ []) ("update" ∷ []) apk_update opkg_update)
          (if_ind (Ends p) ((kind == "pkg_list_upgradable") || (kind == "opkg_list_upgradable"))
            (run_package_command-IsClean ("list" ∷ "--upgradeable" ∷ []) ("list-upgradable" ∷ [])
              apk_upgradable opkg_upgradable)
            (if_ind (Ends p) ((kind == "pkg_install") || (kind == "opkg_install"))
              (package_command-IsClean "add" "install" name (apk_add name) (opkg_install name))
              (if_ind (Ends p) ((kind == "pkg_remove") || (kind == "opkg_remove"))
                (package_command-IsClean "del" "remove" name (apk_del name) (opkg_remove name))
                (if_ind (Ends p) ((kind == "agent_update") || (kind == "agent_rollback"))
                  (refuse-IsClean _) (uci_command-IsClean kind args))))))

  run_kind-IsClean :
      (kind : String) (args : List (String × String)) → Ends p (run_kind p others kind args s)
  unfolding run_kind
  run_kind-IsClean kind args =
      let target = or_default (trim_space (argument "target" args)) "1.1.1.1" in
      if_ind (Ends p) (kind == "diagnostic_report")
        (elsewhere-IsClean (others.run_diagnostics args))
        (if_ind (Ends p) (kind == "ping") (host_command-IsClean ping_line target (ping target)) (
          if_ind (Ends p) (kind == "traceroute")
            (host_command-IsClean traceroute_line target (traceroute target))
            (if_ind (Ends p) (kind == "route_show") (run ("ip" ∷ "route" ∷ "show" ∷ []) route_show)
              (if_ind (Ends p) (kind == "interfaces_show")
                (run ("ip" ∷ "-o" ∷ "addr" ∷ "show" ∷ []) addr_show)
                (if_ind (Ends p) (kind == "reboot") (elsewhere-IsClean others.schedule_reboot) (
                  if_ind (Ends p)
                    ((kind == "system_backup_create") || (kind == "system_backup_restore"))
                    (refuse-IsClean _)
                    (if_ind (Ends p) (kind == "service_restart")
                      (service_command-IsClean (trim_space (argument "service" args)))
                      (if_ind (Ends p) (kind == "remote_ssh_reverse")
                        (elsewhere-IsClean (others.remote_ssh_reverse args))
                        (if_ind (Ends p) (kind == "remote_ssh_close")
                          (elsewhere-IsClean (others.remote_ssh_close args))
                          (software_command-IsClean kind args))))))))))

  -- Whatever a command asks for, and whatever its arguments are, the lines that runCommand runs on
  -- the router are all of the allowed list: fixed ones, and those whose host, service, package,
  -- configuration, section or option has passed its test. Diagnostics, tunnels and the reboot run
  -- programs of their own, which are not among these lines.
  pub run_command-IsClean : (cmd : AgentCommand) → Ends p (run_command p others cmd s)
  unfolding run_command
  run_command-IsClean cmd = run_kind-IsClean cmd.kind (p.read_args cmd.args)
