-- ===== src/Agent/Shell/Allowed.antt =====
-- Which command lines the agent runs for a command, agent/go/cmd/rmm-agent/main.go.
pub mod Uci
use openwrt_rmm.Base.{
  ℕ, String, append, ◌≡◌, refl, Bool, true, false, not, ◌&&◌, ◌||◌, Option, none, some, List, [],
  ◌∷◌, All, any, if◌then◌else◌, ◌==◌, trim_space, arith, Bool-cases, inl, inr, if_ind,
}
use openwrt_rmm.Schema.{ℤ, pos, is_zero, Json}
use openwrt_rmm.Agent.{AgentCommand, argument}
use openwrt_rmm.Agent.Validate.Names.{
  safe_host_name, safe_package_name, safe_service_name, safe_config, safe_section, safe_option,
}
use openwrt_rmm.Agent.Shell.{
  Answer, Programs, Shell, UciTarget, exec_command, exec_command_with_input, on_success,
  save_export, unified_diff, uci_backup_output, uci_preview_output, uci_set_output, set_argument,
  reverted, read_export,
}
use openwrt_rmm.Agent.Shell.Confirm.{uci_commit_confirmed_output, uci_restore_output}
use openwrt_rmm.Agent.Shell.Commands.{Others, run_command}

-- The lines that the agent may run: fixed ones, and those whose arguments have passed their tests.
pub data Allowed {W : Type 0} (p : Programs W) : List String → Type 0 where
  route_show : Allowed p ("ip" ∷ "route" ∷ "show" ∷ [])
  addr_show : Allowed p ("ip" ∷ "-o" ∷ "addr" ∷ "show" ∷ [])
  apk_list : Allowed p ("apk" ∷ "list" ∷ "-I" ∷ [])
  apk_update : Allowed p ("apk" ∷ "update" ∷ [])
  apk_upgradable : Allowed p ("apk" ∷ "list" ∷ "--upgradeable" ∷ [])
  opkg_list : Allowed p ("opkg" ∷ "list-installed" ∷ [])
  opkg_update : Allowed p ("opkg" ∷ "update" ∷ [])
  opkg_upgradable : Allowed p ("opkg" ∷ "list-upgradable" ∷ [])
  ping : (host : String) → safe_host_name host ≡ true → Allowed p ("ping" ∷ "-c" ∷ "4" ∷ host ∷ [])
  traceroute : (host : String) → safe_host_name host ≡ true → Allowed p ("traceroute" ∷ host ∷ [])
  restart :
      (service : String)
      → safe_service_name service ≡ true
      → Allowed p (append "/etc/init.d/" service ∷ "restart" ∷ [])
  apk_add : (name : String) → safe_package_name name ≡ true → Allowed p ("apk" ∷ "add" ∷ name ∷ [])
  apk_del : (name : String) → safe_package_name name ≡ true → Allowed p ("apk" ∷ "del" ∷ name ∷ [])
  opkg_install :
      (name : String) → safe_package_name name ≡ true → Allowed p ("opkg" ∷ "install" ∷ name ∷ [])
  opkg_remove :
      (name : String) → safe_package_name name ≡ true → Allowed p ("opkg" ∷ "remove" ∷ name ∷ [])
  uci_on :
      (action config : String)
      → any (λ a. a == action) ("show" ∷ "export" ∷ "commit" ∷ "revert" ∷ "import" ∷ []) ≡ true
      → safe_config config ≡ true
      → Allowed p ("uci" ∷ action ∷ config ∷ [])
  uci_set :
      (t : UciTarget)
      → safe_config t.config ≡ true
      → (safe_section t.section && safe_option t.option) ≡ true
      → Allowed p ("uci" ∷ "set" ∷ set_argument p t ∷ [])
  diff :
      (before after : String)
      → p.temporary ≡ some (before, after)
      → Allowed p ("diff" ∷ "-u" ∷ before ∷ after ∷ [])

-- A shell on which only allowed lines were run, and an operation that ends with one.
pub record IsClean {W : Type 0} (p : Programs W) (s : Shell W) : Type 0 where
  pub clean : All (Allowed p) s.lines

pub record Ends {W : Type 0} (p : Programs W) (r : Answer × Shell W) : Type 0 where
  pub shell : IsClean p r.1

module _ {W : Type 0} (p : Programs W) where
  pub exec_command-IsClean :
      (line : List String) (s : Shell W)
      → Allowed p line
      → IsClean p s
      → Ends p (exec_command p line s)
  unfolding exec_command
  exec_command-IsClean line s a h = record { shell = record { clean = (a, h.clean) } }

  pub exec_command_with_input-IsClean :
      (input : String) (line : List String) (s : Shell W)
      → Allowed p line
      → IsClean p s
      → Ends p (exec_command_with_input p input line s)
  unfolding exec_command_with_input
  exec_command_with_input-IsClean input line s a h = record {
    shell = record { clean = (a, h.clean) };
  }

  pub on_success-IsClean :
      (r : Answer × Shell W) (more : String → Shell W → Answer × Shell W)
      → Ends p r
      → ((output : String) (t : Shell W) → IsClean p t → Ends p (more output t))
      → Ends p (on_success p r more)
  unfolding on_success
  on_success-IsClean ((output, code), s) more h k =
      if_ind (Ends p) (is_zero code) (k output s h.shell) h

  pub save_export-IsClean :
      (config text : String) (s : Shell W) → IsClean p s → IsClean p (save_export p config text s)
  unfolding save_export
  save_export-IsClean config text s h = if_ind (IsClean p) p.saves (record { clean = h.clean }) h
