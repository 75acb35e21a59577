-- ===== src/Agent/Shell/Confirm/Safe.antt =====
-- The confirmed commit and the restore run allowed lines, agent/go/cmd/rmm-agent/main.go.
use openwrt_rmm.Base.{String, ◌≡◌, refl, Bool, true, false, Option, none, some, if_ind}
use openwrt_rmm.Schema.{ℤ}
use openwrt_rmm.Agent.Validate.Names.{safe_config}
use openwrt_rmm.Agent.Shell.{Programs, Shell, read_export}
use openwrt_rmm.Agent.Shell.Allowed.{
  IsClean, Ends, exec_command-IsClean, Ends, exec_command_with_input-IsClean, on_success-IsClean,
  uci_on,
}
use openwrt_rmm.Agent.Shell.Confirm.{
  confirm_time, committed, commit_import, roll_back, after_wait, import_export,
  uci_commit_confirmed_output, uci_restore_output,
}

module _ {W : Type 0} (p : Programs W) (config : String) (c : safe_config config ≡ true) where
  roll_back-IsClean :
      (seconds : ℤ) (output : String) (o : Option String) (s : Shell W)
      → IsClean p s
      → Ends p (roll_back p config seconds output o s)
  unfolding roll_back
  roll_back-IsClean seconds output none s h = record { shell = h }
  roll_back-IsClean seconds output (some backup) s h =
      let imported =
        exec_command_with_input-IsClean p backup _ s (uci_on "import" config refl c) h in
      record {
        shell = (exec_command-IsClean p _ _ (uci_on "commit" config refl c) imported.shell).shell;
      }

  after_wait-IsClean :
      (seconds : ℤ) (output : String) (b : Bool) (w : W) (s : Shell W)
      → IsClean p s
      → Ends p (after_wait p config seconds output (b, w) s)
  unfolding after_wait
  after_wait-IsClean seconds output false w s h = record { shell = record { clean = h.clean } }
  after_wait-IsClean seconds output true w s h =
      if_ind (Ends p) (p.reachable w) (record { shell = record { clean = h.clean } })
        (roll_back-IsClean seconds output (read_export config s.exports) (record s { world = w })
          (record { clean = h.clean }))

  committed-IsClean :
      (seconds : ℤ) (output : String) (s : Shell W)
      → IsClean p s
      → Ends p (committed p config seconds output s)
  unfolding committed
  committed-IsClean seconds output s h =
      after_wait-IsClean seconds output (p.wait seconds s.world).0 (p.wait seconds s.world).1 s h

  pub uci_commit_confirmed_output-IsClean :
      (seconds : ℤ) (s : Shell W)
      → IsClean p s
      → Ends p (uci_commit_confirmed_output p config seconds s)
  unfolding uci_commit_confirmed_output
  uci_commit_confirmed_output-IsClean seconds s h =
      on_success-IsClean p _ (committed p config (confirm_time seconds))
        (exec_command-IsClean p _ s (uci_on "commit" config refl c) h)
        (committed-IsClean (confirm_time seconds))

  commit_import-IsClean :
      (output : String) (s : Shell W) → IsClean p s → Ends p (commit_import p config output s)
  unfolding commit_import
  commit_import-IsClean output s h = record {
    shell = (exec_command-IsClean p _ s (uci_on "commit" config refl c) h).shell;
  }

  import_export-IsClean :
      (o : Option String) (s : Shell W) → IsClean p s → Ends p (import_export p config o s)
  unfolding import_export
  import_export-IsClean none s h = record { shell = h }
  import_export-IsClean (some backup) s h =
      on_success-IsClean p _ (commit_import p config)
        (exec_command_with_input-IsClean p backup _ s (uci_on "import" config refl c) h)
        commit_import-IsClean

  pub uci_restore_output-IsClean :
      (s : Shell W) → IsClean p s → Ends p (uci_restore_output p config s)
  unfolding uci_restore_output
  uci_restore_output-IsClean s h = import_export-IsClean (read_export config s.exports) s h
