-- ===== src/Agent/Shell/Allowed/Uci.antt =====
-- The uci operations run allowed lines, agent/go/cmd/rmm-agent/main.go.
use openwrt_rmm.Base.{String, ◌≡◌, refl, Bool, true, ◌&&◌, Option, none, some, [], ◌∷◌, if_ind}
use openwrt_rmm.Schema.{is_zero}
use openwrt_rmm.Agent.Validate.Names.{safe_config, safe_section, safe_option}
use openwrt_rmm.Agent.Shell.{
  Programs, Shell, UciTarget, exec_command, save_export, unified_diff, uci_backup_output,
  uci_preview_output, uci_set_output,
}
use openwrt_rmm.Agent.Shell.Allowed.{
  IsClean, Ends, exec_command-IsClean, Ends, on_success-IsClean, save_export-IsClean, uci_on,
  uci_set, diff,
}
use openwrt_rmm.Agent.Shell.{
  reverted, diff_of, set_done, set_exported, preview_done, preview_set, preview_exported,
  preview_shown,
}

module _ {W : Type 0} (p : Programs W) where
  pub uci_backup_output-IsClean :
      (config : String) (s : Shell W)
      → safe_config config ≡ true
      → IsClean p s
      → Ends p (uci_backup_output p config s)
  unfolding uci_backup_output
  uci_backup_output-IsClean config s c h =
      let export = exec_command p ("uci" ∷ "export" ∷ config ∷ []) s in
      let run = (exec_command-IsClean p _ s (uci_on "export" config refl c) h).shell in
      record {
        shell =
            if_ind (IsClean p) (is_zero export.0.1)
              (save_export-IsClean p config export.0.0 export.1 run) run;
      }

  diff_of-IsClean :
      (o : Option (String × String)) (s : Shell W)
      → p.temporary ≡ o
      → IsClean p s
      → IsClean p (diff_of p o s).1
  unfolding diff_of
  diff_of-IsClean none s e h = h
  diff_of-IsClean (some (before, after)) s e h =
      (exec_command-IsClean p _ s (diff before after e) h).shell

  module _ (t : UciTarget) (c : safe_config t.config ≡ true)
      (n : (safe_section t.section && safe_option t.option) ≡ true) where
    set_done-IsClean :
        (commit : Bool) (backup output : String) (s : Shell W)
        → IsClean p s
        → Ends p (set_done p t commit backup output s)
    unfolding set_done
    set_done-IsClean commit backup output s h =
        if_ind (Ends p) commit
          (record {
            shell = (exec_command-IsClean p _ s (uci_on "commit" t.config refl c) h).shell;
          })
          (record { shell = h })

    set_exported-IsClean :
        (commit : Bool) (backup : String) (s : Shell W)
        → IsClean p s
        → Ends p (set_exported p t commit backup s)
    unfolding set_exported
    set_exported-IsClean commit backup s h =
        on_success-IsClean p _ (set_done p t commit backup)
          (exec_command-IsClean p _ (save_export p t.config backup s) (uci_set t c n)
            (save_export-IsClean p t.config backup s h))
          (set_done-IsClean commit backup)

    pub uci_set_output-IsClean :
        (commit : Bool) (s : Shell W) → IsClean p s → Ends p (uci_set_output p t commit s)
    unfolding uci_set_output
    uci_set_output-IsClean commit s h =
        on_success-IsClean p _ (set_exported p t commit)
          (exec_command-IsClean p _ s (uci_on "export" t.config refl c) h)
          (set_exported-IsClean commit)

    preview_done-IsClean :
        (backup before after : String) (s : Shell W)
        → IsClean p s
        → Ends p (preview_done p t backup before after s)
    unfolding preview_done unified_diff
    preview_done-IsClean backup before after s h = record {
      shell = diff_of-IsClean p.temporary s refl h;
    }

    preview_set-IsClean :
        (backup before output : String) (s : Shell W)
        → IsClean p s
        → Ends p (preview_set p t backup before output s)
    unfolding preview_set
    preview_set-IsClean backup before output s h =
        on_success-IsClean p _ (preview_done p t backup before)
          (exec_command-IsClean p _ s (uci_on "show" t.config refl c) h)
          (preview_done-IsClean backup before)

    preview_exported-IsClean :
        (before backup : String) (s : Shell W)
        → IsClean p s
        → Ends p (preview_exported p t before backup s)
    unfolding preview_exported reverted
    preview_exported-IsClean before backup s h =
        let set =
          on_success-IsClean p _ (preview_set p t backup before)
            (exec_command-IsClean p _ (save_export p t.config backup s) (uci_set t c n)
              (save_export-IsClean p t.config backup s h))
            (preview_set-IsClean backup before) in
        record {
          shell = (exec_command-IsClean p _ _ (uci_on "revert" t.config refl c) set.shell).shell;
        }

    preview_shown-IsClean :
        (before : String) (s : Shell W) → IsClean p s → Ends p (preview_shown p t before s)
    unfolding preview_shown
    preview_shown-IsClean before s h =
        on_success-IsClean p _ (preview_exported p t before)
          (exec_command-IsClean p _ s (uci_on "export" t.config refl c) h)
          (preview_exported-IsClean before)

    pub uci_preview_output-IsClean : (s : Shell W) → IsClean p s → Ends p (uci_preview_output p t s)
    unfolding uci_preview_output
    uci_preview_output-IsClean s h =
        on_success-IsClean p _ (preview_shown p t)
          (exec_command-IsClean p _ s (uci_on "show" t.config refl c) h) preview_shown-IsClean
