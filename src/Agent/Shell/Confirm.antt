-- ===== src/Agent/Shell/Confirm.antt =====
-- The commit of a configuration that is undone when the server is out of reach, and the restore of an
-- export, agent/go/cmd/rmm-agent/main.go.
pub mod Safe
use openwrt_rmm.Base.{
  ℕ, zero, suc, String, append, Bool, true, false, not, Option, none, some, List, [], ◌∷◌,
  if◌then◌else◌, ◌==◌,
}
use openwrt_rmm.Schema.{ℤ, pos, negsuc, is_zero}
use openwrt_rmm.Agent.Shell.{
  Answer, Programs, Shell, exec_command, exec_command_with_input, on_success, read_export,
}

-- confirmSeconds <= 0 gives 15.
abbrev confirm_time : ℤ → ℤ
confirm_time (pos (suc n)) = pos (suc n)
confirm_time _ = pos 15

module _ {W : Type 0} (p : Programs W) where
  rollback_answer : String → Answer → Answer → Answer
  rollback_answer text import commit =
      if not (is_zero import.1)
      then (text, import.1)
      else if not (is_zero commit.1)
      then (text, commit.1)
      else (text, pos 1)

  -- The export is imported and committed again.
  roll_back : String → ℤ → String → Option String → Shell W → Answer × Shell W
  unfolding exec_command exec_command_with_input rollback_answer
  roll_back config seconds output none s = (
    (
      append output
          (append "server unreachable and no backup file found for " (append config "\n")),
      pos 1,
    ),
    s,
  )
  roll_back config seconds output (some backup) s =
      let (import, s1) = exec_command_with_input p backup ("uci" ∷ "import" ∷ config ∷ []) s in
      let (commit, s2) = exec_command p ("uci" ∷ "commit" ∷ config ∷ []) s1 in
      let text = append output (
        append import.0 (
          append commit.0 (
            append "commit rolled back: server unreachable after "
              (append (p.decimal seconds) " seconds\n")))) in
      (rollback_answer text import commit, s2)

  after_wait : String → ℤ → String → Bool × W → Shell W → Answer × Shell W
  unfolding roll_back read_export
  after_wait config seconds output (elapsed, w) s =
      let waited = record s { world = w } in
      if not elapsed
      then ((append output "\ncommit confirmation cancelled\n", pos 1), waited)
      else if p.reachable w
      then (
        (
          append output (
              append "commit confirmed: server reachable after "
                (append (p.decimal seconds) " seconds\n")),
          pos 0,
        ),
        waited,
      )
      else roll_back config seconds output (read_export config s.exports) waited

  committed : String → ℤ → String → Shell W → Answer × Shell W
  unfolding after_wait
  committed config seconds output s = after_wait config seconds output (p.wait seconds s.world) s

  -- uciCommitConfirmedOutput
  unfoldable pub uci_commit_confirmed_output : String → ℤ → Shell W → Answer × Shell W
  unfolding exec_command on_success committed
  uci_commit_confirmed_output config confirm_seconds s =
      on_success p (exec_command p ("uci" ∷ "commit" ∷ config ∷ []) s)
        (committed config (confirm_time confirm_seconds))

  commit_import : String → String → Shell W → Answer × Shell W
  unfolding exec_command
  commit_import config output s =
      let ((text, code), after) = exec_command p ("uci" ∷ "commit" ∷ config ∷ []) s in
      ((append output text, code), after)

  import_export : String → Option String → Shell W → Answer × Shell W
  unfolding exec_command_with_input on_success commit_import
  import_export config none s =
      ((append "no backup file found for " (append config "\n"), pos 1), s)
  import_export config (some backup) s =
      on_success p (exec_command_with_input p backup ("uci" ∷ "import" ∷ config ∷ []) s)
        (commit_import config)

  -- uciRestoreOutput
  unfoldable pub uci_restore_output : String → Shell W → Answer × Shell W
  unfolding import_export read_export
  uci_restore_output config s = import_export config (read_export config s.exports) s
