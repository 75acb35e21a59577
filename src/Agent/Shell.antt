-- ===== src/Agent/Shell.antt =====
-- The programs that the agent runs for a command, agent/go/cmd/rmm-agent/main.go: execCommand,
-- runPackageCommand and the uci operations. What a program does is a parameter (`Programs`).
pub mod Confirm
pub mod Commands
pub mod Allowed
use openwrt_rmm.Base.{
  ℕ, String, append, Bool, true, false, not, Option, none, some, List, [], ◌∷◌, if◌then◌else◌, ◌==◌,
}
use openwrt_rmm.Schema.{ℤ, pos, negsuc, is_zero, Json}

-- The output of a program and its exit code.
abbrev pub Answer : Type 0
Answer = String × ℤ

-- The router's programs, by their command lines and what they read, and what the code asks of the
-- packages os, strconv and fmt and of the network. `temporary` is the names of two temporary files,
-- when they could be made and there is a program diff.
pub record Programs (W : Type 0) : Type 0 where
  pub exec : List String → W → Answer × W
  pub exec_input : String → List String → W → Answer × W
  pub package_manager : String
  pub saves : Bool
  pub temporary : Option (String × String)
  pub wait : ℤ → W → Bool × W
  pub reachable : W → Bool
  pub atoi : String → Option ℤ
  pub decimal : ℤ → String
  pub quote : String → String
  pub read_args : Json → List (String × String)

-- The router, the command lines that were run on it, the last first, and the files of BackupDir.
pub record Shell (W : Type 0) : Type 0 where
  pub world : W
  pub lines : List (List String)
  pub exports : List (String × String)

-- The target of a uci command.
pub record UciTarget : Type 0 where
  pub config : String
  pub section : String
  pub option : String
  pub value : String

unfoldable pub read_export : String → List (String × String) → Option String
read_export name [] = none
read_export name ((n, text) ∷ rest) =
    let found = read_export name rest in if n == name then some text else found

module _ {W : Type 0} (p : Programs W) where
  -- execCommand
  unfoldable pub exec_command : List String → Shell W → Answer × Shell W
  exec_command line s =
      let (a, w) = p.exec line s.world in (a, record s { world = w; lines = line ∷ s.lines })

  -- execCommandWithInput
  unfoldable pub exec_command_with_input : String → List String → Shell W → Answer × Shell W
  exec_command_with_input input line s =
      let (a, w) = p.exec_input input line s.world in
      (a, record s { world = w; lines = line ∷ s.lines })

  -- What follows a program that succeeded; otherwise its output and its code.
  unfoldable pub on_success :
      Answer × Shell W → (String → Shell W → Answer × Shell W) → Answer × Shell W
  on_success ((output, code), s) more = if is_zero code then more output s else ((output, code), s)

  -- os.WriteFile of an export, whose error is ignored
  unfoldable pub save_export : String → String → Shell W → Shell W
  save_export config text s =
      if p.saves then record s { exports = (config, text) ∷ s.exports } else s

  -- uciBackupOutput
  unfoldable pub uci_backup_output : String → Shell W → Answer × Shell W
  unfolding save_export exec_command
  uci_backup_output config s =
      let ((backup, code), t) = exec_command ("uci" ∷ "export" ∷ config ∷ []) s in
      (
        (append "BACKUP " (append config (append "\n" backup)), code),
        if is_zero code then save_export config backup t else t,
      )

  abbrev pub set_argument : UciTarget → String
  set_argument t =
      append t.config
        (append "." (append t.section (append "." (append t.option (append "=" t.value)))))

  abbrev option_name : UciTarget → String
  option_name t = append t.config (append "." (append t.section (append "." t.option)))

  set_done : UciTarget → Bool → String → String → Shell W → Answer × Shell W
  unfolding exec_command
  set_done t commit backup output s =
      let head = append "BACKUP\n" (append backup "\n\n") in
      let ((text, code), after) = exec_command ("uci" ∷ "commit" ∷ t.config ∷ []) s in
      if commit
      then ((append head text, code), after)
      else ((append head (append "uci set staged: " (append (option_name t) "\n")), pos 0), s)

  set_exported : UciTarget → Bool → String → Shell W → Answer × Shell W
  unfolding save_export exec_command on_success set_done
  set_exported t commit backup s =
      on_success
        (exec_command ("uci" ∷ "set" ∷ set_argument t ∷ []) (save_export t.config backup s))
        (set_done t commit backup)

  -- uciSetOutput
  unfoldable pub uci_set_output : UciTarget → Bool → Shell W → Answer × Shell W
  unfolding exec_command on_success set_exported
  uci_set_output t commit s =
      on_success (exec_command ("uci" ∷ "export" ∷ t.config ∷ []) s) (set_exported t commit)

  -- unifiedDiff
  diff_of : Option (String × String) → Shell W → String × Shell W
  unfolding exec_command
  diff_of none s = ("", s)
  diff_of (some (before, after)) s =
      let ((output, code), t) = exec_command ("diff" ∷ "-u" ∷ before ∷ after ∷ []) s in (output, t)

  unfoldable pub unified_diff : Shell W → String × Shell W
  unfolding diff_of
  unified_diff s = diff_of p.temporary s

  preview_text : UciTarget → String → String → String → String → String
  preview_text t diff backup before after = append "PREVIEW " (
      append (option_name t) (
        append "\n\nCHANGE\n" (
          append (set_argument t) (
            append "\n" (
              append (if diff == "" then "" else append "\nDIFF\n" (append diff "\n")) (
                append "\nBACKUP\n" (
                  append backup (
                    append "\n\nBEFORE\n"
                      (append before (append "\n\nAFTER\n" (append after "\n")))))))))))

  -- The deferred uci revert
  reverted : String → Answer × Shell W → Answer × Shell W
  unfolding exec_command
  reverted config (a, s) = (a, (exec_command ("uci" ∷ "revert" ∷ config ∷ []) s).1)

  preview_done : UciTarget → String → String → String → Shell W → Answer × Shell W
  unfolding unified_diff preview_text
  preview_done t backup before after s =
      let (diff, s') = unified_diff s in ((preview_text t diff backup before after, pos 0), s')

  preview_set : UciTarget → String → String → String → Shell W → Answer × Shell W
  unfolding exec_command on_success preview_done
  preview_set t backup before output s =
      on_success (exec_command ("uci" ∷ "show" ∷ t.config ∷ []) s) (preview_done t backup before)

  preview_exported : UciTarget → String → String → Shell W → Answer × Shell W
  unfolding save_export exec_command on_success preview_set reverted
  preview_exported t before backup s = reverted t.config (
      on_success
        (exec_command ("uci" ∷ "set" ∷ set_argument t ∷ []) (save_export t.config backup s))
        (preview_set t backup before))

  preview_shown : UciTarget → String → Shell W → Answer × Shell W
  unfolding exec_command on_success preview_exported
  preview_shown t before s =
      on_success (exec_command ("uci" ∷ "export" ∷ t.config ∷ []) s) (preview_exported t before)

  -- uciPreviewOutput
  unfoldable pub uci_preview_output : UciTarget → Shell W → Answer × Shell W
  unfolding exec_command on_success preview_shown
  uci_preview_output t s =
      on_success (exec_command ("uci" ∷ "show" ∷ t.config ∷ []) s) (preview_shown t)
