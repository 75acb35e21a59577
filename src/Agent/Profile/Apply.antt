-- ===== src/Agent/Profile/Apply.antt =====
-- The apply of a profile, agent/go/cmd/rmm-agent/profiles.go (runFleetProfile): a backup and a journal
-- are kept until the server is reached again.
pub mod Undo
pub mod Return
use Prim.Native.String.{slice}
use openwrt_rmm.Base.{
  ℕ, ◌+◌, ◌-◌, String, append, len, Bool, true, false, not, ◌&&◌, ◌||◌, Option, none, some, List,
  [], ◌∷◌, ◌++◌, any, length, eqb, leb, ltb, if◌then◌else◌, ◌==◌, trim_space,
}
use openwrt_rmm.Schema.{ℤ, pos, is_zero, Check, other, Result, ok, err, ◌>>=◌, ◌>>◌, guard}
use openwrt_rmm.Env.{minutes}
use openwrt_rmm.Agent.{AgentCommand}
use openwrt_rmm.Agent.Validate.{safe_session_id}
use openwrt_rmm.Agent.Profile.{UciOption, Profile, option_key, validate, sensitive}
use openwrt_rmm.Agent.Profile.Disk.{
  Folder, read_file, write_file, remove_file, ProfileTicket, ProfileTransaction, ProfileChange,
  Disk, ProfilePlatform,
}
use openwrt_rmm.Agent.Profile.Preview.{ProfileFaults, Answer}
use openwrt_rmm.Agent.Profile.Restore.{
  reload_profile_config, restore_profile_transaction, rollback_fleet_profile,
}

module _ (p : ProfilePlatform) where
  -- uci set for each option, up to the first that fails.
  unfoldable pub set_options : String → List UciOption → Folder (List ℕ) → Bool × Folder (List ℕ)
  set_options config [] configs = (true, configs)
  set_options config (o ∷ os) configs =
      let value = append config (append "." (append (option_key o) (append "=" o.value))) in
      let ran = p.run ("uci" ∷ "set" ∷ value ∷ []) configs in
      let rest = set_options config os ran.configs in
      if is_zero ran.code then rest else (false, ran.configs)

  -- The options are set, committed and read by the service again: an error, and the files.
  write_profile : Profile → Folder (List ℕ) → Check × Folder (List ℕ)
  unfolding set_options reload_profile_config
  write_profile profile configs =
      let staged = set_options profile.config profile.options configs in
      let committed = p.run ("uci" ∷ "commit" ∷ profile.config ∷ []) staged.1 in
      let reloaded = reload_profile_config p profile.config committed.configs in
      if not staged.0
      then (err (other "profile staging failed; rolling back\n"), staged.1)
      else if not (is_zero committed.code)
      then (err (other "profile commit failed; rolling back\n"), committed.configs)
      else (
        elim reloaded.0 [
          | ok u ↦ ok tt
          | err e ↦ err (other "configuration reload failed; rolling back\n")
        ],
        reloaded.1,
      )

  -- The receipt is written and the journal removed.
  confirm : ProfileFaults → String → ProfileTransaction → Option (List ℕ) → Disk → Check × Disk
  confirm f id t none d = (err (other "cannot verify applied configuration; rolling back\n"), d)
  confirm f id t (some applied) d =
      let receipt = record t { applied_hash = p.digest applied } in
      let received = record d { receipts = write_file id receipt d.receipts } in
      if not f.receipt_written
      then (err (other "cannot persist rollback receipt; rolling back\n"), d)
      else if not f.journal_removed
      then (err (other "cannot confirm rollback journal; rolling back\n"), received)
      else (ok tt, record received { journals = remove_file id d.journals })

  confirm_reached :
      ProfileFaults → String → ProfileTransaction → Check × Folder (List ℕ) → Disk → Check × Disk
  unfolding confirm
  confirm_reached f id t (err e, configs) d = (err e, record d { configs = configs })
  confirm_reached f id t (ok u, configs) d =
      let written = record d { configs = configs } in
      if f.waited && f.reachable
      then confirm f id t (read_file t.config configs) written
      else (err (other "server unreachable after apply; rolling back\n"), written)

  -- What happens after the journal is written, up to the confirmation.
  change_and_confirm : ProfileFaults → String → Profile → ProfileTransaction → Disk → Check × Disk
  unfolding confirm_reached write_profile
  change_and_confirm f id profile t d = confirm_reached f id t (write_profile profile d.configs) d

  message_of : Check → String
  message_of (ok u) = "profile applied; backup retained; server connectivity confirmed\n"
  message_of (err (other text)) = text
  message_of (err e) = ""

  removed_journal : ProfileFaults → String → Check × Disk → Disk
  removed_journal f id (err e, d) = d
  removed_journal f id (ok u, d) =
      if f.restored_removed then record d { journals = remove_file id d.journals } else d

  -- The deferred function: without a confirmation the backup is restored.
  finish_apply : ProfileFaults → String → ProfileTransaction → Check × Disk → Answer × Disk
  unfolding message_of removed_journal
  finish_apply f id t (ok u, d) = ((message_of (ok u), 0), d)
  finish_apply f id t (err e, d) = (
    (message_of (err e), 1),
    removed_journal f id (restore_profile_transaction p f.restored_written t d),
  )

  -- The ticket of the preview names the files and the profile as they are, and has not expired.
  matches : ℕ → ProfileTicket → ProfileTicket → Bool
  matches now ticket previous =
      (previous.config == ticket.config)
      && (previous.base_hash == ticket.base_hash)
      && (previous.desired_hash == ticket.desired_hash)
      && ltb now previous.expires_at

  -- The journal's transaction.
  abbrev pub transaction_of : String → Profile → List ℕ → ProfileTransaction
  transaction_of id profile original = record {
    config = profile.config;
    backup = append id ".backup";
    backup_hash = p.digest original;
    applied_hash = "";
  }

  abbrev with_backup : String → List ℕ → Disk → Disk
  with_backup id original d = record d {
    backups = write_file (append id ".backup") original d.backups;
  }

  -- The disk when the backup and the journal are written, before the first change.
  abbrev pub journaled : String → Profile → List ℕ → Disk → Disk
  journaled id profile original d = record (with_backup id original d) {
    journals = write_file id (transaction_of id profile original) d.journals;
  }

  apply_with_ticket :
      ProfileFaults
      → String
      → Profile
      → List ℕ
      → ProfileTicket
      → Option ProfileTicket
      → Disk
      → Answer × Disk
  unfolding matches finish_apply change_and_confirm
  apply_with_ticket f id profile original ticket none d = (("preview ticket unavailable\n", 1), d)
  apply_with_ticket f id profile original ticket (some previous) d =
      let t = transaction_of id profile original in
      if not (matches f.now ticket previous)
      then (("configuration or profile changed; preview again\n", 1), d)
      else if not f.backup_written
      then (("backup failed; configuration unchanged\n", 1), d)
      else if not f.journal_written
      then (("rollback journal failed; configuration unchanged\n", 1), with_backup id original d)
      else finish_apply f id t (change_and_confirm f id profile t (journaled id profile original d))

  -- uci_profile_apply
  unfoldable pub apply_profile :
      ProfileFaults → String → String → Profile → List ℕ → ProfileTicket → Disk → Answer × Disk
  unfolding apply_with_ticket
  apply_profile f id preview_id profile original ticket d =
      if safe_session_id preview_id
      then apply_with_ticket f id profile original ticket (read_file preview_id d.previews) d
      else (("profile apply requires a successful preview\n", 2), d)
