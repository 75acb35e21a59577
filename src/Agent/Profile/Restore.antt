-- ===== src/Agent/Profile/Restore.antt =====
-- The way back to a backup, agent/go/cmd/rmm-agent/profiles.go: restoreProfileTransaction,
-- rollbackFleetProfile and recoverFleetProfiles.
pub mod Back
pub mod Success
use openwrt_rmm.Base.{
  ℕ, ◌-◌, String, append, len, Bool, true, false, not, ◌&&◌, ◌||◌, Option, none, some, List, [],
  ◌∷◌, contains, eqb, leb, if◌then◌else◌, ◌==◌,
}
use openwrt_rmm.Schema.{ℤ, is_zero, Check, other, Result, ok, err, ◌>>=◌, ◌>>◌, guard}
use openwrt_rmm.Agent.Validate.{safe_session_id, all_runes}
use openwrt_rmm.Agent.Profile.{configurations}
use openwrt_rmm.Agent.Profile.Disk.{
  Folder, read_file, write_file, remove_file, ProfileTransaction, Disk, ProfilePlatform, service_of,
}

-- Which steps of the file system work: the write of a configuration, and the removal of a journal.
pub record RestoreFaults : Type 0 where
  pub written : Bool
  pub removed : Bool

-- safeUCIConfig
abbrev pub safe_uci_config : String → Bool
safe_uci_config name = contains configurations name

-- strings.HasSuffix
ends_with : String → String → Bool
ends_with String.[] suffix = suffix == ""
ends_with (String.◌∷◌ c s) suffix =
    let rest = ends_with s suffix in (String.◌∷◌ c s == suffix) || rest

-- filepath.Base(name) == name && strings.HasSuffix(name, ".backup")
unfoldable pub backup_name : String → Bool
unfolding ends_with
backup_name name = all_runes (λ r. not (eqb r 47)) name && ends_with name ".backup"

module _ (p : ProfilePlatform) where
  -- reloadProfileConfig
  unfoldable pub reload_profile_config : String → Folder (List ℕ) → Check × Folder (List ℕ)
  reload_profile_config name configs =
      if service_of name == ""
      then (err (other "invalid profile configuration"), configs)
      else let ran = p.run (append "/etc/init.d/" (service_of name) ∷ "reload" ∷ []) configs in
        (guard (is_zero ran.code) (other "profile reload failed"), ran.configs)

  -- uci revert, and the reload
  pub unstage_and_reload : String → Folder (List ℕ) → Check × Folder (List ℕ)
  unfolding reload_profile_config
  unstage_and_reload name configs =
      let ran = p.run ("uci" ∷ "revert" ∷ name ∷ []) configs in
      if is_zero ran.code
      then reload_profile_config name ran.configs
      else (err (other "rollback staging cleanup failed"), ran.configs)

  restore_bytes : Bool → ProfileTransaction → Option (List ℕ) → Disk → Check × Disk
  unfolding unstage_and_reload
  restore_bytes written t none d = (err (other "no such file"), d)
  restore_bytes written t (some original) d =
      let back = unstage_and_reload t.config (write_file t.config original d.configs) in
      if not (p.digest original == t.backup_hash)
      then (err (other "rollback backup checksum mismatch"), d)
      else if not written
      then (err (other "write failed"), d)
      else (back.0, record d { configs = back.1 })

  -- restoreProfileTransaction
  unfoldable pub restore_profile_transaction : Bool → ProfileTransaction → Disk → Check × Disk
  unfolding restore_bytes backup_name
  restore_profile_transaction written t d =
      if safe_uci_config t.config && backup_name t.backup
      then restore_bytes written t (read_file t.backup d.backups) d
      else (err (other "invalid rollback journal"), d)

  rolled_back : Check × Disk → (String × ℕ) × Disk
  rolled_back (ok u, d) = (("profile rolled back to retained backup\n", 0), d)
  rolled_back (err e, d) = (("profile rollback failed\n", 1), d)

  -- The configuration is the one that the profile left.
  unchanged_since : ProfileTransaction → Option (List ℕ) → Bool
  unchanged_since t none = false
  unchanged_since t (some current) = p.digest current == t.applied_hash

  rollback_receipt : Bool → Option ProfileTransaction → Disk → (String × ℕ) × Disk
  unfolding rolled_back unchanged_since
  rollback_receipt written none d = (("rollback receipt unavailable\n", 1), d)
  rollback_receipt written (some t) d =
      if not (safe_uci_config t.config)
      then (("invalid rollback receipt\n", 1), d)
      else if not (unchanged_since t (read_file t.config d.configs))
      then (("configuration changed since apply; refusing overwrite\n", 1), d)
      else rolled_back (restore_profile_transaction written t d)

  -- rollbackFleetProfile: its output and its exit code.
  unfoldable pub rollback_fleet_profile : Bool → String → Disk → (String × ℕ) × Disk
  unfolding rollback_receipt
  rollback_fleet_profile written apply_id d =
      if safe_session_id apply_id
      then rollback_receipt written (read_file apply_id d.receipts) d
      else (("invalid rollback receipt\n", 2), d)

  -- What follows the restore of one journal: its removal.
  after_restore : RestoreFaults → String → Check × Disk → Check × Disk
  after_restore f id (err e, d) = (err e, d)
  after_restore f id (ok u, d) =
      if f.removed
      then (ok tt, record d { journals = remove_file id d.journals })
      else (err (other "remove failed"), d)

  and_then : Check × Disk → (Disk → Check × Disk) → Check × Disk
  and_then (err e, d) more = (err e, d)
  and_then (ok u, d) more = more d

  recover_journals : (String → RestoreFaults) → Folder ProfileTransaction → Disk → Check × Disk
  unfolding after_restore and_then
  recover_journals f [] d = (ok tt, d)
  recover_journals f ((id, t) ∷ js) d =
      and_then (after_restore (f id) id (restore_profile_transaction (f id).written t d))
        (recover_journals f js)

  -- recoverFleetProfiles, over the journals that the directory lists.
  unfoldable pub recover_fleet_profiles : (String → RestoreFaults) → Disk → Check × Disk
  unfolding recover_journals
  recover_fleet_profiles f d = recover_journals f d.journals d
