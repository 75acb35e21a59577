-- ===== src/Agent/Profile/Restore/Back.antt =====
-- What a restore that succeeds leaves, agent/go/cmd/rmm-agent/profiles.go.
use Prim.Native.String.append.{cons}
use openwrt_rmm.Base.{
  ℕ, String, append, ◌≡◌, refl, ap, ◌∙◌, Bool, true, false, not, ◌&&◌, Option, none, some, List, [],
  ◌∷◌, eqb, ◌==◌, arith, Bool-cases, inl, inr,
}
use openwrt_rmm.Schema.{is_zero, ok}
use openwrt_rmm.Agent.Validate.{safe_session_id, all_runes, session_rune}
use openwrt_rmm.Agent.Profile.Disk.{
  Folder, read_file, write_file, ProfileTransaction, Disk, ProfilePlatform, service_of, LeavesFiles,
}
use openwrt_rmm.Agent.Profile.Restore.{
  ends_with, backup_name, safe_uci_config, reload_profile_config, unstage_and_reload, restore_bytes,
  restore_profile_transaction,
}

-- An identifier that is a safe name gives a safe name of its backup.
ends_with-append : (s : String) → ends_with (append s ".backup") ".backup" ≡ true
unfolding ends_with
ends_with-append String.[] = refl
ends_with-append (String.◌∷◌ c s) = rw (cons c s ".backup") (ground (arith, ends_with-append s))

all_runes-append :
    (s : String)
    → all_runes session_rune s ≡ true
    → all_runes (λ r. not (eqb r 47)) (append s ".backup") ≡ true
all_runes-append String.[] h = refl
all_runes-append (String.◌∷◌ c s) h = rw (cons c s ".backup") (ground (arith, all_runes-append s))

pub backup_name-append :
    (id : String) → safe_session_id id ≡ true → backup_name (append id ".backup") ≡ true
unfolding backup_name safe_session_id
backup_name-append id h = ground (arith, ends_with-append id, all_runes-append id)

module _ (p : ProfilePlatform) (laws : LeavesFiles p.run) where
  pub reload-configs :
      (name : String) (configs : Folder (List ℕ))
      → (reload_profile_config p name configs).1 ≡ configs
  unfolding reload_profile_config
  reload-configs name configs = elim (Bool-cases (service_of name == "")) [
    | inl e ↦ rw e refl
    | inr n ↦ rw n (laws.reload (append "/etc/init.d/" (service_of name)) configs)
  ]

  pub unstage-configs :
      (name : String) (configs : Folder (List ℕ)) → (unstage_and_reload p name configs).1 ≡ configs
  unfolding unstage_and_reload
  unstage-configs name configs =
      elim (Bool-cases (is_zero (p.run ("uci" ∷ "revert" ∷ name ∷ []) configs).code)) [
        | inl e ↦ rw e (reload-configs name _ ∙ laws.revert name configs)
        | inr n ↦ rw n (laws.revert name configs)
      ]

  -- A restore that reports success has put the backup in the place of the file.
  restore_bytes-some :
      (written : Bool) (t : ProfileTransaction) (original : List ℕ) (d : Disk)
      → (restore_bytes p written t (some original) d).0 ≡ ok tt
      → (restore_bytes p written t (some original) d).1
        ≡ record d { configs = write_file t.config original d.configs }
  unfolding restore_bytes
  restore_bytes-some false t original d h = elim (Bool-cases (p.digest original == t.backup_hash)) [
    | inl e ↦ ground (arith, rw e at h)
    | inr n ↦ ground (arith, rw n at h)
  ]
  restore_bytes-some true t original d h = elim (Bool-cases (p.digest original == t.backup_hash)) [
    | inl e ↦ rw e (
        ap (λ c. record d { configs = c })
          (unstage-configs t.config (write_file t.config original d.configs)))
    | inr n ↦ ground (arith, rw n at h)
  ]

  pub restored :
      (written : Bool) (t : ProfileTransaction) (original : List ℕ) (d : Disk)
      → read_file t.backup d.backups ≡ some original
      → (restore_profile_transaction p written t d).0 ≡ ok tt
      → (restore_profile_transaction p written t d).1
        ≡ record d { configs = write_file t.config original d.configs }
  unfolding restore_profile_transaction
  restored written t original d e h =
      elim (Bool-cases (safe_uci_config t.config && backup_name t.backup)) [
        | inl y ↦ rw (y, e) (restore_bytes-some written t original d (rw (y, e) at h))
        | inr n ↦ ground (arith, rw n at h)
      ]

-- A restore touches the configuration files only.
pub record OnlyConfigs (d e : Disk) : Type 0 where
  pub journals : e.journals ≡ d.journals
  pub backups : e.backups ≡ d.backups
  pub receipts : e.receipts ≡ d.receipts

module _ (p : ProfilePlatform) (written : Bool) (t : ProfileTransaction) (d : Disk) where
  restore_bytes-OnlyConfigs :
      (o : Option (List ℕ)) → OnlyConfigs d (restore_bytes p written t o d).1
  unfolding restore_bytes
  restore_bytes-OnlyConfigs none = record { journals = refl; backups = refl; receipts = refl }
  restore_bytes-OnlyConfigs (some original) =
      elim (Bool-cases (p.digest original == t.backup_hash)) [
        | inl e ↦ elim (Bool-cases written) [
          | inl w ↦ simp (e, w) (record { journals = refl; backups = refl; receipts = refl })
          | inr w ↦ simp (e, w) (record { journals = refl; backups = refl; receipts = refl })
        ]
        | inr n ↦ simp n (record { journals = refl; backups = refl; receipts = refl })
      ]

  pub restore-OnlyConfigs : OnlyConfigs d (restore_profile_transaction p written t d).1
  unfolding restore_profile_transaction
  restore-OnlyConfigs = elim (Bool-cases (safe_uci_config t.config && backup_name t.backup)) [
    | inl y ↦ simp y (restore_bytes-OnlyConfigs (read_file t.backup d.backups))
    | inr n ↦ simp n (record { journals = refl; backups = refl; receipts = refl })
  ]
