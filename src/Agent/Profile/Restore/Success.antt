-- ===== src/Agent/Profile/Restore/Success.antt =====
-- That a restore succeeds when the programs and the file system do, and with it the recovery and the
-- rollback, agent/go/cmd/rmm-agent/profiles.go.
use openwrt_rmm.Base.{
  ℕ, String, append, ◌≡◌, refl, true, false, some, List, [], ◌∷◌, contains, ◌==◌, arith, Bool-cases,
  inl, inr, eq_iff, eq_refl,
}
use openwrt_rmm.Schema.{is_zero, ok}
use openwrt_rmm.Agent.Validate.{safe_session_id}
use openwrt_rmm.Agent.Profile.Disk.{
  Folder, read_file, write_file, remove_file, ProfileTransaction, Disk, ProfilePlatform, service_of,
  LeavesFiles, Ran,
}
use openwrt_rmm.Agent.Profile.Restore.{
  backup_name, reload_profile_config, unstage_and_reload, restore_bytes,
  restore_profile_transaction, RestoreFaults, recover_journals, after_restore, and_then,
  recover_fleet_profiles, rollback_fleet_profile, rollback_receipt, rolled_back, unchanged_since,
}
use openwrt_rmm.Agent.Profile.{configurations}
use openwrt_rmm.Agent.Profile.Restore.Back.{unstage-configs}

-- The programs that a restore runs succeed.
pub record Works (run : List String → Folder (List ℕ) → Ran) : Type 0 where
  pub reverts :
      (name : String) (configs : Folder (List ℕ))
      → is_zero (run ("uci" ∷ "revert" ∷ name ∷ []) configs).code ≡ true
  pub reloads :
      (script : String) (configs : Folder (List ℕ))
      → is_zero (run (script ∷ "reload" ∷ []) configs).code ≡ true

service_known :
    (name : String) → contains configurations name ≡ true → (service_of name == "") ≡ false
unfolding service_of
service_known name h = elim (Bool-cases (name == "system")) [
  | inl a ↦ rw a refl
  | inr a ↦ elim (Bool-cases (name == "network")) [
    | inl b ↦ rw (a, b) refl
    | inr b ↦ elim (Bool-cases (name == "wireless")) [
      | inl c ↦ rw (a, b, c) refl
      | inr c ↦ elim (Bool-cases (name == "dhcp")) [
        | inl d ↦ rw (a, b, c, d) refl
        | inr d ↦ elim (Bool-cases (name == "firewall")) [
          | inl e ↦ rw (a, b, c, d, e) refl
          | inr e ↦ ground (
            arith,
            eq_iff "system" name,
            eq_iff "network" name,
            eq_iff "wireless" name,
            eq_iff "dhcp" name,
            eq_iff "firewall" name,
            eq_iff name "system",
            eq_iff name "network",
            eq_iff name "wireless",
            eq_iff name "dhcp",
            eq_iff name "firewall",
          )
        ]
      ]
    ]
  ]
]

module _ (p : ProfilePlatform) (laws : LeavesFiles p.run) (works : Works p.run)
    (t : ProfileTransaction) (supported : contains configurations t.config ≡ true)
    (named : backup_name t.backup ≡ true) (original : List ℕ)
    (sound : p.digest original ≡ t.backup_hash) where
  unstage_ok : (configs : Folder (List ℕ)) → (unstage_and_reload p t.config configs).0 ≡ ok tt
  unfolding unstage_and_reload reload_profile_config
  unstage_ok configs = simp (
    works.reverts t.config configs,
    service_known t.config supported,
    works.reloads (append "/etc/init.d/" (service_of t.config))
        (p.run ("uci" ∷ "revert" ∷ t.config ∷ []) configs).configs,
  )

  -- With a backup that is there and sound, a supported configuration, and programs and a file system
  -- that work, a restore succeeds, and the file is the backup.
  pub restore_ok :
      (d : Disk)
      → read_file t.backup d.backups ≡ some original
      → restore_profile_transaction p true t d
        ≡ (ok tt, record d { configs = write_file t.config original d.configs })
  unfolding restore_profile_transaction restore_bytes
  restore_ok d e =
      let hash : (p.digest original == t.backup_hash) ≡ true = rw sound (eq_refl t.backup_hash) in
      let files = unstage-configs p laws t.config (write_file t.config original d.configs) in
      simp (supported, named, e, hash, unstage_ok (write_file t.config original d.configs), files)

  pub recover_one :
      (f : String → RestoreFaults) (id : String) (d : Disk)
      → f id ≡ record { written = true; removed = true }
      → d.journals ≡ (id, t) ∷ []
      → read_file t.backup d.backups ≡ some original
      → recover_fleet_profiles p f d
        ≡ (ok tt, record d { configs = write_file t.config original d.configs; journals = [] })
  unfolding recover_fleet_profiles recover_journals after_restore and_then remove_file
  recover_one f id d working only e = simp (only, working, restore_ok d e, eq_refl id)

  pub rollback_lem :
      (id : String) (d : Disk)
      → safe_session_id id ≡ true
      → read_file id d.receipts ≡ some t
      → (current : List ℕ) → read_file t.config d.configs ≡ some current
      → p.digest current ≡ t.applied_hash
      → read_file t.backup d.backups ≡ some original
      → rollback_fleet_profile p true id d ≡ (
        ("profile rolled back to retained backup\n", 0),
        record d { configs = write_file t.config original d.configs },
      )
  unfolding rollback_fleet_profile rollback_receipt rolled_back unchanged_since
  rollback_lem id d safe r current here same e =
      let hash : (p.digest current == t.applied_hash) ≡ true = rw same (eq_refl t.applied_hash) in
      simp (safe, r, supported, here, hash, restore_ok d e)
