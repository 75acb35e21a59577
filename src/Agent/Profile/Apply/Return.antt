-- ===== src/Agent/Profile/Apply/Return.antt =====
-- The way back after an apply, agent/go/cmd/rmm-agent/profiles.go: the recovery at the next start, and
-- the rollback by the receipt.
use openwrt_rmm.Base.{ℕ, String, ◌≡◌, refl, ap, true, List, [], ◌∷◌, contains}
use openwrt_rmm.Schema.{ok}
use openwrt_rmm.Agent.Validate.{safe_session_id}
use openwrt_rmm.Agent.Profile.{Profile, configurations}
use openwrt_rmm.Agent.Profile.Disk.{read_file-write, Disk, ProfilePlatform, LeavesFiles}
use openwrt_rmm.Agent.Profile.Restore.{
  RestoreFaults, rollback_fleet_profile, recover_fleet_profiles,
}
use openwrt_rmm.Agent.Profile.Restore.Back.{backup_name-append}
use openwrt_rmm.Agent.Profile.Restore.Success.{Works, rollback_lem, recover_one}
use openwrt_rmm.Agent.Profile.Apply.{transaction_of}
use openwrt_rmm.Agent.Profile.Apply.Undo.{IsRecoverable, IsApplied, IsBack}

module _ (p : ProfilePlatform) (laws : LeavesFiles p.run) (works : Works p.run) (id : String)
    (safe : safe_session_id id ≡ true) (profile : Profile)
    (supported : contains configurations profile.config ≡ true) (original : List ℕ) where
  -- When the agent starts on a disk that an apply left with the way back open, whatever became of the
  -- configuration files meanwhile, and that journal is the only one, then with working programs and
  -- file system the file is again as it was before the apply and no journal is left. The profile's
  -- configuration is a supported one and the identifier a safe name.
  pub recover_fleet_profiles-IsBack :
      (f : String → RestoreFaults) (d : Disk)
      → f id ≡ record { written = true; removed = true }
      → d.journals ≡ (id, transaction_of p id profile original) ∷ []
      → IsRecoverable p laws id profile original d
      → ((recover_fleet_profiles p f d).0 ≡ ok tt)
        × IsBack p laws id profile original (recover_fleet_profiles p f d).1
        × ((recover_fleet_profiles p f d).1.journals ≡ [])
  recover_fleet_profiles-IsBack f d working only h =
      let t = transaction_of p id profile original in
      let named = backup_name-append id safe in
      let whole =
        recover_one p laws works t supported named original refl f id d working only h.backup in
      (
        ap (λ x. x.0) whole,
        rw whole (read_file-write profile.config original d.configs),
        ap (λ x. x.1.journals) whole,
      )

  -- A rollback by the receipt of an apply that succeeded, on the disk that it left and with working
  -- programs and file system, succeeds, and the file is again as it was before the apply. The
  -- profile's configuration is a supported one and the identifier a safe name.
  pub rollback_fleet_profile-IsBack :
      (d : Disk)
      → IsApplied p laws id profile original d
      → ((rollback_fleet_profile p true id d).0.1 ≡ 0)
        × IsBack p laws id profile original (rollback_fleet_profile p true id d).1
  rollback_fleet_profile-IsBack d h =
      let receipt = record (transaction_of p id profile original) {
        applied_hash = p.digest h.current;
      } in
      let whole =
        rollback_lem p laws works receipt supported (backup_name-append id safe) original refl id d
          safe h.receipt h.current h.present refl h.backup in
      (ap (λ x. x.0.1) whole, rw whole (read_file-write profile.config original d.configs))
