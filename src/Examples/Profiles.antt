-- ===== src/Examples/Profiles.antt =====
-- A profile on a concrete router.
use openwrt_rmm.Base.{
  ℕ, String, append, ◌≡◌, refl, Bool, true, false, some, List, [], ◌∷◌, map, ◌==◌, if◌then◌else◌,
}
use openwrt_rmm.Schema.{pos, ok}
use openwrt_rmm.Env.{minutes}
use openwrt_rmm.Agent.Validate.{safe_session_id}
use openwrt_rmm.Agent.Profile.{Profile}
use openwrt_rmm.Agent.Profile.Disk.{
  Folder, read_file, Disk, ProfilePlatform, ProfileTicket, Ran, LeavesFiles,
}
use openwrt_rmm.Agent.Profile.Preview.{ProfileFaults}
use openwrt_rmm.Agent.Profile.Restore.{recover_fleet_profiles, rollback_fleet_profile}
use openwrt_rmm.Agent.Profile.Restore.Success.{Works}
use openwrt_rmm.Agent.Profile.Apply.{apply_profile, transaction_of}
use openwrt_rmm.Agent.Profile.Apply.Undo.{Ends, IsBack, apply_profile-Ends}
use openwrt_rmm.Agent.Profile.Apply.Return.{
  recover_fleet_profiles-IsBack, rollback_fleet_profile-IsBack,
}

-- Programs that succeed, and a commit that writes a byte to each file.
abbrev is_commit : List String → Bool
is_commit (a ∷ b ∷ c ∷ []) = b == "commit"
is_commit _ = false

abbrev longer : String × List ℕ → String × List ℕ
longer (name, bytes) = (name, 1 ∷ bytes)

abbrev run : List String → Folder (List ℕ) → Ran
run args configs = record {
  output = "";
  code = pos 0;
  configs = if is_commit args then map longer configs else configs;
}

abbrev hostname : Profile
hostname = record {
  config = "system";
  options = record { section = "@system[0]"; option = "hostname"; value = "attic" } ∷ [];
}

abbrev marks : List ℕ → String
marks [] = ""
marks (x ∷ xs) = append "x" (marks xs)

abbrev programs : ProfilePlatform
programs = record {
  digest = marks;
  parse_profile = λ s. some hostname;
  marshal_profile = λ p. [];
  marshal_report = λ cs t id. "";
  lower = λ s. s;
  run = run;
}

leaves : LeavesFiles run
leaves = record {
  changes = λ name configs. refl;
  revert = λ name configs. refl;
  reload = λ script configs. refl;
}

works : Works run
works = record { reverts = λ name configs. refl; reloads = λ script configs. refl }

abbrev bytes : List ℕ
bytes = 5 ∷ 6 ∷ []

abbrev ticket : ProfileTicket
ticket = record {
  config = "system";
  base_hash = marks bytes;
  desired_hash = "";
  expires_at = minutes 30;
}

abbrev previewed : Disk
previewed = record {
  configs = ("system", bytes) ∷ [];
  previews = ("cmd_1", ticket) ∷ [];
  backups = [];
  journals = [];
  receipts = [];
}

-- The server is not reached after the apply.
abbrev cut_off : ProfileFaults
cut_off = record {
  now = minutes 10;
  preview_written = true;
  backup_written = true;
  journal_written = true;
  waited = true;
  reachable = false;
  receipt_written = true;
  journal_removed = true;
  restored_written = true;
  restored_removed = true;
}

apply_profile-Ends_example :
    Ends programs leaves "cmd_2" hostname bytes cut_off
      (apply_profile programs cut_off "cmd_2" "cmd_1" hostname bytes ticket previewed)
unfolding read_file
apply_profile-Ends_example =
    apply_profile-Ends programs leaves "cmd_2" hostname bytes cut_off "cmd_1" ticket previewed refl

-- The agent stopped after the commit.
abbrev cut_short : Disk
cut_short = record {
  configs = ("system", 1 ∷ bytes) ∷ [];
  previews = ("cmd_1", ticket) ∷ [];
  backups = ("cmd_2.backup", bytes) ∷ [];
  journals = ("cmd_2", transaction_of programs "cmd_2" hostname bytes) ∷ [];
  receipts = [];
}

recover_fleet_profiles-IsBack_example :
    ((recover_fleet_profiles programs (λ id. record { written = true; removed = true }) cut_short).0
      ≡ ok tt)
    × IsBack programs leaves "cmd_2" hostname bytes
        (recover_fleet_profiles programs
          (λ id. record { written = true; removed = true })
          cut_short).1
    × ((recover_fleet_profiles programs
          (λ id. record { written = true; removed = true })
          cut_short).1.journals
        ≡ [])
unfolding safe_session_id read_file
recover_fleet_profiles-IsBack_example =
    recover_fleet_profiles-IsBack programs leaves works "cmd_2" refl hostname refl bytes
      (λ id. record { written = true; removed = true }) cut_short refl refl
      (record { journal = refl; backup = refl })

abbrev applied : Disk
applied = record {
  configs = ("system", 1 ∷ bytes) ∷ [];
  previews = ("cmd_1", ticket) ∷ [];
  backups = ("cmd_2.backup", bytes) ∷ [];
  journals = [];
  receipts =
      (
        "cmd_2",
        record (transaction_of programs "cmd_2" hostname bytes) {
          applied_hash = marks (1 ∷ bytes);
        },
      )
      ∷ [];
}

rollback_fleet_profile-IsBack_example :
    ((rollback_fleet_profile programs true "cmd_2" applied).0.1 ≡ 0)
    × IsBack programs leaves "cmd_2" hostname bytes
        (rollback_fleet_profile programs true "cmd_2" applied).1
unfolding safe_session_id read_file
rollback_fleet_profile-IsBack_example =
    rollback_fleet_profile-IsBack programs leaves works "cmd_2" refl hostname refl bytes applied
      (record { current = 1 ∷ bytes; present = refl; backup = refl; receipt = refl })
