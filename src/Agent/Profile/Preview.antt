-- ===== src/Agent/Profile/Preview.antt =====
-- The preview of a profile, agent/go/cmd/rmm-agent/profiles.go (runFleetProfile).
use Prim.Native.String.{slice}
use openwrt_rmm.Base.{
  ℕ, ◌-◌, String, append, len, Bool, false, not, ◌&&◌, ◌||◌, Option, none, some, List, [], ◌∷◌, eqb,
  leb, if◌then◌else◌, ◌==◌,
}
use openwrt_rmm.Schema.{ℤ, pos, is_zero}
use openwrt_rmm.Agent.Profile.{UciOption, Profile, option_key}
use openwrt_rmm.Agent.Profile.Disk.{
  Folder, write_file, ProfileTicket, ProfileChange, Disk, ProfilePlatform,
}

-- The surroundings of one profile command: the time, which steps of the file system work, and
-- whether the wait of 15 seconds ends and the server is reached after it.
pub record ProfileFaults : Type 0 where
  pub now : ℕ
  pub preview_written : Bool
  pub backup_written : Bool
  pub journal_written : Bool
  pub waited : Bool
  pub reachable : Bool
  pub receipt_written : Bool
  pub journal_removed : Bool
  pub restored_written : Bool
  pub restored_removed : Bool

-- The message and the exit code of a profile command.
abbrev pub Answer : Type 0
Answer = String × ℕ

-- strings.TrimSuffix for a line end
abbrev cut_end : String → String → String
cut_end s suffix =
    if leb 1 (len s) && (slice s (len s - 1) (len s) == suffix) then slice s 0 (len s - 1) else s

is_one : ℤ → Bool
is_one (pos n) = eqb n 1
is_one _ = false

module _ (p : ProfilePlatform) where
  change_of : String → UciOption → String → Bool → ProfileChange
  change_of path o current present = record {
    path = path;
    present = present;
    drift = not present || not (current == o.value);
    before = current;
    desired = o.value;
  }

  -- The drift of each option; `uci -q get` has the code 1 for an option that is not there.
  preview_changes :
      String → List UciOption → Folder (List ℕ) → Option (List ProfileChange) × Folder (List ℕ)
  unfolding change_of is_one
  preview_changes config [] configs = (some [], configs)
  preview_changes config (o ∷ os) configs =
      let path = append config (append "." (option_key o)) in
      let ran = p.run ("uci" ∷ "-q" ∷ "get" ∷ path ∷ []) configs in
      let rest = preview_changes config os ran.configs in
      let change = change_of path o (cut_end (cut_end ran.output "\n") "\r") (is_zero ran.code) in
      if is_zero ran.code || is_one ran.code
      then (elim rest.0 [ none ↦ none | some cs ↦ some (change ∷ cs) ], rest.1)
      else (none, ran.configs)

  preview_report :
      ProfileFaults → String → ProfileTicket → Option (List ProfileChange) → Disk → Answer × Disk
  preview_report f id ticket none d = (("failed to read profile option\n", 1), d)
  preview_report f id ticket (some changes) d =
      if f.preview_written
      then (
        (p.marshal_report changes ticket.expires_at id, 0),
        record d { previews = write_file id ticket d.previews },
      )
      else (("failed to persist preview\n", 1), d)

  -- uci_profile_preview
  unfoldable pub preview_profile :
      ProfileFaults → String → Profile → ProfileTicket → Disk → Answer × Disk
  unfolding preview_changes preview_report
  preview_profile f id profile ticket d =
      let read = preview_changes profile.config profile.options d.configs in
      preview_report f id ticket read.0 (record d { configs = read.1 })
