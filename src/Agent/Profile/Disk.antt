-- ===== src/Agent/Profile/Disk.antt =====
-- What the profile commands keep on the router, agent/go/cmd/rmm-agent/profiles.go: the UCI
-- configuration files and, in the directory "profiles", tickets, backups, journals and receipts.
use openwrt_rmm.Base.{
  ℕ, String, Bool, Option, none, some, List, [], ◌∷◌, if◌then◌else◌, ◌==◌, ◌≡◌, refl, eq_refl, inl,
  inr, Bool-cases,
}
use openwrt_rmm.Schema.{ℤ}
use openwrt_rmm.Agent.Profile.{Profile}

-- A directory: its files under their names.
abbrev pub Folder {ℓ} : Type ℓ → Type ℓ
Folder A = List (String × A)

module _ {ℓ} {A : Type ℓ} where
  -- os.ReadFile, or `none`
  unfoldable pub read_file : String → Folder A → Option A
  read_file name [] = none
  read_file name ((n, a) ∷ fs) = let rest = read_file name fs in if n == name then some a else rest

  -- os.Remove
  unfoldable pub remove_file : String → Folder A → Folder A
  remove_file name [] = []
  remove_file name ((n, a) ∷ fs) =
      let rest = remove_file name fs in if n == name then rest else (n, a) ∷ rest

  -- writeProfileState, whose rename replaces the file
  unfoldable pub write_file : String → A → Folder A → Folder A
  write_file name a fs = (name, a) ∷ remove_file name fs

  pub read_file-write :
      (name : String) (a : A) (fs : Folder A) → read_file name (write_file name a fs) ≡ some a
  unfolding read_file write_file
  read_file-write name a fs = rw (eq_refl name)

  pub read_file-remove :
      (name : String) (fs : Folder A) → read_file name (remove_file name fs) ≡ none
  unfolding read_file remove_file
  read_file-remove name [] = refl
  read_file-remove name ((n, a) ∷ fs) = elim (Bool-cases (n == name)) [
    | inl t ↦ rw t (read_file-remove name fs)
    | inr f ↦ rw (f, f) (read_file-remove name fs)
  ]

-- profileTicket
pub record ProfileTicket : Type 0 where
  pub config : String
  pub base_hash : String
  pub desired_hash : String
  pub expires_at : ℕ

-- profileTransaction
pub record ProfileTransaction : Type 0 where
  pub config : String
  pub backup : String
  pub backup_hash : String
  pub applied_hash : String

-- profileChange
pub record ProfileChange : Type 0 where
  pub path : String
  pub present : Bool
  pub drift : Bool
  pub before : String
  pub desired : String

-- The bytes of the configuration files under their names; <id>.preview, <id>.journal and
-- <id>.receipt under the identifier, the backups under their whole name.
pub record Disk : Type 0 where
  pub configs : Folder (List ℕ)
  pub previews : Folder ProfileTicket
  pub backups : Folder (List ℕ)
  pub journals : Folder ProfileTransaction
  pub receipts : Folder ProfileTransaction

-- The output and the exit code of a program, and the configuration files after it.
pub record Ran : Type 0 where
  pub output : String
  pub code : ℤ
  pub configs : Folder (List ℕ)

-- What the code takes from the packages crypto/sha256, encoding/json and strings, and the router's
-- programs, by their command lines.
pub record ProfilePlatform : Type 0 where
  pub digest : List ℕ → String
  pub parse_profile : String → Option Profile
  pub marshal_profile : Profile → List ℕ
  pub marshal_report : List ProfileChange → ℕ → String → String
  pub lower : String → String
  pub run : List String → Folder (List ℕ) → Ran

-- The service that reads a configuration, of reloadProfileConfig.
unfoldable pub service_of : String → String
service_of name =
    if name == "system"
    then "system"
    else if name == "network"
    then "network"
    else if name == "wireless"
    then "network"
    else if name == "dhcp"
    then "dnsmasq"
    else if name == "firewall"
    then "firewall"
    else ""

-- Documented behaviour of the programs: uci revert and uci changes, and the reload of a service,
-- leave the configuration files as they are; uci stages its changes in another directory.
pub record LeavesFiles (run : List String → Folder (List ℕ) → Ran) : Type 0 where
  pub changes :
      (name : String) (configs : Folder (List ℕ))
      → (run ("uci" ∷ "changes" ∷ name ∷ []) configs).configs ≡ configs
  pub revert :
      (name : String) (configs : Folder (List ℕ))
      → (run ("uci" ∷ "revert" ∷ name ∷ []) configs).configs ≡ configs
  pub reload :
      (script : String) (configs : Folder (List ℕ))
      → (run (script ∷ "reload" ∷ []) configs).configs ≡ configs
