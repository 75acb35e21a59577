-- ===== src/Agent/Profile.antt =====
-- internal/fleetprofile/profile.go: the profiles that a router may be sent. The children are the
-- profile commands of agent/go/cmd/rmm-agent/profiles.go.
pub mod Disk
pub mod Restore
pub mod Preview
pub mod Apply
pub mod Command
use Prim.Native.Char.{code}
use openwrt_rmm.Base.{
  ℕ, ◌+◌, ◌-◌, String, append, Bool, true, false, not, ◌&&◌, ◌||◌, List, [], ◌∷◌, any, map, length,
  contains, eqb, leb, ltb, if◌then◌else◌, ◌==◌, contains_text,
}
use openwrt_rmm.Schema.{Check, other, ok, err, ◌>>=◌, ◌>>◌, guard}
use openwrt_rmm.Agent.Validate.{is_alphanumeric}

-- Option
pub record UciOption : Type 0 where
  pub section : String
  pub option : String
  pub value : String

-- Profile
pub record Profile : Type 0 where
  pub config : String
  pub options : List UciOption

-- [A-Za-z0-9_]
abbrev word_rune : ℕ → Bool
word_rune r = is_alphanumeric r || eqb r 95

-- [A-Za-z0-9_-]
abbrev name_rune : ℕ → Bool
name_rune r = word_rune r || eqb r 45

abbrev is_digit : ℕ → Bool
is_digit r = leb 48 r && leb r 57

-- [A-Za-z0-9_-]{0,n}$
name_end : ℕ → String → Bool
name_end n String.[] = true
name_end n (String.◌∷◌ c s) = let rest = name_end (n - 1) s in name_rune (code c) && ltb 0 n && rest

-- identifier
unfoldable pub identifier : String → Bool
unfolding name_end
identifier String.[] = false
identifier (String.◌∷◌ c s) = word_rune (code c) && name_end 63 s

-- [0-9]{0,n}\]$, with one digit at least when none was seen
index_end : Bool → ℕ → String → Bool
index_end seen n String.[] = false
index_end seen n (String.◌∷◌ c s) =
    let more = index_end true (n - 1) s in
    if eqb (code c) 93 then seen && (s == "") else is_digit (code c) && ltb 0 n && more

-- [A-Za-z0-9_-]{0,n}\[[0-9]{1,3}\]$
indexed_end : ℕ → String → Bool
unfolding index_end
indexed_end n String.[] = false
indexed_end n (String.◌∷◌ c s) =
    let rest = indexed_end (n - 1) s in
    let index = index_end false 3 s in
    if eqb (code c) 91 then index else name_rune (code c) && ltb 0 n && rest

-- [A-Za-z_][A-Za-z0-9_-]{0,63}\[[0-9]{1,3}\]$
anonymous_end : String → Bool
unfolding indexed_end
anonymous_end String.[] = false
anonymous_end (String.◌∷◌ c s) = word_rune (code c) && not (is_digit (code c)) && indexed_end 63 s

anonymous_section : String → Bool
unfolding anonymous_end
anonymous_section String.[] = false
anonymous_section (String.◌∷◌ c s) = eqb (code c) 64 && anonymous_end s

-- sectionIdentifier
unfoldable pub section_identifier : String → Bool
unfolding anonymous_section
section_identifier s = identifier s || anonymous_section s

-- The bytes of a rune in UTF-8.
abbrev rune_bytes : ℕ → ℕ
rune_bytes r = if ltb r 0x80 then 1 else if ltb r 0x800 then 2 else if ltb r 0x10000 then 3 else 4

-- len of a Go string
unfoldable pub byte_length : String → ℕ
byte_length String.[] = 0
byte_length (String.◌∷◌ c s) = rune_bytes (code c) + byte_length s

-- strings.ContainsAny(value, "\x00\r\n")
unfoldable pub has_break : String → Bool
has_break String.[] = false
has_break (String.◌∷◌ c s) = eqb (code c) 0 || eqb (code c) 13 || eqb (code c) 10 || has_break s

abbrev pub option_key : UciOption → String
option_key o = append o.section (append "." o.option)

-- One option that is not among the keys seen before it.
valid_option : List String → UciOption → Bool
unfolding section_identifier identifier byte_length has_break
valid_option seen o =
    section_identifier o.section
    && identifier o.option
    && leb (byte_length o.value) 2048
    && not (has_break o.value)
    && not (contains seen (option_key o))

valid_options : List String → List UciOption → Bool
unfolding valid_option
valid_options seen [] = true
valid_options seen (o ∷ os) = valid_option seen o && valid_options (option_key o ∷ seen) os

abbrev pub configurations : List String
configurations = "system" ∷ "network" ∷ "wireless" ∷ "dhcp" ∷ "firewall" ∷ []

-- Validate
unfoldable pub validate : Profile → Check
unfolding valid_options
validate p = do
  guard (contains configurations p.config) (other "unsupported UCI configuration")
  guard (ltb 0 (length p.options) && leb (length p.options) 32)
      (other "profile needs 1 to 32 options")
  guard (valid_options [] p.options) (other "invalid or duplicate UCI option")

abbrev pub sensitive_parts : List String
sensitive_parts = "password" ∷ "passwd" ∷ "secret" ∷ "token" ∷ "key" ∷ "psk" ∷ "credential" ∷ []

module _ (lower : String → String) where
  -- Sensitive, with strings.ToLower a parameter
  unfoldable pub sensitive : String → Bool
  sensitive option = any (λ part. contains_text (lower option) part) sensitive_parts

  masked_option : UciOption → UciOption
  masked_option o = if sensitive o.option then record o { value = "[redacted]" } else o

  -- Mask
  unfoldable pub mask : Profile → Profile
  unfolding masked_option
  mask p = record p { options = map masked_option p.options }
