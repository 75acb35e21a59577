-- ===== src/Redact.antt =====
-- RedactSensitiveOutput of server/internal/store/sqlite.go: what a command's output keeps of
-- credentials. strings.ToLower is the parameter `lower`, for its Unicode tables.
use Prim.Native.Char.{code}
use Prim.Native.String.{slice}
use openwrt_rmm.Base.{
  ℕ, ◌+◌, ◌-◌, String, len, append, Bool, ◌&&◌, ◌||◌, Option, none, some, List, [], ◌∷◌, eqb, leb,
  if◌then◌else◌, ◌==◌, find?, trim_space, is_space,
}

abbrev sensitive_keys : List String
sensitive_keys = "private_key" ∷ "password" ∷ "passwd" ∷ "secret" ∷ "psk" ∷ "token" ∷ "key" ∷ []

-- strings.Fields: the pending word comes first.
fields_from : String → String → List String
unfolding is_space
fields_from word String.[] = if word == "" then [] else word ∷ []
fields_from word (String.◌∷◌ c s) =
    let next = fields_from "" s in
    let grown = fields_from (append word (String.◌∷◌ c "")) s in
    if is_space (code c) then (if word == "" then next else word ∷ next) else grown

-- strings.HasSuffix
has_suffix : String → String → Bool
has_suffix s suffix = leb (len suffix) (len s) && (slice s (len s - len suffix) (len s) == suffix)

-- The first key that the test accepts.
find_key : (String → Bool) → List String → Option String
find_key p [] = none
find_key p (k ∷ ks) = let rest = find_key p ks in if p k then some k else rest

option_key : List String → Option String
unfolding find_key
option_key (first ∷ second ∷ third ∷ more) =
    if first == "option" then find_key (λ k. second == k) sensitive_keys else none
option_key _ = none

assignment_key : String → Option String
unfolding find_key has_suffix
assignment_key left =
    find_key
      (λ k.
        (left == k)
        || has_suffix left (append "." k)
        || has_suffix left (append "_" k)
        || has_suffix left (append "-" k))
      sensitive_keys

module _ (lower : String → String) where
  redact_assignment : String → Option ℕ → String
  unfolding assignment_key
  redact_assignment line none = line
  redact_assignment line (some eq) = elim (assignment_key (lower (trim_space (slice line 0 eq)))) [
    | none ↦ line
    | some k ↦ append (slice line 0 (eq + 1)) "'[redacted]'"
  ]

  redact_option : String → String → Option ℕ → String
  redact_option line key none = line
  redact_option line key (some index) = append (slice line 0 (index + len key)) " '[redacted]'"

  unfoldable pub redact_line : String → String
  unfolding redact_option redact_assignment option_key fields_from
  redact_line line = elim (option_key (fields_from "" (lower (trim_space line)))) [
    | some k ↦ redact_option line k (find? (lower line) k)
    | none ↦ redact_assignment line (find? line "=")
  ]

  -- strings.Split at "\n", each line redacted, and strings.Join.
  redact_from : String → String → String
  redact_from line String.[] = redact_line line
  redact_from line (String.◌∷◌ c s) =
      let next = redact_from "" s in
      let grown = redact_from (append line (String.◌∷◌ c "")) s in
      if eqb (code c) 10 then append (redact_line line) (append "\n" next) else grown

  unfoldable pub redact_sensitive_output : String → String
  unfolding redact_from
  redact_sensitive_output output = redact_from "" output
