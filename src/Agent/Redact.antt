-- ===== src/Agent/Redact.antt =====
-- redactSensitiveOutput of agent/go/cmd/rmm-agent/main.go: what a result that leaves the router keeps
-- of a line that names a credential. strings.ToLower is the parameter `lower`.
use Prim.Native.Char.{code}
use Prim.Native.String.{slice}
use openwrt_rmm.Base.{
  ℕ, ◌+◌, String, append, Bool, Option, none, some, List, [], ◌∷◌, any, eqb, if◌then◌else◌, find?,
  contains_text,
}

abbrev pub words : List String
words = "private_key" ∷ "password" ∷ "passwd" ∷ "secret" ∷ "psk" ∷ "token" ∷ []

redacted_at : String → Option ℕ → String
redacted_at line none = "[redacted]"
redacted_at line (some idx) = append (slice line 0 (idx + 1)) "[redacted]"

-- redactLine
unfoldable pub redact_line : String → String
unfolding redacted_at
redact_line line = redacted_at line (find? line "=")

module _ (lower : String → String) where
  -- strings.Contains of the lowered line, for one of the words
  unfoldable pub is_sensitive : String → Bool
  is_sensitive line = any (λ word. contains_text (lower line) word) words

  unfoldable pub kept_line : String → String
  kept_line line = if is_sensitive line then redact_line line else line

  -- strings.Split at "\n", each line kept or redacted, and strings.Join.
  redact_from : String → String → String
  redact_from line String.[] = kept_line line
  redact_from line (String.◌∷◌ c s) =
      let next = redact_from "" s in
      let grown = redact_from (append line (String.◌∷◌ c "")) s in
      if eqb (code c) 10 then append (kept_line line) (append "\n" next) else grown

  -- redactSensitiveOutput
  unfoldable pub redact_sensitive_output : String → String
  unfolding redact_from
  redact_sensitive_output output = redact_from "" output
