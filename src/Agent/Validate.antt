-- ===== src/Agent/Validate.antt =====
-- Which commands the agent accepts, agent/go/cmd/rmm-agent/main.go: safeSessionID,
-- pinCommandSigningKey and validateSignedCommand.
pub mod Window
pub mod Pin
pub mod Names
use Prim.Native.Char.{code}
use openwrt_rmm.Base.{
  ℕ, ◌+◌, String, len, Bool, true, false, not, ◌&&◌, ◌||◌, Option, none, some, List, eqb, leb, ltb,
  if◌then◌else◌, ◌==◌, trim_space,
}
use openwrt_rmm.Schema.{Check, other, Result, ok, err, ◌>>=◌, ◌>>◌, guard}
use openwrt_rmm.Env.{minutes, hours}
use openwrt_rmm.Signing.{Ed25519, Envelope, verify}
use openwrt_rmm.Signing.Keys.{Base64, parse_public_key}
use openwrt_rmm.Agent.{Config, AgentCommand}

-- `r >= 'a' && r <= 'z'` and so on
abbrev pub is_alphanumeric : ℕ → Bool
is_alphanumeric r = (leb 97 r && leb r 122) || (leb 65 r && leb r 90) || (leb 48 r && leb r 57)

abbrev pub all_runes : (ℕ → Bool) → String → Bool
all_runes p String.[] = true
all_runes p (String.◌∷◌ c s) = p (code c) && all_runes p s

-- The common form of the tests on names: at most `limit` bytes. A text whose runes are accepted has
-- a byte for each rune.
abbrev pub safe_name : ℕ → (ℕ → Bool) → String → Bool
safe_name limit p value = not (value == "") && leb (len value) limit && all_runes p value

abbrev pub session_rune : ℕ → Bool
session_rune r = is_alphanumeric r || eqb r 95 || eqb r 45

-- safeSessionID
unfoldable pub safe_session_id : String → Bool
safe_session_id value = safe_name 128 session_rune value

-- An agent without a key takes the one that it is shown; another agent checks that it is its own.
pin_known : Config → String → String → Result (Bool × Config)
pin_known cfg encoded id =
    if (cfg.command_signing_public_key == "") && (cfg.command_signing_key_id == "")
    then ok (true, record cfg { command_signing_public_key = encoded; command_signing_key_id = id })
    else guard ((cfg.command_signing_public_key == encoded) && (cfg.command_signing_key_id == id))
        (other "server command signing key changed; explicit agent re-enrollment is required")
      >> ok (false, cfg)

-- What the signature of a command covers.
abbrev pub envelope_of : AgentCommand → ℕ → Envelope
envelope_of cmd expires_at = record {
  id = cmd.id;
  device_id = cmd.device_id;
  kind = cmd.kind;
  args = cmd.args;
  created_at = cmd.created_at;
  expires_at = expires_at;
  nonce = cmd.nonce;
}

module _ (c : Ed25519) (b : Base64) where
  -- pinCommandSigningKey on trimmed texts, with the key decoded.
  pin_parsed : Config → String → String → List ℕ → Result (Bool × Config)
  pin_parsed cfg encoded id key = do
    guard (c.key_id key == id) (other "server command signing key ID does not match the public key")
    pin_known cfg encoded id

  -- pinCommandSigningKey: whether the key is new, and the configuration with it.
  unfoldable pub pin_command_signing_key : Config → String → String → Result (Bool × Config)
  unfolding pin_parsed pin_known
  pin_command_signing_key cfg encoded_public_key key_id = do
    let encoded = trim_space encoded_public_key
    let id = trim_space key_id
    guard (not (encoded == "" || id == "")) (other "server did not provide a command signing key")
    key ← parse_public_key b encoded
    pin_parsed cfg encoded id key

  validate_window : ℕ → ℕ → Option ℕ → Result ℕ
  validate_window now created_at none = err (other "command validity period is missing")
  validate_window now created_at (some expires_at) = do
    guard (not (eqb created_at 0)) (other "command validity period is missing")
    guard (leb now expires_at) (other "command has expired")
    guard (leb created_at (now + minutes 5)) (other "command creation time is in the future")
    guard (ltb created_at expires_at && leb expires_at (created_at + hours 25))
        (other "command validity period is invalid")
    ok expires_at

  check_signature : Config → AgentCommand → ℕ → Check
  check_signature cfg cmd expires_at = do
    guard (not (cmd.signature_key_id == "") && (cmd.signature_key_id == cfg.command_signing_key_id))
        (other "command signing key ID is not trusted")
    public_key ← parse_public_key b cfg.command_signing_public_key
    verify c public_key (envelope_of cmd expires_at) cmd.signature

  -- validateSignedCommand
  unfoldable pub validate_signed_command : Config → AgentCommand → ℕ → Check
  unfolding safe_session_id validate_window check_signature
  validate_signed_command cfg cmd now = do
    guard (safe_session_id cmd.id) (other "command ID is invalid")
    guard (cmd.device_id == cfg.device_id) (other "command is bound to another device")
    expires_at ← validate_window now cmd.created_at cmd.expires_at
    check_signature cfg cmd expires_at
