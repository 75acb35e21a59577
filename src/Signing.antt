-- ===== src/Signing.antt =====
-- internal/commandsig/commandsig.go: the canonical form of a command, its signature, and the check
-- that the agent makes. Ed25519, base64 and the marshalling of the canonical envelope are
-- parameters (`Ed25519`), with what the code relies on in `Ed25519Laws`.
pub mod Keys
pub mod RoundTrip
use openwrt_rmm.Base.{
  ℕ, zero, String, ◌≡◌, Bool, true, false, not, ◌&&◌, ◌||◌, Option, none, some, List, length, eqb,
  ltb, if◌then◌else◌, ◌==◌, trim_space,
}
use openwrt_rmm.Schema.{
  Json, empty_object, Trailing, eof, malformed, another_value, Error, other, Result, Check, ok, err,
  ◌>>=◌, ◌>>◌, guard,
}

pub record Envelope : Type 0 where
  pub id : String
  pub device_id : String
  pub kind : String
  pub args : Json
  pub created_at : ℕ
  pub expires_at : ℕ
  pub nonce : String

pub record CanonicalEnvelope : Type 0 where
  pub version : String
  pub id : String
  pub device_id : String
  pub kind : String
  pub args : String
  pub created_at : ℕ
  pub expires_at : ℕ
  pub nonce : String

-- What the code takes from crypto/ed25519, encoding/base64 and encoding/json.
pub record Ed25519 : Type 0 where
  pub marshal : CanonicalEnvelope → List ℕ
  pub public_of : List ℕ → List ℕ
  pub sign_bytes : List ℕ → List ℕ → List ℕ
  pub verify_bytes : List ℕ → List ℕ → List ℕ → Bool
  pub encode : List ℕ → String
  pub decode : String → Option (List ℕ)
  pub key_id : List ℕ → String

-- Documented behaviour of these packages.
pub record Ed25519Laws (c : Ed25519) : Type 0 where
  pub public-length : (k : List ℕ) → length k ≡ 64 → length (c.public_of k) ≡ 32
  pub sign-length : (k m : List ℕ) → length (c.sign_bytes k m) ≡ 64
  pub verify-sign : (k m : List ℕ) → c.verify_bytes (c.public_of k) m (c.sign_bytes k m) ≡ true
  pub decode-encode : (b : List ℕ) → c.decode (trim_space (c.encode b)) ≡ some b

abbrev pub payload_version : String
payload_version = "rmm-command-v1"

ensure_json_eof : Trailing → Check
ensure_json_eof eof = ok tt
ensure_json_eof malformed = err (other "invalid trailing command args")
ensure_json_eof another_value = err (other "command args contain multiple JSON values")

decode_args : Option String → Result String
decode_args none = err (other "invalid command args")
decode_args (some compact) = ok compact

-- json.RawMessage(`{}`) stands for absent arguments.
args_or_empty : Json → Json
args_or_empty args = if args.text == "" then empty_object else args

is_blank : String → Bool
is_blank s = trim_space s == ""

unfoldable pub canonical : Envelope → Result CanonicalEnvelope
unfolding ensure_json_eof decode_args args_or_empty is_blank
canonical e = do
  guard (not (is_blank e.id || is_blank e.device_id || is_blank e.kind || is_blank e.nonce))
      (other "command envelope is incomplete")
  guard (not (eqb e.created_at 0 || eqb e.expires_at 0 || not (ltb e.created_at e.expires_at)))
      (other "command envelope time range is invalid")
  let args = args_or_empty e.args
  compact ← decode_args args.canonical
  ensure_json_eof args.trailing
  ok (record {
    version = payload_version;
    id = trim_space e.id;
    device_id = trim_space e.device_id;
    kind = trim_space e.kind;
    args = compact;
    created_at = e.created_at;
    expires_at = e.expires_at;
    nonce = trim_space e.nonce;
  })

module _ (c : Ed25519) where
  unfoldable pub sign : List ℕ → Envelope → Result String
  sign key e = do
    guard (eqb (length key) 64) (other "invalid Ed25519 private key")
    payload ← canonical e
    ok (c.encode (c.sign_bytes key (c.marshal payload)))

  check_raw : List ℕ → CanonicalEnvelope → Option (List ℕ) → Check
  check_raw key payload none = err (other "command signature is invalid")
  check_raw key payload (some raw) =
      guard (eqb (length raw) 64 && c.verify_bytes key (c.marshal payload) raw)
        (other "command signature is invalid")

  unfoldable pub verify : List ℕ → Envelope → String → Check
  unfolding check_raw
  verify key e signature = do
    guard (eqb (length key) 32) (other "invalid Ed25519 public key")
    payload ← canonical e
    check_raw key payload (c.decode (trim_space signature))
