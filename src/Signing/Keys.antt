-- ===== src/Signing/Keys.antt =====
-- The text form of a public key, internal/commandsig/commandsig.go: EncodePublicKey and
-- ParsePublicKey. encoding/base64's RawStdEncoding is a parameter (`Base64`).
use Prim.Native.Char.{code}
use Prim.Native.String.append.{nil, cons}
use openwrt_rmm.Base.{
  ℕ, String, append, ◌≡◌, refl, Bool, false, ◌||◌, Option, none, some, List, length, eqb,
  if◌then◌else◌, eqb_iff, is_space, trim_left, trim_right, trim_space, arith,
}
use openwrt_rmm.Schema.{other, Result, ok, err, ◌>>◌, guard}

pub record Base64 : Type 0 where
  pub encode : List ℕ → String
  pub decode : String → Option (List ℕ)

abbrev pub has_space : String → Bool
has_space String.[] = false
has_space (String.◌∷◌ c s) = is_space (code c) || has_space s

-- Documented behaviour of the package: its alphabet has no space.
pub record Base64Laws (b : Base64) : Type 0 where
  pub decode-encode : (k : List ℕ) → b.decode (b.encode k) ≡ some k
  pub encode-plain : (k : List ℕ) → has_space (b.encode k) ≡ false

-- strings.CutPrefix
cut_prefix : String → String → Option String
cut_prefix s String.[] = some s
cut_prefix String.[] (String.◌∷◌ c p) = none
cut_prefix (String.◌∷◌ d s) (String.◌∷◌ c p) =
    let rest = cut_prefix s p in if eqb (code d) (code c) then rest else none

-- EncodePublicKey
unfoldable pub encode_public_key : Base64 → List ℕ → String
encode_public_key b k = append "ed25519:" (b.encode k)

decoded_key : Option (List ℕ) → Result (List ℕ)
decoded_key none = err (other "command public key is invalid")
decoded_key (some raw) = do
  guard (eqb (length raw) 32) (other "command public key is invalid")
  ok raw

key_of_text : Base64 → Option String → Result (List ℕ)
unfolding decoded_key
key_of_text b none = err (other "command public key must use the ed25519 prefix")
key_of_text b (some raw) = decoded_key (b.decode raw)

-- ParsePublicKey
unfoldable pub parse_public_key : Base64 → String → Result (List ℕ)
unfolding key_of_text cut_prefix
parse_public_key b value = key_of_text b (cut_prefix (trim_space value) "ed25519:")

trim_left-plain : (s : String) → has_space s ≡ false → trim_left s ≡ s
unfolding trim_left
trim_left-plain String.[] h = refl
trim_left-plain (String.◌∷◌ c s) h = ground arith

trim_right-plain : (s : String) → has_space s ≡ false → trim_right s ≡ s
unfolding trim_right
trim_right-plain String.[] h = refl
trim_right-plain (String.◌∷◌ c s) h = ground (arith, trim_right-plain s)

trim_space-plain : (s : String) → has_space s ≡ false → trim_space s ≡ s
unfolding trim_space
trim_space-plain s h = rw (trim_left-plain s h) (trim_right-plain s h)

append-plain :
    (p s : String) → has_space p ≡ false → has_space s ≡ false → has_space (append p s) ≡ false
append-plain String.[] s h k = rw (nil s) k
append-plain (String.◌∷◌ c p) s h k = rw (cons c p s) (ground (arith, append-plain p s))

cut_prefix-append : (p s : String) → cut_prefix (append p s) p ≡ some s
unfolding cut_prefix
cut_prefix-append String.[] s = rw (nil s)
cut_prefix-append (String.◌∷◌ c p) s =
    rw (cons c p s, cut_prefix-append p s) (ground (arith, eqb_iff (code c) (code c)))

module _ (b : Base64) (laws : Base64Laws b) (k : List ℕ) (size : length k ≡ 32) where
  text-plain : has_space (encode_public_key b k) ≡ false
  unfolding encode_public_key is_space
  text-plain = append-plain "ed25519:" (b.encode k) refl (laws.encode-plain k)

  pub trim_space-encode_public_key : trim_space (encode_public_key b k) ≡ encode_public_key b k
  trim_space-encode_public_key = trim_space-plain (encode_public_key b k) text-plain

  -- A public key that EncodePublicKey writes is read back by ParsePublicKey.
  pub parse_public_key-encode : parse_public_key b (encode_public_key b k) ≡ ok k
  unfolding parse_public_key encode_public_key key_of_text decoded_key
  parse_public_key-encode = rw (
    trim_space-encode_public_key,
    cut_prefix-append "ed25519:" (b.encode k),
    laws.decode-encode k,
    size,
  )
