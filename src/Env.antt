-- ===== src/Env.antt =====
-- What an operation takes from its surroundings: the clock, the random source, and the key and the
-- algorithms by which internal/commandsig signs commands. One operation reads the clock once.
use openwrt_rmm.Base.{ℕ, ◌+◌, ◌*◌, String, List, append}
use openwrt_rmm.Schema.{Db}
use openwrt_rmm.Signing.{Ed25519}

-- The instants are nanoseconds after time.Time's zero. `random_hex n` is the n-th identifier that
-- crypto/rand gives (randomID), `random_nonce n` the n-th nonce (commandsig.NewNonce),
-- `lower` is strings.ToLower.
pub record Env : Type 0 where
  pub now : ℕ
  pub random_hex : ℕ → String
  pub random_nonce : ℕ → String
  pub signing_key : List ℕ
  pub ed25519 : Ed25519
  pub lower : String → String

abbrev pub seconds : ℕ → ℕ
seconds n = n * 1000000000

abbrev pub minutes : ℕ → ℕ
minutes n = n * 60000000000

abbrev pub hours : ℕ → ℕ
hours n = n * 3600000000000

-- randomID
unfoldable pub random_id : Env → Db → String → String
random_id env db prefix = append prefix (append "_" (env.random_hex db.draws))

-- The random source moves on.
abbrev pub draw : Db → Db
draw db = record db { draws = db.draws + 1 }
