-- ===== src/Examples/Data.antt =====
-- A small database, the surroundings of an operation, and a toy signature scheme.
use openwrt_rmm.Base.{
  ℕ, zero, suc, ◌+◌, String, ◌≡◌, refl, ap, true, false, none, some, List, [], ◌∷◌, length, eqb,
  arith, ◌==◌, if◌then◌else◌, trim_left, trim_right, trim_space, is_space, Bool-cases, inl, inr,
}
use openwrt_rmm.Schema.{
  ℤ, Db, User, Device, Command, CommandStatus, FleetOperation, FleetOperationItem, OperationStatus,
  ItemStatus, empty_object, Inventory, Metrics,
}
use openwrt_rmm.Env.{Env}
use openwrt_rmm.Signing.{Ed25519, Ed25519Laws}
use Prim.Native.Char.{code}

abbrev pub repeat : ℕ → ℕ → List ℕ
repeat zero x = []
repeat (suc n) x = x ∷ repeat n x

abbrev first : List ℕ → ℕ
first [] = 0
first (x ∷ xs) = x

-- Numbers in unary, each closed by a dot.
abbrev pub encode_one : ℕ → String → String
encode_one zero s = String.◌∷◌ "." s
encode_one (suc n) s = String.◌∷◌ "x" (encode_one n s)

abbrev pub encode : List ℕ → String
encode [] = ""
encode (x ∷ xs) = encode_one x (encode xs)

abbrev bump : List ℕ → List ℕ
bump [] = []
bump (x ∷ xs) = suc x ∷ xs

abbrev pub decode : String → List ℕ
decode String.[] = []
decode (String.◌∷◌ c s) = let rest = decode s in if eqb (code c) 46 then 0 ∷ rest else bump rest

decode-encode_one : (n : ℕ) (s : String) → decode (encode_one n s) ≡ n ∷ decode s
decode-encode_one zero s = refl
decode-encode_one (suc n) s = rw (decode-encode_one n s)

pub decode-encode_lem : (xs : List ℕ) → decode (encode xs) ≡ xs
decode-encode_lem [] = refl
decode-encode_lem (x ∷ xs) = rw (decode-encode_one x (encode xs), decode-encode_lem xs)

-- Nothing is cut before a mark or a dot.
trim_left-encode_one : (n : ℕ) (s : String) → trim_left (encode_one n s) ≡ encode_one n s
unfolding trim_left is_space
trim_left-encode_one zero s = refl
trim_left-encode_one (suc n) s = refl

-- The end of a text that is no space is not cut.
trim_right-encode_one :
    (n : ℕ) (s : String) → trim_right (encode_one n s) ≡ encode_one n (trim_right s)
unfolding trim_right is_space
trim_right-encode_one zero s = elim (Bool-cases (trim_right s == "")) [
  | inl t ↦ rw t
  | inr f ↦ rw f
]
trim_right-encode_one (suc n) s = elim (Bool-cases (trim_right (encode_one n s) == "")) [
  | inl t ↦ rw t (ap (String.◌∷◌ "x") (trim_right-encode_one n s))
  | inr f ↦ rw f (ap (String.◌∷◌ "x") (trim_right-encode_one n s))
]

trim_right-encode : (xs : List ℕ) → trim_right (encode xs) ≡ encode xs
unfolding trim_right
trim_right-encode [] = refl
trim_right-encode (x ∷ xs) = rw (trim_right-encode_one x (encode xs), trim_right-encode xs)

trim_left-encode : (xs : List ℕ) → trim_left (encode xs) ≡ encode xs
unfolding trim_left
trim_left-encode [] = refl
trim_left-encode (x ∷ xs) = trim_left-encode_one x (encode xs)

trim_space-encode : (xs : List ℕ) → trim_space (encode xs) ≡ encode xs
unfolding trim_space
trim_space-encode xs = rw (trim_left-encode xs) (trim_right-encode xs)

length-repeat : (n x : ℕ) → length (repeat n x) ≡ n
length-repeat zero x = refl
length-repeat (suc n) x = ap suc (length-repeat n x)

-- A signature is as long as it should be, and names the key and the length of what it signs.
abbrev pub toy : Ed25519
toy = record {
  marshal = λ e. e.created_at ∷ e.expires_at ∷ [];
  public_of = λ k. repeat 32 (first k);
  sign_bytes = λ k m. repeat 64 (first k + length m);
  verify_bytes = λ p m s. eqb (first s) (first p + length m);
  encode = encode;
  decode = λ s. some (decode s);
  key_id = λ k. encode (first k ∷ []);
}

pub toy_laws : Ed25519Laws toy
toy_laws = record {
  public-length = λ k h. length-repeat 32 (first k);
  sign-length = λ k m. length-repeat 64 (first k + length m);
  verify-sign = λ k m. ground arith;
  decode-encode = λ b. rw (trim_space-encode b, decode-encode_lem b);
}

abbrev pub key : List ℕ
key = repeat 64 7

abbrev pub noon : ℕ
noon = 1000000000000000000

abbrev pub env_at : ℕ → Env
env_at now = record {
  now = now;
  random_hex = λ n. encode_one n "";
  random_nonce = λ n. encode_one n "n";
  signing_key = key;
  ed25519 = toy;
  lower = λ s. s;
}

abbrev pub here : Env
here = env_at noon

abbrev pub admin : User
admin = record { id = "u1"; username = "root"; role = "admin"; disabled = false }

abbrev pub operator : User
operator = record { id = "u2"; username = "ann"; role = "operator"; disabled = false }

abbrev inventory : Inventory
inventory = record {
  parses = true;
  features = "diagnostic_report" ∷ [];
  runtime = "go";
  package_name = "";
  version = "1.0.0";
  release = "";
  target = "";
  manager = "apk";
}

abbrev metrics : Metrics
metrics = record {
  parses = true;
  load = none;
  memory_total = ℤ.pos 0;
  memory_used = ℤ.pos 0;
  reachable = [];
}

abbrev pub router : Device
router = record {
  id = "d1";
  owner_user_id = "u2";
  group_name = "home";
  site = "";
  inventory = inventory;
  metrics = metrics;
  last_seen_at = some noon;
}

abbrev pub ping : Command
ping = record {
  id = "c1";
  device_id = "d1";
  kind = "ping";
  args = empty_object;
  status = CommandStatus.queued;
  result = empty_object;
  output = "";
  exit_code = none;
  attempt_count = 0;
  max_attempts = 3;
  created_at = noon;
  expires_at = some (noon + 60000000000);
  claimed_at = none;
  completed_at = none;
  cancelled_at = none;
  expired_at = none;
  nonce = "n";
  signature_key_id = "k";
  signature = "s";
}

abbrev pub item : FleetOperationItem
item = record {
  device_id = "d1";
  command_id = "";
  status = ItemStatus.pending;
  error = "";
  args = empty_object;
}

abbrev pub operation : FleetOperation
operation = record {
  id = "o1";
  user_id = "u2";
  request_key = "request-1";
  request_hash = "h";
  title = "all";
  kind = "ping";
  args = empty_object;
  parallelism = 2;
  canary_pending = false;
  deadline_at = noon + 60000000000;
  stop_on_failure = true;
  status = OperationStatus.running;
  created_at = noon;
  updated_at = noon;
  items = item ∷ [];
}

abbrev pub fleet : Db
fleet = record {
  users = admin ∷ operator ∷ [];
  devices = router ∷ [];
  policies = [];
  access_policies = [];
  commands = ping ∷ [];
  command_permissions =
      (record { command_id = "c1"; user_id = "u2"; permission = "diagnostics" }) ∷ [];
  operations = operation ∷ [];
  backups = [];
  rollouts = [];
  rules = [];
  schedules = [];
  schedule_runs = [];
  sessions = [];
  access_grants = [];
  access_sessions = [];
  audit = [];
  draws = 0;
}
