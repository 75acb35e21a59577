-- ===== src/Schema/Columns.antt =====
-- The types of single columns: statuses, decoded JSON documents, errors.
use openwrt_rmm.Base.{
  ℕ, zero, suc, String, Bool, true, false, Option, some, List, [], ◌≡◌, refl, ◌⊎◌, inl, inr,
}

-- Go's int. `negsuc n` is -(n + 1).
pub data ℤ : Type 0 where
  pos : ℕ → ℤ
  negsuc : ℕ → ℤ

abbrev pub is_zero : ℤ → Bool
is_zero (pos zero) = true
is_zero (pos (suc n)) = false
is_zero (negsuc n) = false

-- commands.status
pub data CommandStatus : Type 0 where
  queued claimed completed failed cancelled expired : CommandStatus

-- fleet_operations.status
pub data OperationStatus : Type 0 where
  running paused cancelling cancelled failed completed : OperationStatus

-- fleet_operation_items.status
pub data ItemStatus : Type 0 where
  pending queued claimed completed failed cancelled : ItemStatus

-- agent_rollouts.status
pub data RolloutStatus : Type 0 where
  running paused cancelled completed : RolloutStatus

-- agent_rollout_devices.status
pub data TargetStatus : Type 0 where
  pending queued waiting_reconnect completed failed cancelled expired : TargetStatus

-- remote_sessions.status
pub data SessionStatus : Type 0 where
  requested queued active closed failed expired : SessionStatus

-- device_backups.status
pub data BackupStatus : Type 0 where
  creating ready failed : BackupStatus

-- The errors that the code tells apart, and the others by their text.
pub data Error : Type 0 where
  fleet_access fleet_conflict fleet_feature_unavailable no_rows : Error
  tunnel_session_limit tunnel_rate_limit tunnel_port_unavailable : Error
  other : String → Error

-- What follows the first JSON value of a text.
pub data Trailing : Type 0 where
  eof malformed another_value : Trailing

-- A JSON document with what the program reads of it: json.Valid, json.Compact, its reading as
-- map[string]string, the field health_status, and the checks of a diagnostic report. `canonical` is
-- the first value decoded and marshalled again (`none` when there is none), `trailing` what follows.
pub record Json : Type 0 where
  pub text : String
  pub is_valid : Bool
  pub compacted : String
  pub canonical : Option String
  pub trailing : Trailing
  pub strings : Option (List (String × String))
  pub health_status : String
  pub checks : Option (List (String × String))

abbrev pub empty_object : Json
empty_object = record {
  text = "{}";
  is_valid = true;
  compacted = "{}";
  canonical = some "{}";
  trailing = eof;
  strings = some [];
  health_status = "";
  checks = some [];
}

-- devices.inventory_json; `parses` is whether it can be decoded.
pub record Inventory : Type 0 where
  pub parses : Bool
  pub features : List String
  pub runtime : String
  pub package_name : String
  pub version : String
  pub release : String
  pub target : String
  pub manager : String

-- devices.metrics_json. The numbers are scaled: kB, and thousandths for the load, which is `none`
-- when its first field is no number.
pub record Metrics : Type 0 where
  pub parses : Bool
  pub load : Option ℤ
  pub memory_total : ℤ
  pub memory_used : ℤ
  pub reachable : List (Option Bool)

-- A function that may fail.
pub data Result {ℓ} (A : Type ℓ) : Type ℓ where
  ok : A → Result A
  err : Error → Result A

-- A function that returns an error only.
abbrev pub Check : Type 0
Check = Result (Unit {0})

infixl 5 ◌>>=◌ ◌>>◌
abbrev pub ◌>>=◌ {ℓ κ} : {A : Type ℓ} {B : Type κ} → Result A → (A → Result B) → Result B
ok a >>= f = f a
err e >>= f = err e

abbrev pub ◌>>◌ {ℓ} : {B : Type ℓ} → Check → Result B → Result B
m >> k = m >>= λ _. k

-- `if !b { return e }`
abbrev pub guard : Bool → Error → Check
guard true e = ok tt
guard false e = err e

-- errors.Is(err, ErrFleetAccess)
abbrev pub is_fleet_access : Error → Bool
is_fleet_access fleet_access = true
is_fleet_access _ = false

pub Result-cases {ℓ} :
    {A : Type ℓ} (r : Result A) → ((a : A) × (r ≡ ok a)) ⊎ ((e : Error) × (r ≡ err e))
Result-cases (ok a) = inl (a, refl)
Result-cases (err e) = inr (e, refl)

-- A guarded chain that succeeds has passed its guard.
pub guard_ok {ℓ} :
    {A : Type ℓ} (b : Bool) (e : Error) (m : Result A) (a : A)
    → (guard b e >> m) ≡ ok a
    → (b ≡ true) × (m ≡ ok a)
guard_ok true e m a h = (refl, h)
guard_ok false e m a h = cc

-- A chain that succeeds has had the value of its first part.
pub bind_ok {ℓ κ} :
    {A : Type ℓ} {B : Type κ} (r : Result A) (k : A → Result B) (b : B)
    → (r >>= k) ≡ ok b
    → (a : A) × (r ≡ ok a) × (k a ≡ ok b)
bind_ok (ok a) k b h = (a, refl, h)
bind_ok (err e) k b h = cc
