-- ===== src/Notices/Deliveries.antt =====
-- The queue of notifications, the table notification_deliveries of server/internal/store/notifications.go:
-- CreateNotificationDelivery, the claims, CompleteNotificationDelivery and the purge. The encrypted
-- texts of a notification are not in the rows of the model.
pub mod Phases
pub mod Moves
pub mod Refine
use openwrt_rmm.Base.{
  ℕ, zero, suc, ◌+◌, String, Bool, true, false, not, ◌&&◌, ◌||◌, Option, none, some, List, [], ◌∷◌,
  ◌++◌, map, any, take, find_where, update_where, delete_where, select_where, sort, eqb, leb, ltb,
  if◌then◌else◌, ◌==◌, trim_space,
}
use openwrt_rmm.Schema.{ℤ, pos, negsuc, Check, other, ok, err, ◌>>=◌, ◌>>◌, guard}
use openwrt_rmm.Env.{minutes}

-- notification_deliveries.status; nothing writes 'failed' any more.
pub data DeliveryStatus : Type 0 where
  queued retry sending sent dead_letter failed : DeliveryStatus

-- A row. `next_attempt_at` is `none` for ''.
pub record Delivery : Type 0 where
  pub id : String
  pub user_id : String
  pub dedupe_key : String
  pub event : String
  pub channel : String
  pub status : DeliveryStatus
  pub error : String
  pub attempt_count : ℕ
  pub max_attempts : ℕ
  pub created_at : ℕ
  pub updated_at : ℕ
  pub last_attempt_at : Option ℕ
  pub next_attempt_at : Option ℕ
  pub lease_expires_at : Option ℕ
  pub sent_at : Option ℕ

abbrev pub is_queued : DeliveryStatus → Bool
is_queued queued = true
is_queued _ = false

abbrev pub is_retry : DeliveryStatus → Bool
is_retry retry = true
is_retry _ = false

abbrev pub is_sending : DeliveryStatus → Bool
is_sending sending = true
is_sending _ = false

-- status IN ('sent', 'dead_letter', 'failed')
abbrev pub is_over : DeliveryStatus → Bool
is_over sent = true
is_over dead_letter = true
is_over failed = true
is_over _ = false

-- maxAttempts <= 0 gives 5.
abbrev attempts_or_default : ℤ → ℕ
attempts_or_default (pos (suc n)) = suc n
attempts_or_default _ = 5

-- CreateNotificationDelivery under the drawn identifier `id`; `none` when the key is known
-- (INSERT OR IGNORE, for the UNIQUE dedupe_key).
unfoldable pub create_notification_delivery :
    ℕ
    → String
    → String
    → String
    → String
    → String
    → ℤ
    → List Delivery
    → Option Delivery × List Delivery
create_notification_delivery now id user_id dedupe_key event channel max_attempts ds =
    let d : Delivery = record {
      id = id;
      user_id = user_id;
      dedupe_key = dedupe_key;
      event = event;
      channel = channel;
      status = queued;
      error = "";
      attempt_count = 0;
      max_attempts = attempts_or_default max_attempts;
      created_at = now;
      updated_at = now;
      last_attempt_at = none;
      next_attempt_at = some now;
      lease_expires_at = none;
      sent_at = none;
    } in
    if any (λ x. (x.dedupe_key == dedupe_key) || (x.id == id)) ds
    then (none, ds)
    else (some d, ds ++ d ∷ [])

-- t = '' OR t <= now, and for a lease: t IS NULL OR t <= now
abbrev pub free_by : Option ℕ → ℕ → Bool
free_by none now = true
free_by (some t) now = leb t now

-- t IS NOT NULL AND t <= now
abbrev pub lapsed : Option ℕ → ℕ → Bool
lapsed none now = false
lapsed (some t) now = leb t now

-- A retry or a lapsed send with no attempt left
abbrev pub exhausted : ℕ → Delivery → Bool
exhausted now d =
    (is_retry d.status || is_sending d.status)
    && leb d.max_attempts d.attempt_count
    && (is_retry d.status || free_by d.lease_expires_at now)

abbrev pub bury : ℕ → Delivery → Delivery
bury now d = record d {
  status = dead_letter;
  error =
      if d.error == "" then "Попытки доставки исчерпаны. Проверьте настройки канала." else d.error;
  next_attempt_at = none;
  lease_expires_at = none;
  updated_at = now;
}

-- What a claim may take.
abbrev pub claimable : ℕ → Delivery → Bool
claimable now d =
    ltb d.attempt_count d.max_attempts
    && (((is_queued d.status || is_retry d.status) && free_by d.next_attempt_at now)
        || (is_sending d.status && lapsed d.lease_expires_at now))

abbrev pub take_up : ℕ → ℕ → Delivery → Delivery
take_up now lease d = record d {
  status = sending;
  attempt_count = d.attempt_count + 1;
  last_attempt_at = some now;
  lease_expires_at = some lease;
  next_attempt_at = none;
  updated_at = now;
}

abbrev pub claims_row : ℕ → String → Delivery → Bool
claims_row now id d = (d.id == id) && claimable now d

with_row : Option Delivery → List Delivery → List Delivery
with_row none ds = ds
with_row (some d) ds = d ∷ ds

-- The loop over the selected identifiers.
claim_ids : ℕ → ℕ → List String → List Delivery → List Delivery × List Delivery
unfolding with_row
claim_ids now lease [] ds = ([], ds)
claim_ids now lease (id ∷ ids) ds =
    let updated = update_where (claims_row now id) (take_up now lease) ds in
    let rest = claim_ids now lease ids updated in
    if any (claims_row now id) ds
    then (with_row (find_where (λ d. d.id == id) updated) rest.0, rest.1)
    else rest

-- limit <= 0 || limit > 100 gives 10.
abbrev claim_limit : ℤ → ℕ
claim_limit (pos (suc n)) = if leb n 99 then suc n else 10
claim_limit _ = 10

-- leaseDuration <= 0 gives three minutes.
abbrev pub lease_time : ℤ → ℕ
lease_time (pos (suc n)) = suc n
lease_time _ = minutes 3

abbrev oldest_first : Delivery → Delivery → Bool
oldest_first d e = leb d.created_at e.created_at

-- The identifiers that the query selects; an empty `only_id` selects all.
selected : ℕ → String → ℕ → List Delivery → List String
selected now only_id limit ds =
    map (λ d. d.id)
      (take limit (
        sort oldest_first
          (select_where (λ d. claimable now d && (only_id == "" || d.id == only_id)) ds)))

-- claimNotificationDeliveries: what it claimed, and the table. Nobody else claims meanwhile.
unfoldable pub claim_notification_deliveries :
    String → ℕ → ℤ → ℤ → List Delivery → List Delivery × List Delivery
unfolding claim_ids selected
claim_notification_deliveries only_id now lease_duration limit ds =
    let buried = update_where (exhausted now) (bury now) ds in
    claim_ids now (now + lease_time lease_duration)
      (selected now only_id (claim_limit limit) buried) buried

abbrev pub completed_row : ℕ → DeliveryStatus → String → Option ℕ → Delivery → Delivery
completed_row now status error next_attempt_at d = record d {
  status = status;
  error = trim_space error;
  sent_at = elim status [ sent ↦ some now | _ ↦ none ];
  next_attempt_at = elim status [ sent ↦ none | _ ↦ next_attempt_at ];
  lease_expires_at = none;
  updated_at = now;
}

-- status != "sent" && status != "retry" && status != "dead_letter"
abbrev pub completes : DeliveryStatus → Bool
completes sent = true
completes retry = true
completes dead_letter = true
completes _ = false

abbrev pub is_some {ℓ} : {A : Type ℓ} → Option A → Bool
is_some none = false
is_some (some a) = true

abbrev pub in_sending : String → Delivery → Bool
in_sending id d = (d.id == id) && is_sending d.status

complete_rows :
    ℕ → String → DeliveryStatus → String → Option ℕ → List Delivery → Check × List Delivery
complete_rows now id status error next_attempt_at ds = (
  guard (any (in_sending id) ds) (other "notification delivery is not claimed"),
  update_where (in_sending id) (completed_row now status error next_attempt_at) ds,
)

-- CompleteNotificationDelivery
unfoldable pub complete_notification_delivery :
    ℕ → String → DeliveryStatus → String → Option ℕ → List Delivery → Check × List Delivery
unfolding complete_rows
complete_notification_delivery now id status error next_attempt_at ds =
    if not (completes status)
    then (err (other "invalid notification delivery status"), ds)
    else if is_retry status && not (is_some next_attempt_at)
    then (err (other "retry notification delivery requires next attempt time"), ds)
    else complete_rows now id status error next_attempt_at ds

-- PurgeNotificationDeliveriesBefore
unfoldable pub purge_notification_deliveries_before : ℕ → List Delivery → List Delivery
purge_notification_deliveries_before cutoff ds =
    delete_where (λ d. is_over d.status && ltb d.updated_at cutoff) ds
