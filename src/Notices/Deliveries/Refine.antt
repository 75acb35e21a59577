-- ===== src/Notices/Deliveries/Refine.antt =====
-- That the operations on the queue of notifications refine the machine of phases,
-- server/internal/store/notifications.go.
use openwrt_rmm.Base.{◌⊎◌, ℕ, ◌+◌, String, ◌≡◌, Option, List, [], ◌∷◌}
use openwrt_rmm.Schema.{ℤ}
use openwrt_rmm.Notices.Deliveries.{
  Delivery, DeliveryStatus, claim_notification_deliveries, complete_notification_delivery,
  lease_time,
}
use openwrt_rmm.Notices.Deliveries.Phases.{Phase, claiming, reporting, Step, Steps, phase_of}

-- What the workers do to the queue.
pub data QueueEvent : Type 0 where
  claim : (only_id : String) (now : ℕ) (lease_duration limit : ℤ) → QueueEvent
  complete :
      (now : ℕ) (id : String) (status : DeliveryStatus) (error : String) (next : Option ℕ)
      → QueueEvent

-- What one event may do to a notification: a claim takes steps of a claim, with the lease that it
-- was asked for; a report takes one step of the notification that it names.
abbrev pub Moves : QueueEvent → String → Phase → Phase → Type 0
Moves (claim only_id now lease limit) id p q = Steps now (claiming (now + lease_time lease)) p q
Moves (complete now i status error next) id p q =
    (p ≡ q) ⊎ ((i ≡ id) × Step now (reporting status next) p q)

-- What the events may do, one after the other.
abbrev pub Course : List QueueEvent → String → Phase → Phase → Type 0
Course [] id p q = p ≡ q
Course (e ∷ es) id p q = (m : Phase) × Moves e id p m × Course es id m q

record Moved (e : QueueEvent) (r s : Delivery) : Type 0 where
  same_id : s.id ≡ r.id
  same_key : s.dedupe_key ≡ r.dedupe_key
  same_max : s.max_attempts ≡ r.max_attempts
  move : Moves e r.id (phase_of r) (phase_of s)

-- A row and what became of it: the same notification, moved by the events in their order.
pub record Refines (es : List QueueEvent) (r s : Delivery) : Type 0 where
  pub same_id : s.id ≡ r.id
  pub same_key : s.dedupe_key ≡ r.dedupe_key
  pub same_max : s.max_attempts ≡ r.max_attempts
  pub path : Course es r.id (phase_of r) (phase_of s)

-- What a claim makes of a row.
record Claimed (now until : ℕ) (r s : Delivery) : Type 0 where
  same_id : s.id ≡ r.id
  same_key : s.dedupe_key ≡ r.dedupe_key
  same_max : s.max_attempts ≡ r.max_attempts
  steps : Steps now (claiming until) (phase_of r) (phase_of s)

module _ (now : ℕ) (id : String) (status : DeliveryStatus) (error : String) (next : Option ℕ) where
  abbrev Reported : Delivery → Delivery → Type 0
  Reported = Moved (complete now id status error next)

unfoldable pub run_queue : List QueueEvent → List Delivery → List Delivery
run_queue [] ds = ds
run_queue (claim only_id now lease limit ∷ es) ds =
    run_queue es (claim_notification_deliveries only_id now lease limit ds).1
run_queue (complete now id status error next ∷ es) ds =
    run_queue es (complete_notification_delivery now id status error next ds).1
