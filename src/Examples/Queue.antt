-- ===== src/Examples/Queue.antt =====
-- The queue of notifications and an operation at its deadline, at concrete inputs.
use openwrt_rmm.Base.{◌+◌, ◌≡◌, refl, true, false, none, some, List, [], ◌∷◌, arith, All}
use mathlib.Core.Option.{some-injective}
use openwrt_rmm.Schema.{Db, FleetOperation, CommandStatus, ItemStatus, pos, ok}
use openwrt_rmm.Env.{minutes, seconds}
use openwrt_rmm.Notices.Deliveries.{Delivery, DeliveryStatus}
use openwrt_rmm.Notices.Deliveries.Refine.{QueueEvent, claim, complete}
use openwrt_rmm.Fleet.{is_active}
use openwrt_rmm.Fleet.Advance.{round}
use openwrt_rmm.Fleet.Advance.Poll.Overdue.{is_ended}
use openwrt_rmm.Fleet.Advance.Deadline.{round-ends}
use openwrt_rmm.Examples.Data.{noon, env_at, fleet, operation, item, ping}

abbrev mail : Delivery
mail = record {
  id = "ntf_1";
  user_id = "u2";
  dedupe_key = "alert-1:active:email";
  event = "active";
  channel = "email";
  status = DeliveryStatus.queued;
  error = "";
  attempt_count = 0;
  max_attempts = 2;
  created_at = noon;
  updated_at = noon;
  last_attempt_at = none;
  next_attempt_at = some noon;
  lease_expires_at = none;
  sent_at = none;
}

-- A worker that stops, a second attempt that fails, and the end of the attempts.
abbrev attempts : List QueueEvent
attempts =
    claim "" noon (pos 0) (pos 10)
    ∷ claim "" (noon + minutes 5) (pos 0) (pos 10)
    ∷ complete (noon + minutes 6) "ntf_1" DeliveryStatus.retry "no answer" (some (noon + minutes 7))
    ∷ claim "" (noon + minutes 8) (pos 0) (pos 10)
    ∷ []

-- An item whose command is claimed by a router that never answers.
abbrev silent : FleetOperation
silent = record operation {
  items = record item { command_id = "c1"; status = ItemStatus.claimed } ∷ [];
}

abbrev waiting : Db
waiting = record fleet {
  commands =
      record ping { status = CommandStatus.claimed; expires_at = some (noon + seconds 60) } ∷ [];
}

round-ends_example :
    (op' : FleetOperation) × (db' : Db) × (round (env_at (noon + minutes 2)) silent waiting
      ≡ ok (op', db'))
    × (is_active op'.status ≡ false)
    × All (λ i. is_ended i ≡ true) op'.items
round-ends_example =
    round-ends (env_at (noon + minutes 2)) silent waiting refl
      ((λ w c e. ground (arith, some-injective _ _ e)), tt)
