-- ===== src/Fleet/Advance/Deadline.antt =====
-- That an operation ends at its deadline, server/internal/store/fleet_operations.go.
use openwrt_rmm.Base.{
  ◌≡◌, refl, sym, ◌∙◌, subst, Bool, true, false, List, [], ◌∷◌, arith, All, count_where, Bool-cases,
  inl, inr,
}
use openwrt_rmm.Schema.{Db, FleetOperation, FleetOperationItem, Result, ok}
use openwrt_rmm.Env.{Env}
use openwrt_rmm.Access.{fleet_principal}
use openwrt_rmm.Fleet.{is_running, is_active, is_pending, is_working}
use openwrt_rmm.Fleet.Advance.Poll.{Polled, poll_items, expire_commands, expire_pending, is_over}
use openwrt_rmm.Fleet.Advance.Poll.Overdue.{IsDue, is_ended, polled_ended}
use openwrt_rmm.Fleet.Advance.Dispatch.{Loop}
use openwrt_rmm.Fleet.Advance.Dispatch.Counters.{working, poll_items-Counted}
use openwrt_rmm.Fleet.Advance.Dispatch.Idle.{dispatch-none}
use openwrt_rmm.Fleet.Advance.{
  room, final_status, round, round_of, pause_on_failure, canary_done, after_canary,
  dispatch_if_running, store_round,
}

ended_pending :
    (is : List FleetOperationItem)
    → All (λ i. is_ended i ≡ true) is
    → All (λ i. is_pending i.status ≡ false) is
ended_pending [] h = tt
ended_pending (i ∷ is) h = (ground (arith, h.0), ended_pending is h.1)

count_ended :
    (is : List FleetOperationItem)
    → All (λ i. is_ended i ≡ true) is
    → (count_where (λ i. is_pending i.status) is ≡ 0) × (working is ≡ 0)
count_ended [] h = (refl, refl)
count_ended (i ∷ is) h = ground (arith, h.0, count_ended is h.1)

final_ended :
    (is : List FleetOperationItem) (l : Loop)
    → count_where (λ i. is_pending i.status) is ≡ 0
    → l.active ≡ 0
    → is_active (final_status is l) ≡ false
unfolding final_status
final_ended is l p a = ground (arith, p, a)

-- The round of an operation whose items have all ended.
round_of-ended :
    (env : Env) (op : FleetOperation) (access : Result Bool) (db : Db) (p : Polled)
    → All (λ i. is_ended i ≡ true) p.items
    → p.active ≡ 0
    → (op' : FleetOperation) × (db' : Db) × (round_of env op access db p ≡ ok (op', db'))
      × (is_active op'.status ≡ false)
      × (op'.items ≡ p.items)
unfolding round_of store_round dispatch_if_running
round_of-ended env op access db p h idle =
    let after =
      after_canary op.canary_pending (canary_done p.items) (pause_on_failure op p.new_failure) in
    let l : Loop = record { db = db; status = after.1; active = p.active; failed = p.failed } in
    let counts = count_ended p.items h in
    let done = final_ended p.items l counts.0 idle in
    elim (Bool-cases (is_running after.1)) [
      | inl r ↦
          simp
            (r, dispatch-none env op access (room op after.0) p.items l (ended_pending p.items h))
            (_, _, refl, done, refl)
      | inr n ↦ simp n (_, _, refl, done, refl)
    ]

-- A round at the deadline of an operation, or after it, always succeeds and ends the operation:
-- nothing is pending or in work then, and the operation is cancelled, failed or completed. Every
-- command of an item in work that is still stored must have an expiry that has come, as newCommand
-- gives it, whose lifetime here ends with the deadline.
pub round-ends :
    (env : Env) (op : FleetOperation) (db : Db)
    → is_over env op ≡ true
    → All (λ i. is_working i.status ≡ true → IsDue env.now db i) op.items
    → (op' : FleetOperation) × (db' : Db) × (round env op db ≡ ok (op', db'))
      × (is_active op'.status ≡ false)
      × All (λ i. is_ended i ≡ true) op'.items
unfolding round
round-ends env op db over due =
    let expired = expire_commands env op db in
    let p = poll_items env expired op (expire_pending env op) in
    let ended = polled_ended env op db over due in
    let counted = poll_items-Counted env expired op (expire_pending env op) in
    let (op', db', e, inactive, items) =
      round_of-ended env op (fleet_principal db op.user_id) expired p ended
        (counted.active_counts ∙ (count_ended p.items ended).1) in
    (op', db', e, inactive, subst (All (λ i. is_ended i ≡ true)) (sym items) ended)
