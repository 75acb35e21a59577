-- ===== src/Fleet/Advance/Limits.antt =====
-- What one round of a fleet operation keeps, server/internal/store/fleet_operations.go.
use openwrt_rmm.Base.{
  ℕ, ◌≤◌, ◌≡◌, refl, sym, ◌∙◌, ◌≢◌, ◌⊎◌, inl, inr, Bool, true, false, List, [], ◌∷◌, arith, All,
  map, count_where, Bool-cases, Related, Related-refl, Related-then, ap,
}
use openwrt_rmm.Schema.{
  Db, Command, FleetOperation, FleetOperationItem, ItemStatus, OperationStatus, Result, ok, err,
}
use openwrt_rmm.Env.{Env}
use openwrt_rmm.Access.{fleet_principal}
use openwrt_rmm.Fleet.{is_running, is_active, is_pending, is_working}
use openwrt_rmm.Fleet.Advance.Poll.{
  Polled, poll_items, expire_commands, expire_pending, expire_item, is_over,
}
use openwrt_rmm.Fleet.Advance.Poll.Unsent.{
  poll_item-working, Unsent, Unchanged, Unsent-trans, expire_pending-Unsent, poll_items-Unsent,
  expire_commands-Unchanged,
}
use openwrt_rmm.Fleet.Advance.Dispatch.{Loop}
use openwrt_rmm.Fleet.Advance.Dispatch.Counters.{
  working, failures, poll_items-Counted, LoopBalanced, dispatch-Balanced, LoopBalanced-refl,
}
use openwrt_rmm.Fleet.Advance.Dispatch.Authority.{Fate, Fate-refl, SameRights, dispatch-Fate}
use openwrt_rmm.Fleet.Advance.{
  room, final_status, round, round_of, pause_on_failure, canary_done, after_canary,
  dispatch_if_running, store_round,
}

poll_items-working :
    (env : Env) (db : Db) (op : FleetOperation) (is : List FleetOperationItem)
    → working (poll_items env db op is).items ≤ working is
unfolding poll_items
poll_items-working env db op [] = omega arith
poll_items-working env db op (i ∷ is) =
    ground (arith, poll_item-working env db op i, poll_items-working env db op is)

expire_item-working :
    (i : FleetOperationItem) → is_working (expire_item i).status ≡ is_working i.status
unfolding expire_item
expire_item-working i = ground arith

map-expire_item-working : (is : List FleetOperationItem) → working (map expire_item is) ≡ working is
map-expire_item-working [] = refl
map-expire_item-working (i ∷ is) = ground (arith, expire_item-working i, map-expire_item-working is)

expire_pending-working :
    (env : Env) (op : FleetOperation) → working (expire_pending env op) ≡ working op.items
unfolding expire_pending
expire_pending-working env op = elim (Bool-cases (is_over env op)) [
  | inl t ↦ rw t (map-expire_item-working op.items)
  | inr f ↦ rw f
]

-- What is known of a loop, also of one that does not run.
pub record Looped (env : Env) (op : FleetOperation) (access : Result Bool) (limit : ℕ)
    (is js : List FleetOperationItem) (l n : Loop) : Type 0 where
  pub balanced : LoopBalanced limit is js l n
  pub fates : Related (Fate l.db op access) is js
  pub idle : is_running l.status ≡ false → (js ≡ is) × (n.db ≡ l.db)

SameRights-refl : (d : Db) → SameRights d d
SameRights-refl d = record { same_users = refl; same_devices = refl; same_policies = refl }

idle-Looped :
    (env : Env) (op : FleetOperation) (access : Result Bool) (limit : ℕ)
    (is : List FleetOperationItem) (l : Loop) (js : List FleetOperationItem) (n : Loop)
    → ◌≡◌ {A = Result (List FleetOperationItem × Loop)} (ok (is, l)) (ok (js, n))
    → Looped env op access limit is js l n
idle-Looped env op access limit is l js n e =
    let shape : js ≡ is = cc in
    let last : n ≡ l = cc in
    rw (shape, last)
      (record {
        balanced = LoopBalanced-refl limit is l;
        fates = Related-refl (Fate-refl l.db op access) is;
        idle = λ r. (refl, refl);
      })

dispatch_if_running-Looped :
    (env : Env) (op : FleetOperation) (access : Result Bool) (limit : ℕ)
    (is : List FleetOperationItem) (l : Loop) (js : List FleetOperationItem) (n : Loop)
    → dispatch_if_running env op access limit is l ≡ ok (js, n)
    → Looped env op access limit is js l n
unfolding dispatch_if_running
dispatch_if_running-Looped env op access limit is l js n e =
    elim (Bool-cases (is_running l.status)) [
      | inl t ↦
          let q = rw t at e in
          record {
            balanced = dispatch-Balanced env op access limit is l js n q;
            fates = dispatch-Fate env l.db op access limit is l js n (SameRights-refl l.db) q;
            idle = λ r. absurd (ground (arith, t, r));
          }
      | inr f ↦ idle-Looped env op access limit is l js n (rw f at e)
    ]

-- What the end of a round knows of the loop that made it.
pub record Made (env : Env) (op : FleetOperation) (access : Result Bool) (db : Db) (p : Polled)
    (op' : FleetOperation) (db' : Db) : Type 0 where
  pub last : Loop
  pub status_in : OperationStatus
  pub started : (status_in ≡ op.status) ⊎ (status_in ≡ OperationStatus.paused)
  pub looped :
      Looped env op access
        (room op op'.canary_pending)
        p.items
        op'.items
        (record { db = db; status = status_in; active = p.active; failed = p.failed })
        last
  pub ended : op'.status ≡ final_status op'.items last
  pub same_commands : db'.commands ≡ last.db.commands

start_status :
    (op : FleetOperation) (new done : Bool)
    → let s = (after_canary op.canary_pending done (pause_on_failure op new)).1 in
      (s ≡ op.status) ⊎ (s ≡ OperationStatus.paused)
unfolding after_canary pause_on_failure
start_status op new done = ground arith

store_round-eq-ok :
    (env : Env) (op : FleetOperation) (canary : Bool) (r : Result (List FleetOperationItem × Loop))
    (op' : FleetOperation) (db' : Db)
    → store_round env op canary r ≡ ok (op', db')
    → (js : List FleetOperationItem) × (n : Loop) × (r ≡ ok (js, n))
      × (op' ≡ record op {
        items = js;
        status = final_status js n;
        canary_pending = canary;
        updated_at = env.now;
      })
      × (db'.commands ≡ n.db.commands)
unfolding store_round
store_round-eq-ok env op canary (ok (js, n)) op' db' h = (js, n, refl, cc, sym (ap commands_of h))
  where
    commands_of : Result (FleetOperation × Db) → List Command
    commands_of (ok (o, d)) = d.commands
    commands_of (err e) = []
store_round-eq-ok env op canary (err e) op' db' h = cc

round_of-Made :
    (env : Env) (op : FleetOperation) (access : Result Bool) (db : Db) (p : Polled)
    (op' : FleetOperation) (db' : Db)
    → round_of env op access db p ≡ ok (op', db')
    → Made env op access db p op' db'
unfolding round_of
round_of-Made env op access db p op' db' h =
    let after =
      after_canary op.canary_pending (canary_done p.items) (pause_on_failure op p.new_failure) in
    let start : Loop = record { db = db; status = after.1; active = p.active; failed = p.failed } in
    let (js, n, q, shape, same) =
      store_round-eq-ok env op after.0
        (dispatch_if_running env op access (room op after.0) p.items start) op' db' h in
    rw shape (record {
      last = n;
      status_in = after.1;
      started = start_status op p.new_failure (canary_done p.items);
      looped = dispatch_if_running-Looped env op access (room op after.0) p.items start js n q;
      ended = refl;
      same_commands = same;
    })

final_status-completed :
    (is : List FleetOperationItem) (l : Loop)
    → final_status is l ≡ OperationStatus.completed
    → l.status ≢ OperationStatus.completed
    → (count_where (λ i. is_pending i.status) is ≡ 0) × (l.active ≡ 0) × (l.failed ≡ 0)
unfolding final_status
final_status-completed is l h ne = ground arith

unfinished :
    (op : FleetOperation) (s t : OperationStatus)
    → is_active op.status ≡ true
    → (s ≡ op.status) ⊎ (s ≡ OperationStatus.paused)
    → (t ≡ s) ⊎ (t ≡ OperationStatus.paused)
    → t ≢ OperationStatus.completed
unfinished op s t h a b = ground arith

count_where-done :
    (is : List FleetOperationItem)
    → count_where (λ i. is_pending i.status) is ≡ 0
    → working is ≡ 0
    → failures is ≡ 0
    → All (λ i. (i.status ≡ ItemStatus.completed) ⊎ (i.status ≡ ItemStatus.cancelled)) is
count_where-done [] p w f = tt
count_where-done (i ∷ is) p w f = ground (arith, count_where-done is)

module _ (env : Env) (op : FleetOperation) (db : Db) (op' : FleetOperation) (db' : Db)
    (advanced : round env op db ≡ ok (op', db')) where
  unfoldable pub polled : Polled
  polled = poll_items env (expire_commands env op db) op (expire_pending env op)

  pub made : Made env op (fleet_principal db op.user_id) (expire_commands env op db) polled op' db'
  unfolding round polled
  made = round_of-Made env op (fleet_principal db op.user_id) _ _ op' db' advanced

  -- A round puts no more items in work than the operation's parallelism allows, and while the
  -- canary is pending no more than one; more can only be in work when they were before it.
  pub round-working :
      (working op'.items ≤ working op.items) ⊎ (working op'.items ≤ room op op'.canary_pending)
  unfolding polled
  round-working = ground (
    arith,
    made.looped.balanced,
    expire_pending-working env op,
    poll_items-Counted env (expire_commands env op db) op (expire_pending env op),
    poll_items-working env (expire_commands env op db) op (expire_pending env op),
  )

  -- An operation that does not run sends nothing: no item goes to work, and no command is added or
  -- changed, but for those that expire.
  pub round-idle :
      is_running op.status ≡ false
      → Related Unsent op.items op'.items × Related Unchanged db.commands db'.commands
  unfolding polled
  round-idle h =
      let idle : is_running made.status_in ≡ false = ground (arith, made.started) in
      let (items, last) = made.looped.idle idle in
      (
        rw items (
            Related-then Unsent-trans (expire_pending-Unsent env op)
              (poll_items-Unsent env (expire_commands env op db) op (expire_pending env op))),
        rw (made.same_commands, last) (expire_commands-Unchanged env op db),
      )

  -- When a round completes an active operation, every item is completed or cancelled then.
  pub round-completed :
      is_active op.status ≡ true
      → op'.status ≡ OperationStatus.completed
      → All (λ i. (i.status ≡ ItemStatus.completed) ⊎ (i.status ≡ ItemStatus.cancelled)) op'.items
  unfolding polled
  round-completed h e =
      let counted = poll_items-Counted env (expire_commands env op db) op (expire_pending env op) in
      let (none_pending, idle, sound) =
        final_status-completed op'.items made.last (sym made.ended ∙ e) (
          unfinished op made.status_in made.last.status h made.started
            made.looped.balanced.status_moves) in
      count_where-done op'.items none_pending (omega (arith, counted, made.looped.balanced))
        (omega (arith, counted, made.looped.balanced))
