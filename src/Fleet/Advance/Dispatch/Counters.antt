-- ===== src/Fleet/Advance/Dispatch/Counters.antt =====
-- The counters of advanceFleetOperation count what they are named after,
-- server/internal/store/fleet_operations.go.
use openwrt_rmm.Base.{
  ℕ, ◌+◌, ◌≤◌, ◌<◌, ◌≡◌, refl, Bool, true, not, ◌||◌, ◌⊎◌, inl, inr, List, [], ◌∷◌, arith,
  count_where, leb, Bool-cases, String,
}
use openwrt_rmm.Schema.{
  Db, Command, FleetOperation, FleetOperationItem, OperationStatus, Result, ok, err,
}
use openwrt_rmm.Env.{Env}
use openwrt_rmm.Fleet.{is_pending, is_working, is_failed}
use openwrt_rmm.Fleet.Advance.Poll.{Polled, poll_items, one_if}
use openwrt_rmm.Fleet.Advance.Dispatch.{
  Loop, Decision, skip, deny, current, changed, send, abort, Step, next, break, raise, decide_item,
  dispatch_item, dispatch, take_decision, sent, fail_item, after_step, prepend,
}

-- How many items are in work, failed, pending.
abbrev pub working : List FleetOperationItem → ℕ
working is = count_where (λ i. is_working i.status) is

abbrev pub failures : List FleetOperationItem → ℕ
failures is = count_where (λ i. is_failed i.status) is

-- The counters after the polling.
pub record Counted (p : Polled) : Type 0 where
  pub active_counts : p.active ≡ working p.items
  pub failed_counts : p.failed ≡ failures p.items

pub poll_items-Counted :
    (env : Env) (db : Db) (op : FleetOperation) (is : List FleetOperationItem)
    → Counted (poll_items env db op is)
unfolding poll_items
poll_items-Counted env db op [] = record { active_counts = refl; failed_counts = refl }
poll_items-Counted env db op (i ∷ is) = ground (arith, poll_items-Counted env db op is)

-- What one pass keeps: the counters move with the item's status, and work is added below the limit.
pub record Balanced (limit : ℕ) (i i' : FleetOperationItem) (l l' : Loop) : Type 0 where
  pub active_moves :
      l'.active + one_if (is_working i.status) 0 ≡ l.active + one_if (is_working i'.status) 0
  pub failed_moves :
      l'.failed + one_if (is_failed i.status) 0 ≡ l.failed + one_if (is_failed i'.status) 0
  pub limited : (l'.active ≡ l.active) ⊎ (l'.active ≤ limit)
  pub status_moves : (l'.status ≡ l.status) ⊎ (l'.status ≡ OperationStatus.paused)

abbrev StepBalanced : ℕ → FleetOperationItem → Loop → Step → Type 0
StepBalanced limit i l (next i' l') = Balanced limit i i' l l'
StepBalanced limit i l (break i' l') = Balanced limit i i' l l'
StepBalanced limit i l (raise e) = Unit

-- Only a pending item below the limit is decided on.
abbrev Decided : ℕ → ℕ → FleetOperationItem → Decision → Type 0
Decided limit active i skip = Unit
Decided limit active i _ = (is_pending i.status ≡ true) × (active < limit)

decide_item-Decided :
    (db : Db) (op : FleetOperation) (access : Result Bool) (limit active : ℕ)
    (i : FleetOperationItem)
    → (decide_item db op access limit active i ≡ skip)
      ⊎ ((is_pending i.status ≡ true) × (active < limit))
unfolding decide_item
decide_item-Decided db op access limit active i =
    elim (Bool-cases (not (is_pending i.status) || leb limit active)) [
      | inl t ↦ inl (rw t)
      | inr f ↦ inr (ground arith)
    ]

sent-Balanced :
    (env : Env) (op : FleetOperation) (limit : ℕ) (i : FleetOperationItem) (l : Loop)
    (r : Result Command)
    → is_pending i.status ≡ true
    → l.active < limit
    → StepBalanced limit i l (sent env op i l r)
unfolding sent
sent-Balanced env op limit i l (ok c) p h = ground arith
sent-Balanced env op limit i l (err e) p h = tt

fail_item-Balanced :
    (op : FleetOperation) (message : String) (limit : ℕ) (i : FleetOperationItem) (l : Loop)
    → is_pending i.status ≡ true
    → StepBalanced limit i l (fail_item op message i l)
unfolding fail_item
fail_item-Balanced op message limit i l p = elim (Bool-cases op.stop_on_failure) [
  | inl t ↦ rw t (ground arith)
  | inr f ↦ rw f (ground arith)
]

take_decision-Balanced :
    (env : Env) (op : FleetOperation) (limit : ℕ) (i : FleetOperationItem) (l : Loop) (d : Decision)
    → (d ≡ skip) ⊎ ((is_pending i.status ≡ true) × (l.active < limit))
    → StepBalanced limit i l (take_decision env op i l d)
unfolding take_decision
take_decision-Balanced env op limit i l skip h = ground arith
take_decision-Balanced env op limit i l deny (inl e) = cc
take_decision-Balanced env op limit i l deny (inr h) = fail_item-Balanced op _ limit i l h.0
take_decision-Balanced env op limit i l current (inl e) = cc
take_decision-Balanced env op limit i l current (inr h) = ground arith
take_decision-Balanced env op limit i l changed (inl e) = cc
take_decision-Balanced env op limit i l changed (inr h) = fail_item-Balanced op _ limit i l h.0
take_decision-Balanced env op limit i l send (inl e) = cc
take_decision-Balanced env op limit i l send (inr h) = sent-Balanced env op limit i l _ h.0 h.1
take_decision-Balanced env op limit i l (abort e) h = tt

dispatch_item-Balanced :
    (env : Env) (op : FleetOperation) (access : Result Bool) (limit : ℕ) (i : FleetOperationItem)
    (l : Loop)
    → StepBalanced limit i l (dispatch_item env op access limit i l)
unfolding dispatch_item
dispatch_item-Balanced env op access limit i l =
    take_decision-Balanced env op limit i l _ (decide_item-Decided l.db op access limit l.active i)

-- What the whole loop keeps.
pub record LoopBalanced (limit : ℕ) (is is' : List FleetOperationItem) (l l' : Loop) : Type 0 where
  pub active_moves : l'.active + working is ≡ l.active + working is'
  pub failed_moves : l'.failed + failures is ≡ l.failed + failures is'
  pub limited : (l'.active ≡ l.active) ⊎ (l'.active ≤ limit)
  pub status_moves : (l'.status ≡ l.status) ⊎ (l'.status ≡ OperationStatus.paused)

both-Balanced :
    (limit : ℕ) (i i' : FleetOperationItem) (is is' : List FleetOperationItem) (l m n : Loop)
    → Balanced limit i i' l m
    → LoopBalanced limit is is' m n
    → LoopBalanced limit (i ∷ is) (i' ∷ is') l n
both-Balanced limit i i' is is' l m n h k = ground arith

pub LoopBalanced-refl :
    (limit : ℕ) (is : List FleetOperationItem) (l : Loop) → LoopBalanced limit is is l l
LoopBalanced-refl limit is l = record {
  active_moves = refl;
  failed_moves = refl;
  limited = inl refl;
  status_moves = inl refl;
}

pub prepend-eq-ok :
    (i : FleetOperationItem) (r : Result (List FleetOperationItem × Loop))
    (js : List FleetOperationItem) (n : Loop)
    → prepend i r ≡ ok (js, n)
    → (ks : List FleetOperationItem) × (r ≡ ok (ks, n)) × (js ≡ i ∷ ks)
unfolding prepend
prepend-eq-ok i (ok (ks, m)) js n e = (ks, cc, cc)
prepend-eq-ok i (err x) js n e = cc

after_step-Balanced :
    (limit : ℕ) (i : FleetOperationItem) (is : List FleetOperationItem)
    (rest : Loop → Result (List FleetOperationItem × Loop)) (l : Loop) (s : Step)
    → StepBalanced limit i l s
    → ((m : Loop) (js : List FleetOperationItem) (n : Loop)
        → rest m ≡ ok (js, n)
        → LoopBalanced limit is js m n)
    → (js : List FleetOperationItem) (n : Loop) → after_step is rest s ≡ ok (js, n)
    → LoopBalanced limit (i ∷ is) js l n
unfolding after_step
after_step-Balanced limit i is rest l (next i' m) h k js n e =
    let (ks, q, shape) = prepend-eq-ok i' (rest m) js n e in
    rw shape (both-Balanced limit i i' is ks l m n h (k m ks n q))
after_step-Balanced limit i is rest l (break i' m) h k js n e =
    let same = both-Balanced limit i i' is is l m m h (LoopBalanced-refl limit is m) in
    let shape : js ≡ i' ∷ is = cc in let last : n ≡ m = cc in rw (shape, last) same
after_step-Balanced limit i is rest l (raise x) h k js n e = cc

pub dispatch-Balanced :
    (env : Env) (op : FleetOperation) (access : Result Bool) (limit : ℕ)
    (is : List FleetOperationItem) (l : Loop) (js : List FleetOperationItem) (n : Loop)
    → dispatch env op access limit is l ≡ ok (js, n)
    → LoopBalanced limit is js l n
unfolding dispatch
dispatch-Balanced env op access limit [] l js n e = ground arith
dispatch-Balanced env op access limit (i ∷ is) l js n e =
    after_step-Balanced limit i is _ l (dispatch_item env op access limit i l)
      (dispatch_item-Balanced env op access limit i l)
      (λ m ks o. dispatch-Balanced env op access limit is m ks o) js n e
