-- ===== src/Fleet/Advance/Dispatch/Authority.antt =====
-- Whom advanceFleetOperation sends commands to, server/internal/store/fleet_operations.go.
use openwrt_rmm.Base.{
  ℕ, ◌≡◌, refl, sym, ◌∙◌, String, Bool, true, false, List, [], ◌∷◌, arith, Related, none_left, both,
  inl, inr, ◌==◌, Bool-cases, Related-refl,
}
use openwrt_rmm.Schema.{Db, Command, FleetOperation, FleetOperationItem, Result, Check, ok, err}
use openwrt_rmm.Env.{Env}
use openwrt_rmm.Access.{fleet_device_access, permission_allowed, permission_policy}
use openwrt_rmm.Fleet.{is_working}
use openwrt_rmm.Fleet.Advance.Dispatch.{
  Loop, Decision, skip, deny, current, changed, send, abort, Step, next, break, raise, target_check,
  decide_item, dispatch_item, dispatch, take_decision, sent, fail_item, after_step, send_command,
  access_decision, allowed_decision,
}
use openwrt_rmm.Fleet.Advance.Dispatch.Counters.{prepend-eq-ok}

-- The tables that decide on access are the same.
pub record SameRights (d e : Db) : Type 0 where
  pub same_users : e.users ≡ d.users
  pub same_devices : e.devices ≡ d.devices
  pub same_policies : e.policies ≡ d.policies

target_check-SameRights :
    (d e : Db) (op : FleetOperation) (access : Result Bool) (i : FleetOperationItem)
    → SameRights d e
    → target_check e op access i ≡ target_check d op access i
unfolding target_check fleet_device_access permission_allowed permission_policy
target_check-SameRights d e op access i s = rw (s.same_devices, s.same_policies)

-- An item that is put in work passed the access check.
pub record Fate (db : Db) (op : FleetOperation) (access : Result Bool) (i i' : FleetOperationItem)
    : Type 0 where
  pub same_device : i'.device_id ≡ i.device_id
  pub authorized :
      is_working i.status ≡ false
      → is_working i'.status ≡ true
      → target_check db op access i ≡ ok tt

record Passed (op : FleetOperation) (access : Result Bool) (i i' : FleetOperationItem) (l l' : Loop)
    : Type 0 where
  rights : SameRights l.db l'.db
  fate : Fate l.db op access i i'

abbrev StepPassed : FleetOperation → Result Bool → FleetOperationItem → Loop → Step → Type 0
StepPassed op access i l (next i' l') = Passed op access i i' l l'
StepPassed op access i l (break i' l') = Passed op access i i' l l'
StepPassed op access i l (raise e) = Unit

access_decision-send : (c : Check) (d : Decision) → access_decision c d ≡ send → c ≡ ok tt
unfolding access_decision
access_decision-send (ok u) d h = refl
access_decision-send (err e) d h = ground arith

decide_item-send :
    (db : Db) (op : FleetOperation) (access : Result Bool) (limit active : ℕ)
    (i : FleetOperationItem)
    → decide_item db op access limit active i ≡ send
    → target_check db op access i ≡ ok tt
unfolding decide_item
decide_item-send db op access limit active i h =
    access_decision-send (target_check db op access i) (allowed_decision db op i) (ground arith)

send_command-SameRights :
    (env : Env) (op : FleetOperation) (c : Command) (db : Db)
    → SameRights db (send_command env op c db)
unfolding send_command
send_command-SameRights env op c db = elim (Bool-cases (op.kind == "system_backup_create")) [
  | inl t ↦ rw t (record { same_users = refl; same_devices = refl; same_policies = refl })
  | inr f ↦ rw f (record { same_users = refl; same_devices = refl; same_policies = refl })
]

sent-Passed :
    (env : Env) (op : FleetOperation) (access : Result Bool) (i : FleetOperationItem) (l : Loop)
    (r : Result Command)
    → target_check l.db op access i ≡ ok tt
    → StepPassed op access i l (sent env op i l r)
unfolding sent
sent-Passed env op access i l (ok c) h = record {
  rights = send_command-SameRights env op c l.db;
  fate = record { same_device = refl; authorized = λ w v. h };
}
sent-Passed env op access i l (err e) h = tt

fail_item-Passed :
    (op : FleetOperation) (access : Result Bool) (message : String) (i : FleetOperationItem)
    (l : Loop)
    → StepPassed op access i l (fail_item op message i l)
unfolding fail_item
fail_item-Passed op access message i l = elim (Bool-cases op.stop_on_failure) [
  | inl t ↦ rw t (ground arith)
  | inr f ↦ rw f (ground arith)
]

take_decision-Passed :
    (env : Env) (op : FleetOperation) (access : Result Bool) (i : FleetOperationItem) (l : Loop)
    (d : Decision)
    → (d ≡ send → target_check l.db op access i ≡ ok tt)
    → StepPassed op access i l (take_decision env op i l d)
unfolding take_decision
take_decision-Passed env op access i l skip h = ground arith
take_decision-Passed env op access i l deny h = fail_item-Passed op access _ i l
take_decision-Passed env op access i l current h = ground arith
take_decision-Passed env op access i l changed h = fail_item-Passed op access _ i l
take_decision-Passed env op access i l send h = sent-Passed env op access i l _ (h refl)
take_decision-Passed env op access i l (abort e) h = tt

pub Fate-refl :
    (db : Db) (op : FleetOperation) (access : Result Bool) (i : FleetOperationItem)
    → Fate db op access i i
Fate-refl db op access i = record { same_device = refl; authorized = λ w v. cc }

dispatch_item-Passed :
    (env : Env) (op : FleetOperation) (access : Result Bool) (limit : ℕ) (i : FleetOperationItem)
    (l : Loop)
    → StepPassed op access i l (dispatch_item env op access limit i l)
unfolding dispatch_item
dispatch_item-Passed env op access limit i l =
    take_decision-Passed env op access i l _ (decide_item-send l.db op access limit l.active i)

Fate-SameRights :
    (d e : Db) (op : FleetOperation) (access : Result Bool) (i j : FleetOperationItem)
    → SameRights d e
    → Fate e op access i j
    → Fate d op access i j
Fate-SameRights d e op access i j s f = record {
  same_device = f.same_device;
  authorized = λ w v. sym (target_check-SameRights d e op access i s) ∙ f.authorized w v;
}

SameRights-trans : (c d e : Db) → SameRights c d → SameRights d e → SameRights c e
SameRights-trans c d e h k = record {
  same_users = k.same_users ∙ h.same_users;
  same_devices = k.same_devices ∙ h.same_devices;
  same_policies = k.same_policies ∙ h.same_policies;
}

module _ (d : Db) (op : FleetOperation) (access : Result Bool) where
  after_step-Fate :
      (i : FleetOperationItem) (is : List FleetOperationItem)
      (rest : Loop → Result (List FleetOperationItem × Loop)) (l : Loop) (s : Step)
      → SameRights d l.db
      → StepPassed op access i l s
      → ((m : Loop) (ks : List FleetOperationItem) (o : Loop)
          → SameRights d m.db
          → rest m ≡ ok (ks, o)
          → Related (Fate d op access) is ks)
      → (js : List FleetOperationItem) (n : Loop) → after_step is rest s ≡ ok (js, n)
      → Related (Fate d op access) (i ∷ is) js
  unfolding after_step
  after_step-Fate i is rest l (next i' m) same p k js n e =
      let (ks, q, shape) = prepend-eq-ok i' (rest m) js n e in
      rw shape (
        both (Fate-SameRights d l.db op access i i' same p.fate)
          (k m ks n (SameRights-trans d l.db m.db same p.rights) q))
  after_step-Fate i is rest l (break i' m) same p k js n e =
      let shape : js ≡ i' ∷ is = cc in
      rw shape (
        both (Fate-SameRights d l.db op access i i' same p.fate)
          (Related-refl (Fate-refl d op access) is))
  after_step-Fate i is rest l (raise x) same p k js n e = cc

-- Every item that the loop puts in work passed the access check on the tables as they were, and
-- no item changes its device.
pub dispatch-Fate :
    (env : Env) (d : Db) (op : FleetOperation) (access : Result Bool) (limit : ℕ)
    (is : List FleetOperationItem) (l : Loop) (js : List FleetOperationItem) (n : Loop)
    → SameRights d l.db
    → dispatch env op access limit is l ≡ ok (js, n)
    → Related (Fate d op access) is js
unfolding dispatch
dispatch-Fate env d op access limit [] l js n same e =
    let shape : js ≡ [] = cc in rw shape none_left
dispatch-Fate env d op access limit (i ∷ is) l js n same e =
    after_step-Fate d op access i is _ l (dispatch_item env op access limit i l) same
      (dispatch_item-Passed env op access limit i l)
      (λ m ks o s q. dispatch-Fate env d op access limit is m ks o s q) js n e
