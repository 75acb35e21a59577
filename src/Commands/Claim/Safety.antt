-- ===== src/Commands/Claim/Safety.antt =====
-- What ClaimNextCommand hands out, server/internal/store/sqlite.go.
use openwrt_rmm.Base.{
  Memᴰ, earliest-Mem, find_where, any, count_where, eqb, ◌≢◌, ℕ, ◌+◌, ◌<◌, String, ◌≡◌, refl, sym,
  ap, ◌∙◌, Bool, true, false, ◌&&◌, inl, inr, Option, none, some, arith, earliest-select_where,
  ◌==◌, eq_iff,
}
use openwrt_rmm.Schema.{
  FleetOperation, Rollout, RolloutDevice, Check, err, Db, Command, CommandStatus, Result-cases, ok,
}
use openwrt_rmm.Env.{Env, minutes}
use openwrt_rmm.Access.{fleet_principal, permission_allowed}
use openwrt_rmm.Rollouts.Pause.{is_running, is_failure}
use openwrt_rmm.Commands.{expire_claimed_commands, is_queued, past}
use openwrt_rmm.Commands.Claim.{
  fleet_gate, fleet_check, rollout_gate, wave_gate, is_guarded, Gate, deliver, and_then, gate,
  gate_of, creator, creator_gate, next_command, deliverable, pass, claim_found, claim_next_command,
}

-- The row of the table that the delivered command stands for, with what was checked of it.
pub record Delivered (env : Env) (device_id : String) (db : Db) (c : Command) : Type 0 where
  pub row : Command
  pub stored : Memᴰ row db.commands
  pub is_row :
      c ≡ record row { status = CommandStatus.claimed; attempt_count = row.attempt_count + 1 }
  pub own_device : row.device_id ≡ device_id
  pub was_queued : is_queued row.status ≡ true
  pub attempts_left : row.attempt_count < row.max_attempts
  pub in_time : past row.expires_at env.now ≡ false
  pub checked : gate env db device_id row ≡ deliver
  pub of_operation :
      (o : FleetOperation)
      → find_where (λ x. any (λ i. i.command_id == row.id) x.items) db.operations ≡ some o
      → fleet_check db o.user_id device_id row ≡ ok tt
  pub of_rollout :
      (r : Rollout) (d : RolloutDevice)
      → row.kind ≡ "agent_update"
      → find_where (λ x. is_guarded x && any (λ y. y.command_id == row.id) x.devices) db.rollouts
        ≡ some r
      → find_where (λ y. y.command_id == row.id) r.devices ≡ some d
      → (is_running r.status ≡ true)
        × (count_where (λ x. eqb x.batch d.batch && is_failure x.status) r.devices ≡ 0)

pub next_command-deliverable :
    (env : Env) (device_id : String) (db : Db) (c : Command)
    → next_command env device_id db ≡ some c
    → deliverable env.now device_id c ≡ true
unfolding next_command
next_command-deliverable env device_id db c h =
    earliest-select_where (λ x. x.created_at) (deliverable env.now device_id) db.commands c h

pass-some :
    (env : Env) (r c : Command) (g : Gate) (db : Db)
    → (pass env r g db).0 ≡ ok (some c)
    → (g ≡ deliver)
      × (c ≡ record r { status = CommandStatus.claimed; attempt_count = r.attempt_count + 1 })
unfolding pass
pass-some env r c g db h = ground arith

and_then-deliver : (g h : Gate) → and_then g h ≡ deliver → (g ≡ deliver) × (h ≡ deliver)
and_then-deliver g h e = ground arith

wave_gate-deliver :
    (r : Rollout) (d : RolloutDevice)
    → wave_gate r (some d) ≡ deliver
    → (is_running r.status ≡ true)
      × (count_where (λ x. eqb x.batch d.batch && is_failure x.status) r.devices ≡ 0)
unfolding wave_gate
wave_gate-deliver r d h = (ground arith, ground arith)

gate_of-deliver :
    (denied : Gate) (c : Check) → gate_of denied c ≡ deliver → denied ≢ deliver → c ≡ ok tt
unfolding gate_of
gate_of-deliver denied (ok u) h ne = refl
gate_of-deliver denied (err e) h ne = ground arith

fleet_gate-deliver :
    (db : Db) (device_id : String) (c : Command) (o : FleetOperation)
    → fleet_gate db device_id c ≡ deliver
    → find_where (λ x. any (λ i. i.command_id == c.id) x.items) db.operations ≡ some o
    → fleet_check db o.user_id device_id c ≡ ok tt
unfolding fleet_gate
fleet_gate-deliver db device_id c o h f =
    gate_of-deliver _ (fleet_check db o.user_id device_id c) (rw (f, fleet_gate) at h) (λ e. cc)

rollout_gate-deliver :
    (db : Db) (c : Command) (r : Rollout) (d : RolloutDevice)
    → rollout_gate db c ≡ deliver
    → c.kind ≡ "agent_update"
    → find_where (λ x. is_guarded x && any (λ y. y.command_id == c.id) x.devices) db.rollouts
      ≡ some r
    → find_where (λ y. y.command_id == c.id) r.devices ≡ some d
    → (is_running r.status ≡ true)
      × (count_where (λ x. eqb x.batch d.batch && is_failure x.status) r.devices ≡ 0)
unfolding rollout_gate wave_gate
rollout_gate-deliver db c r d h k f g =
    let passed : wave_gate r (some d) ≡ deliver = rw (k, f, g) at h in wave_gate-deliver r d passed

claim_found-Delivered :
    (env : Env) (device_id : String) (db : Db) (o : Option Command) (c : Command)
    → next_command env device_id db ≡ o
    → (claim_found env device_id o db).0 ≡ ok (some c)
    → Delivered env device_id db c
unfolding claim_found next_command gate
claim_found-Delivered env device_id db none c n h = ground arith
claim_found-Delivered env device_id db (some r) c n h =
    let d = next_command-deliverable env device_id db r n in
    let (g, e) = pass-some env r c (gate env db device_id r) db h in
    let gates = and_then-deliver _ _ g in
    let late = and_then-deliver _ _ gates.1 in
    let last = and_then-deliver _ _ late.1 in
    record {
      row = r;
      stored = earliest-Mem (λ x. x.created_at) (deliverable env.now device_id) db.commands r n;
      is_row = e;
      own_device = ground (arith, eq_iff r.device_id device_id);
      was_queued = ground arith;
      attempts_left = ground arith;
      in_time = ground arith;
      checked = g;
      of_operation = λ o f. fleet_gate-deliver db device_id r o last.0 f;
      of_rollout = λ s d k f q. rollout_gate-deliver db r s d gates.0 k f q;
    }

-- A command that is delivered is a row of the table, up to its status and its count of attempts:
-- the row was queued there for the asking device, with an attempt left, before its expiry. Every
-- check let it through; the owner of a fleet operation that it belongs to still has access, and an
-- update of a guarded rollout is delivered only while the rollout runs and its wave has no failed
-- target.
pub claim_next_command-Delivered :
    (env : Env) (device_id : String) (db : Db) (c : Command)
    → (claim_next_command env device_id db).0 ≡ ok (some c)
    → Delivered env device_id (expire_claimed_commands env (minutes 2) db) c
unfolding claim_next_command
claim_next_command-Delivered env device_id db c h =
    let db' = expire_claimed_commands env (minutes 2) db in
    claim_found-Delivered env device_id db' (next_command env device_id db') c refl h

creator_gate-deliver :
    (db : Db) (device_id : String) (o : Option (String × String)) (user permission : String)
    → creator_gate db device_id o ≡ deliver
    → o ≡ some (user, permission)
    → (admin : Bool) × (fleet_principal db user ≡ ok admin)
      × (permission_allowed db user device_id permission admin ≡ ok tt)
unfolding creator_gate gate_of
creator_gate-deliver db device_id none u p h e = cc
creator_gate-deliver db device_id (some (v, q)) u p h e =
    elim (Result-cases (fleet_principal db v)) [
      | inl (admin, r) ↦ (
        admin,
        ground arith,
        elim (Result-cases (permission_allowed db v device_id q admin)) [
          | inl (a, w) ↦ ground arith
          | inr (x, w) ↦ ground arith
        ],
      )
      | inr (x, r) ↦ ground arith
    ]

creator-claimed :
    (db : Db) (r : Command) (s : CommandStatus) (n : ℕ)
    → creator db (record r { status = s; attempt_count = n }) ≡ creator db r
unfolding creator
creator-claimed db r s n = refl

-- A command whose creator is recorded is delivered only while the creator is enabled and still
-- has the permission that the command needs on the device.
pub claim_next_command-permitted :
    (env : Env) (device_id : String) (db : Db) (c : Command) (user permission : String)
    → (claim_next_command env device_id db).0 ≡ ok (some c)
    → let db' = expire_claimed_commands env (minutes 2) db in
      creator db' c ≡ some (user, permission)
      → (admin : Bool) × (fleet_principal db' user ≡ ok admin)
        × (permission_allowed db' user device_id permission admin ≡ ok tt)
unfolding gate
claim_next_command-permitted env device_id db c user permission h k =
    let db' = expire_claimed_commands env (minutes 2) db in
    let d = claim_next_command-Delivered env device_id db c h in
    let gates = and_then-deliver _ _ d.checked in
    creator_gate-deliver db' device_id (creator db' d.row) user permission
      (and_then-deliver _ _ gates.1).0
      (sym (creator-claimed db' d.row CommandStatus.claimed (d.row.attempt_count + 1))
        ∙ ap (creator db') (sym d.is_row)
        ∙ k)
