-- ===== src/Commands/Life.antt =====
-- The life of a stored command under the operations of Commands and Commands/Claim.
use openwrt_rmm.Base.{
  ℕ, ◌≤◌, String, ◌≡◌, refl, Bool, true, false, ◌&&◌, List, arith, Related, Related-map,
  Related-update_where, All, map, [], ◌∷◌, leb, any, Bool-cases, inl, inr, if◌then◌else◌,
}
use openwrt_rmm.Schema.{Db, Command, CommandStatus, Json, ℤ}
use openwrt_rmm.Env.{Env}
use openwrt_rmm.Commands.{
  expire_row, expire_due, expire_worn, requeue_stale, expire_claimed_commands, save_command_result,
  cancel_command, stale, past, in_flight, update_remote_session_from_command_result, result_row,
  save_row, cancellable, cancelled_row,
}

-- A cancelled or expired command stays so; a completed or failed one keeps having a result.
abbrev pub is_final : CommandStatus → Bool
is_final CommandStatus.cancelled = true
is_final CommandStatus.expired = true
is_final _ = false

abbrev pub is_settled : CommandStatus → Bool
is_settled CommandStatus.completed = true
is_settled CommandStatus.failed = true
is_settled _ = false

-- What one operation may do to one row: the signed content is fixed, the attempts only grow.
pub record Evolves (c d : Command) : Type 0 where
  pub same_id : d.id ≡ c.id
  pub same_device : d.device_id ≡ c.device_id
  pub same_kind : d.kind ≡ c.kind
  pub same_args : d.args ≡ c.args
  pub same_expiry : d.expires_at ≡ c.expires_at
  pub same_signature : d.signature ≡ c.signature
  pub same_bound : d.max_attempts ≡ c.max_attempts
  pub attempts_grow : c.attempt_count ≤ d.attempt_count
  pub final_stays : is_final c.status ≡ true → d.status ≡ c.status
  pub settled_stays : is_settled c.status ≡ true → is_settled d.status ≡ true

pub Evolves-refl : (c : Command) → Evolves c c
Evolves-refl c = ground arith

pub Evolves-trans : {c d e : Command} → Evolves c d → Evolves d e → Evolves c e
Evolves-trans h k = ground arith

expire_due-Evolves : (now : ℕ) (c : Command) → Evolves c (expire_due now c)
unfolding expire_due
expire_due-Evolves now c = ground arith

expire_worn-Evolves : (now max_age : ℕ) (c : Command) → Evolves c (expire_worn now max_age c)
unfolding expire_worn
expire_worn-Evolves now max_age c = ground arith

requeue_stale-Evolves : (now max_age : ℕ) (c : Command) → Evolves c (requeue_stale now max_age c)
unfolding requeue_stale
requeue_stale-Evolves now max_age c = ground arith

pub expire_row-Evolves : (now max_age : ℕ) (c : Command) → Evolves c (expire_row now max_age c)
unfolding expire_row
expire_row-Evolves now max_age c =
    let due = expire_due now c in
    let worn = expire_worn now max_age due in
    Evolves-trans (expire_due-Evolves now c)
      (Evolves-trans (expire_worn-Evolves now max_age due) (requeue_stale-Evolves now max_age worn))

-- What the expiry leaves behind in a row: nothing in flight is past its expiry, and no claim is
-- older than the limit.
pub record IsFresh (now max_age : ℕ) (c : Command) : Type 0 where
  pub not_due : (in_flight c.status && past c.expires_at now) ≡ false
  pub not_stale : stale now max_age c ≡ false

module _ (now max_age : ℕ) where
  NotDue : Command → Type 0
  NotDue c = (in_flight c.status && past c.expires_at now) ≡ false

  expire_due-NotDue : (c : Command) → NotDue (expire_due now c)
  unfolding expire_due NotDue
  expire_due-NotDue c = ground arith

  expire_worn-NotDue : (c : Command) → NotDue c → NotDue (expire_worn now max_age c)
  unfolding expire_worn NotDue
  expire_worn-NotDue c h = ground arith

  expire_worn-not_worn :
      (c : Command)
      → let d = expire_worn now max_age c in
        (stale now max_age d && leb d.max_attempts d.attempt_count) ≡ false
  unfolding expire_worn
  expire_worn-not_worn c = ground arith

  requeue_stale-IsFresh :
      (c : Command)
      → NotDue c
      → (stale now max_age c && leb c.max_attempts c.attempt_count) ≡ false
      → IsFresh now max_age (requeue_stale now max_age c)
  unfolding requeue_stale NotDue
  requeue_stale-IsFresh c h k = ground arith

  pub expire_row-IsFresh : (c : Command) → IsFresh now max_age (expire_row now max_age c)
  unfolding expire_row
  expire_row-IsFresh c =
      let due = expire_due now c in
      requeue_stale-IsFresh (expire_worn now max_age due)
        (expire_worn-NotDue due (expire_due-NotDue c)) (expire_worn-not_worn due)

All-map :
    (P : Command → Type 0) (f : Command → Command)
    → ((c : Command) → P (f c))
    → (cs : List Command) → All P (map f cs)
All-map P f h [] = tt
All-map P f h (c ∷ cs) = (h c, All-map P f h cs)

-- After ExpireClaimedCommands no command is in flight past its expiry, and none is claimed for
-- longer than the limit.
pub expire_claimed_commands-IsFresh :
    (env : Env) (max_age : ℕ) (db : Db)
    → All (IsFresh env.now max_age) (expire_claimed_commands env max_age db).commands
unfolding expire_claimed_commands
expire_claimed_commands-IsFresh env max_age db =
    All-map _ (expire_row env.now max_age) (expire_row-IsFresh env.now max_age) db.commands

pub expire_claimed_commands-Related :
    (env : Env) (max_age : ℕ) (db : Db)
    → Related Evolves db.commands (expire_claimed_commands env max_age db).commands
unfolding expire_claimed_commands
expire_claimed_commands-Related env max_age db =
    Related-map (expire_row env.now max_age) (expire_row-Evolves env.now max_age) db.commands

commands-update_remote :
    (now : ℕ) (id : String) (status : CommandStatus) (db : Db)
    → (update_remote_session_from_command_result now id status db).commands ≡ db.commands
unfolding update_remote_session_from_command_result
commands-update_remote now id CommandStatus.completed db = refl
commands-update_remote now id CommandStatus.failed db = refl
commands-update_remote now id _ db = refl

save_row-Evolves :
    (env : Env) (id device : String) (status : CommandStatus) (code : ℤ) (output : String)
    (result : Json) (c : Command)
    → is_settled status ≡ true
    → Evolves c (if result_row id device c then save_row env status code output result c else c)
unfolding save_row
save_row-Evolves env id device status code output result c h = ground arith

-- A result is stored by the agent's handler as completed or failed only.
pub save_command_result-Related :
    (env : Env) (id device : String) (status : CommandStatus) (code : ℤ) (output : String)
    (result : Json) (db : Db)
    → is_settled status ≡ true
    → Related Evolves db.commands
        (save_command_result env id device status code output result db).1.commands
unfolding save_command_result
save_command_result-Related env id device status code output result db h =
    let saved =
      Related-update_where {R = Evolves} (result_row id device)
        (save_row env status code output result)
        (λ c. save_row-Evolves env id device status code output result c h) db.commands in
    elim (Bool-cases (any (result_row id device) db.commands)) [
      | inl t ↦ rw t (rw commands-update_remote saved)
      | inr f ↦ rw f saved
    ]

cancel-Evolves :
    (env : Env) (device id : String) (c : Command)
    → Evolves c (if cancellable device id c then cancelled_row env.now c else c)
cancel-Evolves env device id c = ground arith

pub cancel_command-Related :
    (env : Env) (device id : String) (db : Db)
    → Related Evolves db.commands (cancel_command env device id db).1.commands
unfolding cancel_command
cancel_command-Related env device id db =
    Related-update_where (cancellable device id) (cancelled_row env.now)
      (cancel-Evolves env device id) db.commands
