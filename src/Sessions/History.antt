-- ===== src/Sessions/History.antt =====
-- Histories of the remote sessions, server/internal/store/sqlite.go.
use openwrt_rmm.Base.{
  ℕ, ◌+◌, ◌≤◌, String, ◌≡◌, refl, inl, inr, Bool, true, false, ◌&&◌, ◌||◌, Option, List, [], ◌∷◌,
  ◌++◌, arith, All-append, any, count_where, ltb, if◌then◌else◌, ◌==◌, eq_iff, Bool-cases,
}
use openwrt_rmm.Schema.{Json, Db, CommandStatus, RemoteSession, SessionStatus, Check, ok, err}
use openwrt_rmm.Env.{Env}
use openwrt_rmm.Access.Policy.{is_open}
use openwrt_rmm.Commands.{
  update_remote_session_from_command_result, starts, started_session, breaks_off, failed_session,
}
use openwrt_rmm.Sessions.{
  create_managed_remote_command, open_on, shares_port, overdue, expire_session,
  expire_remote_sessions, new_session, admit, insert_session, create_admitted, create_permitted,
  create_remote_session, enforce_fleet_access, awaits, attached, attach_remote_session_command,
  get_remote_session, closable, closed_session, close_remote_session,
}
use openwrt_rmm.Sessions.Managed.{create_managed_remote_command-IsSafe}
use openwrt_rmm.Sessions.Safe.{IsKeyed, collide, Apart, IsSafe, Narrows, update-IsSafe, both_false}

expire-Narrows :
    (now : ℕ) (s : RemoteSession) → Narrows s (if overdue now s then expire_session now s else s)
expire-Narrows now s = ground arith

close-Narrows :
    (now : ℕ) (device_id id : String) (s : RemoteSession)
    → Narrows s (if closable device_id id s then closed_session now s else s)
close-Narrows now device_id id s = ground arith

attach-Narrows :
    (now : ℕ) (device_id id command_id : String) (s : RemoteSession)
    → Narrows s (if awaits device_id id s then attached now command_id s else s)
attach-Narrows now device_id id command_id s = ground arith

expire_remote_sessions-IsSafe :
    (now : ℕ) (db : Db) → IsSafe db.sessions → IsSafe (expire_remote_sessions now db).sessions
unfolding expire_remote_sessions
expire_remote_sessions-IsSafe now db h =
    update-IsSafe (overdue now) (expire_session now) (expire-Narrows now) db.sessions h

close_remote_session-IsSafe :
    (now : ℕ) (device_id id : String) (db : Db)
    → IsSafe db.sessions
    → IsSafe (close_remote_session now device_id id db).1.sessions
unfolding close_remote_session get_remote_session
close_remote_session-IsSafe now device_id id db h = expire_remote_sessions-IsSafe now _ (
    update-IsSafe (closable device_id id) (closed_session now) (close-Narrows now device_id id)
      db.sessions h)

attach_remote_session_command-IsSafe :
    (now : ℕ) (device_id id command_id : String) (db : Db)
    → IsSafe db.sessions
    → IsSafe (attach_remote_session_command now device_id id command_id db).1.sessions
unfolding attach_remote_session_command get_remote_session
attach_remote_session_command-IsSafe now device_id id command_id db h =
    expire_remote_sessions-IsSafe now _ (
      update-IsSafe (awaits device_id id) (attached now command_id)
        (attach-Narrows now device_id id command_id) db.sessions h)

or_false : (a b : Bool) → (a || b) ≡ false → (a ≡ false) × (b ≡ false)
or_false a b h = ground arith

no_collision :
    (s t : RemoteSession) → (is_open t.status && shares_port t s) ≡ false → collide t s ≡ false
no_collision s t h = elim (Bool-cases (is_open t.status)) [
  | inl o ↦ rw (o, rw o at h) (both_false true (is_open s.status))
  | inr n ↦ rw n refl
]

append-Apart :
    (s : RemoteSession) (ss : List RemoteSession)
    → any (λ t. is_open t.status && shares_port t s) ss ≡ false
    → Apart ss
    → Apart (ss ++ s ∷ [])
append-Apart s [] h a = (tt, tt)
append-Apart s (t ∷ ts) h a = (
  All-append (λ x. collide t x ≡ false) ts (s ∷ []) a.0 (no_collision s t (or_false _ _ h).0, tt),
  append-Apart s ts (or_false _ _ h).1 a.1,
)

append-few :
    (device_id : String) (s : RemoteSession) (ss : List RemoteSession)
    → count_where (open_on device_id) (ss ++ s ∷ [])
      ≡ count_where (open_on device_id) ss + (if open_on device_id s then 1 else 0)
append-few device_id s [] = ground arith
append-few device_id s (t ∷ ts) = ground (arith, append-few device_id s ts)

append-IsKeyed :
    (s : RemoteSession) (ss : List RemoteSession)
    → any (λ t. t.id == s.id) ss ≡ false
    → IsKeyed ss
    → IsKeyed (ss ++ s ∷ [])
append-IsKeyed s [] h k = (tt, tt)
append-IsKeyed s (t ∷ ts) h k =
    let (first, rest) = or_false (t.id == s.id) (any (λ x. x.id == s.id) ts) h in
    let apart : (s.id == t.id) ≡ false =
      ground (arith, first, eq_iff s.id t.id, eq_iff t.id s.id) in
    (
      All-append (λ x. (x.id == t.id) ≡ false) ts (s ∷ []) k.0 (apart, tt),
      append-IsKeyed s ts rest k.1,
    )

admit-checks :
    (now : ℕ) (s : RemoteSession) (db : Db)
    → admit now s db ≡ ok tt
    → (count_where (open_on s.device_id) db.sessions ≤ 1)
      × (any (λ t. is_open t.status && shares_port t s) db.sessions ≡ false)
unfolding admit
admit-checks now s db h = (ground arith, ground arith)

count-open_on :
    (d e : String) (ss : List RemoteSession)
    → d ≡ e
    → count_where (open_on e) ss ≡ count_where (open_on d) ss
count-open_on d e ss q = rw q

insert_session-IsSafe :
    (env : Env) (db expired : Db) (status : Option SessionStatus) (s : RemoteSession)
    → IsSafe expired.sessions
    → admit env.now s expired ≡ ok tt
    → any (λ t. t.id == (new_session env db status s).id) expired.sessions ≡ false
    → IsSafe (insert_session (new_session env db status s) expired).sessions
unfolding insert_session new_session
insert_session-IsSafe env db expired status s h a u =
    let n = record (new_session env db status s) { requester_user_id = "" } in
    let (one, free) = admit-checks env.now s expired a in
    record {
      apart = append-Apart n expired.sessions free h.apart;
      keyed = append-IsKeyed n expired.sessions u h.keyed;
      few = λ d. elim (Bool-cases (s.device_id == d)) [
        | inl t ↦ ground (
          arith,
          append-few d n expired.sessions,
          count-open_on s.device_id d expired.sessions,
          eq_iff s.device_id d,
        )
        | inr f ↦ ground (arith, append-few d n expired.sessions, h.few d)
      ];
    }

create_admitted-IsSafe :
    (env : Env) (status : Option SessionStatus) (s : RemoteSession) (c : Check) (expired db : Db)
    → admit env.now s expired ≡ c
    → IsSafe expired.sessions
    → IsSafe db.sessions
    → IsSafe (create_admitted env status s c expired db).1.sessions
unfolding create_admitted
create_admitted-IsSafe env status s (ok u) expired db a h k =
    elim (Bool-cases (any (λ t. t.id == (new_session env db status s).id) expired.sessions)) [
      | inl t ↦ rw t k
      | inr f ↦ rw f (insert_session-IsSafe env db expired status s h a f)
    ]
create_admitted-IsSafe env status s (err e) expired db a h k = k

create_permitted-IsSafe :
    (env : Env) (status : Option SessionStatus) (s : RemoteSession) (c : Check) (db : Db)
    → IsSafe db.sessions
    → IsSafe (create_permitted env status s c db).1.sessions
unfolding create_permitted
create_permitted-IsSafe env status s (err e) db h = h
create_permitted-IsSafe env status s (ok u) db h =
    let expired = expire_remote_sessions env.now db in
    elim (Bool-cases (any (λ d. d.id == s.device_id) db.devices)) [
      | inl t ↦ rw t (
          create_admitted-IsSafe env status s (admit env.now s expired) expired db refl
            (expire_remote_sessions-IsSafe env.now db h) h)
      | inr f ↦ rw f h
    ]

create_remote_session-IsSafe :
    (env : Env) (status : Option SessionStatus) (s : RemoteSession) (db : Db)
    → IsSafe db.sessions
    → IsSafe (create_remote_session env status s db).1.sessions
unfolding create_remote_session
create_remote_session-IsSafe env status s db h =
    create_permitted-IsSafe env status s
      (enforce_fleet_access env.now db s.requester_user_id s.device_id (ltb 0 s.remote_port)
        (ltb 0 s.luci_port) s.expires_at)
      db h

starts-Narrows :
    (now : ℕ) (id : String) (s : RemoteSession)
    → Narrows s (if starts id s then started_session now s else s)
starts-Narrows now id s = ground arith

breaks_off-Narrows :
    (now : ℕ) (id : String) (s : RemoteSession)
    → Narrows s (if breaks_off id s then failed_session now s else s)
breaks_off-Narrows now id s = ground arith

result-IsSafe :
    (now : ℕ) (id : String) (status : CommandStatus) (db : Db)
    → IsSafe db.sessions
    → IsSafe (update_remote_session_from_command_result now id status db).sessions
unfolding update_remote_session_from_command_result
result-IsSafe now id CommandStatus.completed db h =
    update-IsSafe (starts id) (started_session now) (starts-Narrows now id) db.sessions h
result-IsSafe now id CommandStatus.failed db h =
    update-IsSafe (breaks_off id) (failed_session now) (breaks_off-Narrows now id) db.sessions h
result-IsSafe now id _ db h = h

-- One operation on the remote sessions: a request, the command of a session by either way, its end,
-- the expiry,
-- and the result of a session's command.
pub data Event : Type 0 where
  request : Option SessionStatus → RemoteSession → Event
  attach : (device_id id command_id : String) → Event
  manage : (user_id device_id id : String) → Json → Event
  close : (device_id id : String) → Event
  expiry : Event
  report : (command_id : String) → CommandStatus → Event

unfoldable pub apply : Env → Event → Db → Db
apply env (request status s) db = (create_remote_session env status s db).1
apply env (attach device_id id command_id) db =
    (attach_remote_session_command env.now device_id id command_id db).1
apply env (manage user_id device_id id args) db =
    (create_managed_remote_command env user_id device_id id args db).1
apply env (close device_id id) db = (close_remote_session env.now device_id id db).1
apply env expiry db = expire_remote_sessions env.now db
apply env (report command_id status) db =
    update_remote_session_from_command_result env.now command_id status db

unfoldable pub run : List (Env × Event) → Db → Db
run [] db = db
run ((env, e) ∷ es) db = run es (apply env e db)

apply-IsSafe :
    (env : Env) (e : Event) (db : Db) → IsSafe db.sessions → IsSafe (apply env e db).sessions
unfolding apply
apply-IsSafe env (request status s) db h = create_remote_session-IsSafe env status s db h
apply-IsSafe env (attach device_id id command_id) db h =
    attach_remote_session_command-IsSafe env.now device_id id command_id db h
apply-IsSafe env (manage user_id device_id id args) db h =
    create_managed_remote_command-IsSafe env user_id device_id id args db h
apply-IsSafe env (close device_id id) db h = close_remote_session-IsSafe env.now device_id id db h
apply-IsSafe env expiry db h = expire_remote_sessions-IsSafe env.now db h
apply-IsSafe env (report command_id status) db h = result-IsSafe env.now command_id status db h

-- In any order of requests, attachments, managed commands, closings, expiries and command results, a
-- table of sessions with different identifiers, in which no device has more than two open sessions
-- and no two open sessions share a port, stays such a table.
pub run-IsSafe :
    (es : List (Env × Event)) (db : Db) → IsSafe db.sessions → IsSafe (run es db).sessions
unfolding run
run-IsSafe [] db h = h
run-IsSafe ((env, e) ∷ es) db h = run-IsSafe es (apply env e db) (apply-IsSafe env e db h)
