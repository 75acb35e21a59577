-- ===== src/Sessions/Managed.antt =====
-- The command of a remote session, CreateManagedRemoteCommand of
-- server/internal/store/fleet_access.go.
use openwrt_rmm.Base.{
  ℕ, String, ◌≡◌, refl, inl, inr, true, false, not, ◌&&◌, ◌||◌, Option, none, some, List, [], ◌∷◌,
  arith, All, All-find_where, find_where, find_where-true, update_where, leb, if◌then◌else◌, ◌==◌,
  eq_iff, Bool-cases,
}
use openwrt_rmm.Schema.{Db, Command, Json, RemoteSession, SessionStatus, Result, Check, ok, err}
use openwrt_rmm.Env.{Env}
use openwrt_rmm.Access.Policy.{is_open}
use openwrt_rmm.Sessions.{
  is_named, attached, is_requested, managed, managed_permitted, managed_session,
  create_managed_remote_command,
}
use openwrt_rmm.Sessions.Safe.{IsKeyed, IsSafe, Narrows, update-IsSafe}

-- A row with the identifier is open.
abbrev OpenAt : String → RemoteSession → Type 0
OpenAt id t = (t.id == id) ≡ true → is_open t.status ≡ true

others_open :
    (id id' : String) (ts : List RemoteSession)
    → (id' == id) ≡ true
    → All (λ t. (t.id == id') ≡ false) ts
    → All (OpenAt id) ts
others_open id id' [] e a = tt
others_open id id' (t ∷ ts) e a = (
  (λ h. absurd (ground (arith, a.0, e, h, eq_iff t.id id', eq_iff t.id id, eq_iff id' id))),
  others_open id id' ts e a.1,
)

-- Identifiers are not repeated, so that what holds of the row found holds of each row with its
-- identifier.
found_open :
    (device_id id : String) (ss : List RemoteSession) (s : RemoteSession)
    → IsKeyed ss
    → find_where (is_named device_id id) ss ≡ some s
    → is_open s.status ≡ true
    → All (OpenAt id) ss
found_open device_id id [] s k f o = tt
found_open device_id id (x ∷ xs) s k f o = elim (Bool-cases (is_named device_id id x)) [
  | inl t ↦
      let same : x ≡ s = ground (arith, f, t) in
      ((λ h. rw same o), others_open id x.id xs (ground (arith, t)) k.0)
  | inr n ↦
      let later : find_where (is_named device_id id) xs ≡ some s = ground (arith, f, n) in
      let named = find_where-true (is_named device_id id) xs s later in
      let apart =
        All-find_where (λ t. (t.id == x.id) ≡ false) (is_named device_id id) xs s k.0 later in
      (
        (λ h.
            absurd
              (ground (arith, named, apart, h, eq_iff s.id x.id, eq_iff s.id id, eq_iff x.id id))),
        found_open device_id id xs s k.1 later o,
      )
]

open_only :
    (id : String) (f : RemoteSession → RemoteSession) (ss : List RemoteSession)
    → All (OpenAt id) ss
    → update_where (λ s. s.id == id) f ss
      ≡ update_where (λ s. (s.id == id) && is_open s.status) f ss
open_only id f [] a = refl
open_only id f (s ∷ ss) a = elim (Bool-cases (s.id == id)) [
  | inl t ↦ rw (t, a.0 t, open_only id f ss a.1) refl
  | inr n ↦ rw (n, open_only id f ss a.1) refl
]

attached-Narrows :
    (now : ℕ) (id command_id : String) (s : RemoteSession)
    → Narrows s (if (s.id == id) && is_open s.status then attached now command_id s else s)
attached-Narrows now id command_id s = ground arith

managed-IsSafe :
    (now : ℕ) (user_id id : String) (r : Result Command) (db : Db)
    → All (OpenAt id) db.sessions
    → IsSafe db.sessions
    → IsSafe (managed now user_id id r db).1.sessions
unfolding managed
managed-IsSafe now user_id id (err e) db a h = h
managed-IsSafe now user_id id (ok c) db a h = rw (open_only id (attached now c.id) db.sessions a) (
    update-IsSafe (λ s. (s.id == id) && is_open s.status) (attached now c.id)
      (attached-Narrows now id c.id) db.sessions h)

managed_permitted-IsSafe :
    (env : Env) (user_id : String) (s : RemoteSession) (args : Json) (c : Check) (db : Db)
    → All (OpenAt s.id) db.sessions
    → IsSafe db.sessions
    → IsSafe (managed_permitted env user_id s args c db).1.sessions
unfolding managed_permitted
managed_permitted-IsSafe env user_id s args (err e) db a h = h
managed_permitted-IsSafe env user_id s args (ok u) db a h =
    managed-IsSafe env.now user_id s.id _ db a h

requested_open : (s : SessionStatus) → is_requested s ≡ true → is_open s ≡ true
requested_open s h = ground arith

managed_session-IsSafe :
    (env : Env) (user_id device_id id : String) (args : Json) (o : Option RemoteSession) (db : Db)
    → find_where (is_named device_id id) db.sessions ≡ o
    → IsSafe db.sessions
    → IsSafe (managed_session env user_id args o db).1.sessions
unfolding managed_session
managed_session-IsSafe env user_id device_id id args none db f h = h
managed_session-IsSafe env user_id device_id id args (some s) db f h =
    elim (Bool-cases (not (is_requested s.status) || leb s.expires_at env.now)) [
      | inl t ↦ rw t h
      | inr n ↦
          let named = find_where-true (is_named device_id id) db.sessions s f in
          let own : s.id ≡ id = ground (arith, named, eq_iff s.id id) in
          let live : is_open s.status ≡ true = requested_open s.status (ground (arith, n)) in
          rw n (
            managed_permitted-IsSafe env user_id s args _ db
              (rw own (found_open device_id id db.sessions s h.keyed f live)) h)
    ]

pub create_managed_remote_command-IsSafe :
    (env : Env) (user_id device_id id : String) (args : Json) (db : Db)
    → IsSafe db.sessions
    → IsSafe (create_managed_remote_command env user_id device_id id args db).1.sessions
unfolding create_managed_remote_command
create_managed_remote_command-IsSafe env user_id device_id id args db h =
    managed_session-IsSafe env user_id device_id id args
      (find_where (is_named device_id id) db.sessions) db refl h
