-- ===== src/Access/Policy/Requester.antt =====
-- Who asked for a remote session, as the tables of server/internal/store/permissions.go tell it.
use openwrt_rmm.Base.{
  String, ◌≡◌, inl, inr, Bool, true, ◌&&◌, ◌||◌, arith, Memᴰ, any, any-Mem, any-true, ◌==◌, eq_iff,
  ◌⊎◌,
}
use openwrt_rmm.Schema.{Db, User, RemoteSession, AuditEvent, AccessGrant, CommandPermissionRow}
use openwrt_rmm.Access.Policy.{belongs_to, commanded_by, is_actor, created_by, granted_to}

-- The user asked for the session: a permission row of its command, the audit entry of its creation,
-- an access session or an access grant names him.
pub data IsRequestedBy (db : Db) (user_id : String) (s : RemoteSession) : Type 0 where
  by_command :
      (c : CommandPermissionRow)
      → Memᴰ c db.command_permissions
      → c.command_id ≡ s.command_id
      → c.user_id ≡ user_id
      → c.permission ≡ "remote"
      → IsRequestedBy db user_id s
  by_audit :
      (a : AuditEvent) (u : User)
      → Memᴰ a db.audit
      → Memᴰ u db.users
      → a.command_id ≡ s.command_id
      → a.action ≡ "remote_session.create"
      → u.username ≡ a.actor
      → u.id ≡ user_id
      → IsRequestedBy db user_id s
  by_session :
      (g : AccessGrant)
      → Memᴰ g db.access_sessions
      → g.remote_session_id ≡ s.id
      → g.user_id ≡ user_id
      → IsRequestedBy db user_id s
  by_grant :
      (g : AccessGrant)
      → Memᴰ g db.access_grants
      → g.remote_session_id ≡ s.id
      → g.user_id ≡ user_id
      → IsRequestedBy db user_id s

both_equal : (a b c d : String) → a ≡ b → c ≡ d → ((a == b) && (c == d)) ≡ true
both_equal a b c d h k = ground (arith, eq_iff a b, eq_iff c d)

all_equal :
    (a b c d e f : String) → a ≡ b → c ≡ d → e ≡ f → ((a == b) && (c == d) && (e == f)) ≡ true
all_equal a b c d e f h k l = ground (arith, eq_iff a b, eq_iff c d, eq_iff e f)

or_cases :
    (a b c d : Bool)
    → (a || b || c || d) ≡ true
    → (a ≡ true) ⊎ ((b ≡ true) ⊎ ((c ≡ true) ⊎ (d ≡ true)))
or_cases a b c d h = ground arith

audited : (a b c : Bool) → a ≡ true → b ≡ true → c ≡ true → (a && b && c) ≡ true
audited a b c h k l = ground arith

module _ (db : Db) (user_id : String) (s : RemoteSession) where
  pub belongs_to-IsRequestedBy : IsRequestedBy db user_id s → belongs_to db user_id s ≡ true
  unfolding belongs_to
  belongs_to-IsRequestedBy (by_command c m a b e) =
      let found =
        any-Mem (commanded_by user_id s) c db.command_permissions m
          (all_equal c.command_id s.command_id c.user_id user_id c.permission "remote" a b e) in
      ground arith
  belongs_to-IsRequestedBy (by_audit a u m n e f g h) =
      let actor =
        any-Mem (is_actor user_id a) u db.users n
          (both_equal u.username a.actor u.id user_id g h) in
      let found = any-Mem (created_by db user_id s) a db.audit m (
        audited (a.command_id == s.command_id) (a.action == "remote_session.create") _
          (ground (arith, eq_iff a.command_id s.command_id))
          (ground (arith, eq_iff a.action "remote_session.create")) actor) in
      ground arith
  belongs_to-IsRequestedBy (by_session g m a b) =
      let found =
        any-Mem (granted_to user_id s) g db.access_sessions m
          (both_equal g.remote_session_id s.id g.user_id user_id a b) in
      ground arith
  belongs_to-IsRequestedBy (by_grant g m a b) =
      let found =
        any-Mem (granted_to user_id s) g db.access_grants m
          (both_equal g.remote_session_id s.id g.user_id user_id a b) in
      ground arith

  pub IsRequestedBy-belongs_to : belongs_to db user_id s ≡ true → IsRequestedBy db user_id s
  unfolding belongs_to
  IsRequestedBy-belongs_to h =
      elim (or_cases (any (commanded_by user_id s) db.command_permissions)
        (any (created_by db user_id s) db.audit) (any (granted_to user_id s) db.access_sessions)
        (any (granted_to user_id s) db.access_grants) h) [
          | inl e ↦
              let (c, m, q) = any-true (commanded_by user_id s) db.command_permissions e in
              by_command c m (ground (arith, eq_iff c.command_id s.command_id))
                (ground (arith, eq_iff c.user_id user_id))
                (ground (arith, eq_iff c.permission "remote"))
          | inr (inl e) ↦
              let (a, m, q) = any-true (created_by db user_id s) db.audit e in
              let (u, n, r) = any-true (is_actor user_id a) db.users (ground arith) in
              by_audit a u m n (ground (arith, eq_iff a.command_id s.command_id))
                (ground (arith, eq_iff a.action "remote_session.create"))
                (ground (arith, eq_iff u.username a.actor)) (ground (arith, eq_iff u.id user_id))
          | inr (inr (inl e)) ↦
              let (g, m, q) = any-true (granted_to user_id s) db.access_sessions e in
              by_session g m (ground (arith, eq_iff g.remote_session_id s.id))
                (ground (arith, eq_iff g.user_id user_id))
          | inr (inr (inr e)) ↦
              let (g, m, q) = any-true (granted_to user_id s) db.access_grants e in
              by_grant g m (ground (arith, eq_iff g.remote_session_id s.id))
                (ground (arith, eq_iff g.user_id user_id))
        ]
