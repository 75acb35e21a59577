-- ===== src/Access/Policy/Save.antt =====
-- The effect of SavePermissionPolicy, server/internal/store/permissions.go.
use openwrt_rmm.Base.{
  Bool, Related, Related-update_where, ◌⊎◌, String, ◌≡◌, refl, inl, inr, true, false, List, [], ◌∷◌,
  some, arith, contains, find_where, ◌==◌, eq_iff, eq_refl, All, if◌then◌else◌, Bool-cases,
  All-delete_where-false, ◌&&◌,
}
use openwrt_rmm.Schema.{
  SessionStatus, Db, PolicyRow, PermissionPolicy, RemoteSession, ok, err, commit_if, commit_if-ok,
  fleet_access, Result-cases, Error, ◌>>◌,
}
use openwrt_rmm.Env.{Env}
use openwrt_rmm.Access.{fleet_principal, permission_policy, policy_or_default, permission_allowed}
use openwrt_rmm.Access.Policy.Requester.{
  IsRequestedBy, belongs_to-IsRequestedBy, IsRequestedBy-belongs_to,
}
use openwrt_rmm.Access.Policy.{
  save_permission_policy, valid_policy, authorize_save, store_policy, upsert_policy, belongs_to,
  is_open, close_session, close_sessions, cancel_commands,
}

find-upsert_policy :
    (u v : String) (row : PolicyRow) (rs : List PolicyRow)
    → row.user_id ≡ u
    → find_where (λ r. r.user_id == v) (upsert_policy row rs)
      ≡ (if u == v then some row else find_where (λ r. r.user_id == v) rs)
unfolding upsert_policy
find-upsert_policy u v row [] e = ground (arith, eq_iff row.user_id v, eq_iff u v)
find-upsert_policy u v row (r ∷ rs) e = ground (
  arith,
  eq_iff r.user_id row.user_id,
  eq_iff row.user_id v,
  eq_iff u v,
  eq_iff r.user_id v,
  find-upsert_policy u v row rs e,
)

-- What becomes of a session: it is closed when it was open and the user asked for it.
abbrev pub SessionFate : Env → String → Db → RemoteSession → RemoteSession → Type 0
SessionFate env user_id db s t =
    ((is_open s.status ≡ true)
      × (IsRequestedBy db user_id s)
      × (t ≡ record s {
        status = SessionStatus.closed;
        closed_at = some env.now;
        updated_at = env.now;
      }))
    ⊎ ((t ≡ s) × (is_open s.status ≡ true → ¬ IsRequestedBy db user_id s))

second_true : (a b : Bool) → (a && b) ≡ true → b ≡ true
second_true a b h = ground arith

apart_true : (a b : Bool) → (a && b) ≡ false → a ≡ true → b ≡ true → ⊥
apart_true a b h k l = ground arith

module _ (env : Env) (admin_id user_id : String) (p : PermissionPolicy) (db : Db) where
  -- A policy that is saved was valid, and was saved by an enabled administrator for an enabled
  -- user who is none; a refused one changes nothing.
  pub save-authorized :
      ((save_permission_policy env admin_id user_id p db).0 ≡ ok tt
        → (valid_policy p ≡ ok tt)
          × (fleet_principal db admin_id ≡ ok true)
          × (fleet_principal db user_id ≡ ok false))
      × ((e : Error)
          → (save_permission_policy env admin_id user_id p db).0 ≡ err e
          → (save_permission_policy env admin_id user_id p db).1 ≡ db)
  unfolding save_permission_policy authorize_save commit_if
  save-authorized = elim (Result-cases (valid_policy p)) [
    | inl (a, va) ↦ elim (Result-cases (fleet_principal db admin_id)) [
      | inl (b, pa) ↦ elim (Result-cases (fleet_principal db user_id)) [
        | inl (c, pb) ↦ ground arith
        | inr (x, pb) ↦ ground arith
      ]
      | inr (x, pa) ↦ ground arith
    ]
    | inr (x, va) ↦ ground arith
  ]

  module _ (saved : (save_permission_policy env admin_id user_id p db).0 ≡ ok tt) where
    abbrev after : Db
    after = (save_permission_policy env admin_id user_id p db).1

    saved-after : after ≡ store_policy env admin_id user_id (record p { configured = true }) db
    unfolding save_permission_policy
    saved-after = commit_if-ok (valid_policy p >> authorize_save db admin_id user_id) _ db saved

    -- After a saved policy the user has exactly that policy, and every other user keeps his own.
    pub permission_policy-save :
        (v : String)
        → permission_policy after v
          ≡ (if user_id == v then record p { configured = true } else permission_policy db v)
    unfolding permission_policy store_policy policy_or_default close_sessions cancel_commands
    permission_policy-save v = rw saved-after (
        rw
          (find-upsert_policy user_id v
            (record {
              user_id = user_id;
              policy = record p { configured = true };
              updated_at = env.now;
            })
            db.policies refl)
          (ground arith))

    -- After a saved policy, a permission that it leaves out is refused to the user on every device.
    pub save-denies :
        (device permission : String)
        → contains p.permissions permission ≡ false
        → permission_allowed after user_id device permission false ≡ err fleet_access
    unfolding permission_allowed
    save-denies device permission h =
        rw (permission_policy-save user_id, eq_refl user_id, h) (ground arith)

    closed :
        (s : RemoteSession)
        → SessionFate env user_id db s
            (if is_open s.status && belongs_to db user_id s then close_session env.now s else s)
    closed s = elim (Bool-cases (is_open s.status && belongs_to db user_id s)) [
      | inl t ↦ rw t (
          inl (
            ground arith,
            IsRequestedBy-belongs_to db user_id s (second_true (is_open s.status) _ t),
            refl,
          ))
      | inr f ↦ rw f (
          inr (
            refl,
            λ o r.
                absurd
                  (apart_true (is_open s.status) _ f o (belongs_to-IsRequestedBy db user_id s r)),
          ))
    ]

    -- After a saved policy every session that was open and that the user asked for, as the tables
    -- tell it before, is closed, and every other session is as it was; none of the user's access
    -- sessions and grants is left.
    pub save-closes :
        Related (SessionFate env user_id db) db.sessions after.sessions
        × All (λ g. (g.user_id == user_id) ≡ false) after.access_sessions
        × All (λ g. (g.user_id == user_id) ≡ false) after.access_grants
    unfolding store_policy close_sessions cancel_commands
    save-closes = rw saved-after (
      Related-update_where {R = SessionFate env user_id db}
          (λ s. is_open s.status && belongs_to db user_id s) (close_session env.now) closed
          db.sessions,
      All-delete_where-false _ db.access_sessions,
      All-delete_where-false _ db.access_grants,
    )
