-- ===== src/Sessions/Safe.antt =====
-- When a table of remote sessions is in order, and that narrowing its sessions keeps it so,
-- server/internal/store/sqlite.go.
use openwrt_rmm.Base.{
  ◌==◌, ◌≤◌, String, ◌≡◌, refl, inl, inr, Bool, false, ◌&&◌, List, [], ◌∷◌, arith, All, count_where,
  update_where, if◌then◌else◌, eq_iff, Bool-cases,
}
use openwrt_rmm.Schema.{RemoteSession}
use openwrt_rmm.Access.Policy.{is_open}
use openwrt_rmm.Sessions.{open_on, shares_port}

-- Two sessions that are both open and share a port.
abbrev pub collide : RemoteSession → RemoteSession → Bool
collide s t = is_open s.status && is_open t.status && shares_port s t

-- No two sessions of the table collide.
abbrev pub Apart : List RemoteSession → Type 0
Apart [] = Unit
Apart (s ∷ ss) = All (λ t. collide s t ≡ false) ss × Apart ss

-- No two sessions of the table have the same identifier.
abbrev pub IsKeyed : List RemoteSession → Type 0
IsKeyed [] = Unit
IsKeyed (s ∷ ss) = All (λ t. (t.id == s.id) ≡ false) ss × IsKeyed ss

-- At most two open sessions for each device, and every port in use by one open session at most.
pub record IsSafe (ss : List RemoteSession) : Type 0 where
  pub apart : Apart ss
  pub few : (device_id : String) → count_where (open_on device_id) ss ≤ 2
  pub keyed : IsKeyed ss

-- A change of a session that opens nothing and moves no port.
pub record Narrows (s t : RemoteSession) : Type 0 where
  pub same_id : t.id ≡ s.id
  pub same_device : t.device_id ≡ s.device_id
  pub same_remote : t.remote_port ≡ s.remote_port
  pub same_luci : t.luci_port ≡ s.luci_port
  pub no_wider : is_open s.status ≡ false → is_open t.status ≡ false

pub both_false : (a b : Bool) → (a && b && false) ≡ false
both_false a b = ground arith

middle_false : (a c : Bool) → (a && false && c) ≡ false
middle_false a c = ground arith

Narrows-collide :
    (s s' t t' : RemoteSession)
    → Narrows s s'
    → Narrows t t'
    → collide s t ≡ false
    → collide s' t' ≡ false
Narrows-collide s s' t t' h k e = elim (Bool-cases (is_open s.status)) [
  | inl a ↦ elim (Bool-cases (is_open t.status)) [
    | inl b ↦
        let shared : shares_port s t ≡ false = rw (a, b) at e in
        let moved : shares_port s' t' ≡ false =
          rw (h.same_remote, h.same_luci, k.same_remote, k.same_luci) shared in
        rw moved (both_false (is_open s'.status) (is_open t'.status))
    | inr n ↦ rw (k.no_wider n) (middle_false (is_open s'.status) (shares_port s' t'))
  ]
  | inr n ↦ rw (h.no_wider n) refl
]

Narrows-open_on :
    (device_id : String) (s t : RemoteSession)
    → Narrows s t
    → open_on device_id s ≡ false
    → open_on device_id t ≡ false
Narrows-open_on device_id s t h e =
    ground (arith, eq_iff s.device_id device_id, eq_iff t.device_id device_id)

module _ (p : RemoteSession → Bool) (f : RemoteSession → RemoteSession)
    (narrow : (s : RemoteSession) → Narrows s (if p s then f s else s)) where
  update-All :
      (s s' : RemoteSession) (ts : List RemoteSession)
      → Narrows s s'
      → All (λ t. collide s t ≡ false) ts
      → All (λ t. collide s' t ≡ false) (update_where p f ts)
  update-All s s' [] h a = tt
  update-All s s' (t ∷ ts) h a =
      (Narrows-collide s s' t _ h (narrow t) a.0, update-All s s' ts h a.1)

  update-Apart : (ss : List RemoteSession) → Apart ss → Apart (update_where p f ss)
  update-Apart [] a = tt
  update-Apart (s ∷ ss) a = (update-All s _ ss (narrow s) a.0, update-Apart ss a.1)

  update-few :
      (device_id : String) (ss : List RemoteSession)
      → count_where (open_on device_id) (update_where p f ss) ≤ count_where (open_on device_id) ss
  update-few device_id [] = omega arith
  update-few device_id (s ∷ ss) = ground (
    arith,
    update-few device_id ss,
    Narrows-open_on device_id s (if p s then f s else s) (narrow s),
  )

  update-others :
      (id id' : String) (ts : List RemoteSession)
      → id' ≡ id
      → All (λ t. (t.id == id) ≡ false) ts
      → All (λ t. (t.id == id') ≡ false) (update_where p f ts)
  update-others id id' [] e a = tt
  update-others id id' (t ∷ ts) e a =
      (rw (e, (narrow t).same_id) a.0, update-others id id' ts e a.1)

  update-IsKeyed : (ss : List RemoteSession) → IsKeyed ss → IsKeyed (update_where p f ss)
  update-IsKeyed [] k = tt
  update-IsKeyed (s ∷ ss) k =
      (update-others s.id _ ss (narrow s).same_id k.0, update-IsKeyed ss k.1)

  pub update-IsSafe : (ss : List RemoteSession) → IsSafe ss → IsSafe (update_where p f ss)
  update-IsSafe ss h = record {
    apart = update-Apart ss h.apart;
    few = λ device_id. omega (arith, update-few device_id ss, h.few device_id);
    keyed = update-IsKeyed ss h.keyed;
  }
