-- ===== src/Examples/Rights.antt =====
-- Signatures, permissions and policies at concrete inputs.
use openwrt_rmm.Base.{
  Related, eq_iff, ◌+◌, none, some, String, ◌≡◌, refl, ◌≢◌, ◌↔◌, ◌⊎◌, true, false, [], ◌∷◌, arith,
  All, ◌==◌, if◌then◌else◌, trim_space, is_space,
}
use openwrt_rmm.Schema.{
  Db, PermissionPolicy, RemoteSession, SessionStatus, Error, fleet_access, empty_object, Result, ok,
  err, RemoteSession,
}
use openwrt_rmm.Signing.{Envelope, sign, verify, canonical}
use openwrt_rmm.Signing.RoundTrip.{verify-sign_lem}
use openwrt_rmm.Access.{check_permission, fleet_principal, permission_policy, permission_allowed}
use openwrt_rmm.Access.Scope.{Granted, check_permission_iff}
use openwrt_rmm.Access.Policy.{save_permission_policy, valid_policy}
use openwrt_rmm.Access.Policy.Save.{
  SessionFate, save-denies, save-closes, permission_policy-save, save-authorized,
}
use openwrt_rmm.Examples.Data.{toy, toy_laws, key, here, fleet, noon}

abbrev envelope : Envelope
envelope = record {
  id = " c1 ";
  device_id = "d1";
  kind = "ping";
  args = empty_object;
  created_at = noon;
  expires_at = noon + 60;
  nonce = "n";
}

abbrev signed : Result String
signed = ok (toy.encode (toy.sign_bytes key (noon ∷ (noon + 60) ∷ [])))

sign-envelope : sign toy key envelope ≡ signed
unfolding sign canonical trim_space is_space
sign-envelope = refl

verify-sign_lem_example :
    verify toy
      (toy.public_of key)
      envelope
      (toy.encode (toy.sign_bytes key (noon ∷ (noon + 60) ∷ [])))
    ≡ ok tt
verify-sign_lem_example = verify-sign_lem toy toy_laws key envelope sign-envelope

d1_named : ◌≢◌ {A = String} "d1" ""
d1_named h = ground (arith, eq_iff "d1" "")

check_permission_iff_example : (check_permission fleet "u2" "d1" "diagnostics" ≡ ok tt) ↔ (
    (fleet_principal fleet "u2" ≡ ok true)
    ⊎ ((fleet_principal fleet "u2" ≡ ok false) × Granted fleet "u2" "d1" "diagnostics"))
check_permission_iff_example = check_permission_iff fleet "u2" "d1" "diagnostics" d1_named

-- The policy that the administrator saves: the operator may view, and nothing more.
abbrev view_only : PermissionPolicy
view_only = record {
  permissions = "view" ∷ [];
  groups = "home" ∷ [];
  sites = [];
  configured = false;
}

abbrev session : RemoteSession
session = record {
  id = "s1";
  device_id = "d1";
  requester_user_id = "u2";
  target = "ssh";
  status = SessionStatus.active;
  server_port = 22;
  remote_port = 20000;
  luci_port = 0;
  luci_scheme = "http";
  server_host = "rmm";
  local_host = "127.0.0.1";
  local_port = 22;
  command_id = "c9";
  created_at = noon;
  expires_at = noon + 900000000000;
  started_at = some noon;
  closed_at = none;
  updated_at = noon;
}

abbrev with_session : Db
with_session = record fleet {
  sessions = session ∷ [];
  access_grants = (record { user_id = "u2"; device_id = "d1"; remote_session_id = "s1" }) ∷ [];
}

saved : (save_permission_policy here "u1" "u2" view_only with_session).0 ≡ ok tt
unfolding save_permission_policy fleet_principal trim_space is_space
saved = refl

save-denies_example :
    permission_allowed
      (save_permission_policy here "u1" "u2" view_only with_session).1
      "u2"
      "d1"
      "remote"
      false
    ≡ err fleet_access
save-denies_example = save-denies here "u1" "u2" view_only with_session saved "d1" "remote" refl

save-closes_example :
    Related
      (SessionFate here "u2" with_session)
      with_session.sessions
      (save_permission_policy here "u1" "u2" view_only with_session).1.sessions
    × All
        (λ g. (g.user_id == "u2") ≡ false)
        (save_permission_policy here "u1" "u2" view_only with_session).1.access_sessions
    × All
        (λ g. (g.user_id == "u2") ≡ false)
        (save_permission_policy here "u1" "u2" view_only with_session).1.access_grants
save-closes_example = save-closes here "u1" "u2" view_only with_session saved

permission_policy-save_example :
    permission_policy (save_permission_policy here "u1" "u2" view_only with_session).1 "u2" ≡ (
      if "u2" == "u2"
      then record view_only { configured = true }
      else permission_policy with_session "u2")
permission_policy-save_example =
    permission_policy-save here "u1" "u2" view_only with_session saved "u2"

save-authorized_example :
    ((save_permission_policy here "u2" "u2" view_only with_session).0 ≡ ok tt
      → (valid_policy view_only ≡ ok tt)
        × (fleet_principal with_session "u2" ≡ ok true)
        × (fleet_principal with_session "u2" ≡ ok false))
    × ((e : Error)
        → (save_permission_policy here "u2" "u2" view_only with_session).0 ≡ err e
        → (save_permission_policy here "u2" "u2" view_only with_session).1 ≡ with_session)
save-authorized_example = save-authorized here "u2" "u2" view_only with_session
