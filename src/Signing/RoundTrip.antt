-- ===== src/Signing/RoundTrip.antt =====
-- Signing and verifying a command, internal/commandsig/commandsig.go.
use openwrt_rmm.Base.{ℕ, String, ◌≡◌, List, arith, inl, inr}
use openwrt_rmm.Schema.{Result-cases, ok}
use openwrt_rmm.Signing.{Ed25519, Ed25519Laws, Envelope, canonical, sign, verify, check_raw}

module _ (c : Ed25519) (laws : Ed25519Laws c) (key : List ℕ) where
  -- Given the laws of Ed25519 and base64, every signature that Sign makes is accepted by Verify for
  -- the same envelope under the public key of the signer.
  pub verify-sign_lem :
      (e : Envelope) {s : String} → sign c key e ≡ ok s → verify c (c.public_of key) e s ≡ ok tt
  unfolding sign verify check_raw
  verify-sign_lem e h = elim (Result-cases (canonical e)) [
    | inl (p, q) ↦ ground (
      arith,
      laws.public-length key,
      laws.sign-length key (c.marshal p),
      laws.verify-sign key (c.marshal p),
      laws.decode-encode (c.sign_bytes key (c.marshal p)),
    )
    | inr (x, q) ↦ ground arith
  ]
