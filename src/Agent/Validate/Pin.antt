-- ===== src/Agent/Validate/Pin.antt =====
-- The trust of the agent in the key that it saw first, agent/go/cmd/rmm-agent/main.go.
use openwrt_rmm.Base.{
  if◌then◌else◌, ℕ, String, ◌≡◌, Bool, true, false, not, ◌&&◌, ◌||◌, List, arith, ◌==◌, eq_iff,
  trim_space,
}
use openwrt_rmm.Schema.{Error, Result, ok, guard, ◌>>◌, other, guard_ok, bind_ok}
use openwrt_rmm.Signing.{Ed25519}
use openwrt_rmm.Signing.Keys.{Base64, parse_public_key}
use openwrt_rmm.Agent.{Config}
use openwrt_rmm.Agent.Validate.{pin_known, pin_parsed, pin_command_signing_key}

-- An agent that has a key.
abbrev pub has_key : Config → Bool
has_key cfg = not ((cfg.command_signing_public_key == "") && (cfg.command_signing_key_id == ""))

-- What an accepted key is to the agent: the key that it had, or the first that it has.
pub record IsPinned (cfg cfg' : Config) (fresh : Bool) (encoded id : String) : Type 0 where
  pub shown_key : cfg'.command_signing_public_key ≡ encoded
  pub shown_id : cfg'.command_signing_key_id ≡ id
  pub first_only : fresh ≡ not (has_key cfg)
  pub unchanged : has_key cfg ≡ true → cfg' ≡ cfg

pinned :
    (had : Bool) (cfg cfg' : Config) (fresh : Bool) (encoded id : String) (same : Bool) (e : Error)
    → had ≡ not (has_key cfg)
    → (same ≡ true → (cfg.command_signing_public_key ≡ encoded) × (cfg.command_signing_key_id ≡ id))
    → (if◌then◌else◌ {A = Result (Bool × Config)} had
        (ok
          (true, record cfg { command_signing_public_key = encoded; command_signing_key_id = id }))
        (guard same e >> ok (false, cfg)))
      ≡ ok (fresh, cfg')
    → IsPinned cfg cfg' fresh encoded id
pinned true cfg cfg' fresh encoded id same e had own h = record {
  shown_key = ground arith;
  shown_id = ground arith;
  first_only = ground arith;
  unchanged = λ k. ground (arith, had);
}
pinned false cfg cfg' fresh encoded id false e had own h = cc
pinned false cfg cfg' fresh encoded id true e had own h = record {
  shown_key = ground (arith, own);
  shown_id = ground (arith, own);
  first_only = ground (arith, had);
  unchanged = λ k. ground arith;
}

module _ (c : Ed25519) (b : Base64) where
  -- A key that pinCommandSigningKey accepts, with its identifier, is what the configuration holds
  -- then, and is well-formed with that identifier. An agent that had a key, or an identifier, keeps
  -- its configuration as it was, whatever the server shows it.
  pub pin_command_signing_key-IsPinned :
      (cfg cfg' : Config) (fresh : Bool) (encoded_public_key key_id : String)
      → pin_command_signing_key c b cfg encoded_public_key key_id ≡ ok (fresh, cfg')
      → IsPinned cfg cfg' fresh (trim_space encoded_public_key) (trim_space key_id)
        × ((key : List ℕ) × (parse_public_key b (trim_space encoded_public_key) ≡ ok key)
            × (c.key_id key ≡ trim_space key_id))
  unfolding pin_command_signing_key pin_parsed pin_known
  pin_command_signing_key-IsPinned cfg cfg' fresh encoded_public_key key_id h =
      let encoded = trim_space encoded_public_key in
      let id = trim_space key_id in
      let (key, parsed, rest) =
        bind_ok (parse_public_key b encoded) (pin_parsed c b cfg encoded id) (fresh, cfg')
          (guard_ok (not (encoded == "" || id == "")) _ _ _ h).1 in
      let (named, known) =
        guard_ok (c.key_id key == id)
          (other "server command signing key ID does not match the public key")
          (pin_known cfg encoded id) (fresh, cfg') rest in
      (
        pinned ((cfg.command_signing_public_key == "") && (cfg.command_signing_key_id == "")) cfg
            cfg' fresh encoded id
            ((cfg.command_signing_public_key == encoded) && (cfg.command_signing_key_id == id)) _
            (ground arith)
            (λ k. (
              ground (arith, eq_iff cfg.command_signing_public_key encoded),
              ground (arith, eq_iff cfg.command_signing_key_id id),
            ))
            known,
        (key, parsed, ground (arith, eq_iff (c.key_id key) id)),
      )
