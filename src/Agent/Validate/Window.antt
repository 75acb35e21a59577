-- ===== src/Agent/Validate/Window.antt =====
-- What it takes for the agent to accept a command, agent/go/cmd/rmm-agent/main.go.
use openwrt_rmm.Base.{
  ◌==◌, ℕ, ◌+◌, ◌≤◌, ◌<◌, ◌≡◌, ◌↔◌, sym, ◌∙◌, true, false, not, ◌&&◌, Option, none, some, List,
  arith, eq_iff, eq_refl,
}
use mathlib.Core.Option.{some-injective}
use openwrt_rmm.Schema.{other, ok, guard, ◌>>◌, ◌>>=◌, guard_ok, bind_ok}
use openwrt_rmm.Env.{minutes, hours}
use openwrt_rmm.Signing.{Ed25519, verify}
use openwrt_rmm.Signing.Keys.{Base64, parse_public_key}
use openwrt_rmm.Agent.{Config, AgentCommand}
use openwrt_rmm.Agent.Validate.{
  safe_session_id, check_signature, validate_window, validate_signed_command, envelope_of,
}

-- The validity period at the time `now`: it has not ended, and it began five minutes from now at
-- most and lasts 25 hours at most.
pub record IsCurrent (now created_at expires_at : ℕ) : Type 0 where
  pub dated : 0 < created_at
  pub unexpired : now ≤ expires_at
  pub started : created_at ≤ now + minutes 5
  pub ordered : created_at < expires_at
  pub short : expires_at ≤ created_at + hours 25

-- A command for this device in its validity period, under the trusted key.
pub record IsTrusted (c : Ed25519) (b : Base64) (cfg : Config) (cmd : AgentCommand) (now : ℕ)
    : Type 0 where
  pub safe : safe_session_id cmd.id ≡ true
  pub same_device : cmd.device_id ≡ cfg.device_id
  pub expiry : ℕ
  pub expires : cmd.expires_at ≡ some expiry
  pub current : IsCurrent now cmd.created_at expiry
  pub named : (cmd.signature_key_id == "") ≡ false
  pub same_key : cmd.signature_key_id ≡ cfg.command_signing_key_id
  pub key : List ℕ
  pub parsed : parse_public_key b cfg.command_signing_public_key ≡ ok key
  pub signed : verify c key (envelope_of cmd expiry) cmd.signature ≡ ok tt

module _ (c : Ed25519) (b : Base64) where
  window_ok :
      (now created : ℕ) (o : Option ℕ) (e : ℕ)
      → validate_window c b now created o ≡ ok e
      → (o ≡ some e) × IsCurrent now created e
  unfolding validate_window
  window_ok now created none e h = cc
  window_ok now created (some x) e h = ground arith

  window_passes :
      (now created e : ℕ)
      → IsCurrent now created e
      → validate_window c b now created (some e) ≡ ok e
  unfolding validate_window
  window_passes now created e h = ground (arith, h)

  signature_ok :
      (cfg : Config) (cmd : AgentCommand) (t : ℕ)
      → check_signature c b cfg cmd t ≡ ok tt
      → (cmd.signature_key_id == "" ≡ false)
        × (cmd.signature_key_id ≡ cfg.command_signing_key_id)
        × ((key : List ℕ) × (parse_public_key b cfg.command_signing_public_key ≡ ok key)
            × (verify c key (envelope_of cmd t) cmd.signature ≡ ok tt))
  unfolding check_signature
  signature_ok cfg cmd t h =
      let (named, rest) =
        guard_ok
          (not (cmd.signature_key_id == "") && (cmd.signature_key_id == cfg.command_signing_key_id))
          (other "command signing key ID is not trusted") _ tt h in
      (
        ground arith,
        ground (arith, eq_iff cmd.signature_key_id cfg.command_signing_key_id),
        bind_ok (parse_public_key b cfg.command_signing_public_key)
            (λ key. verify c key (envelope_of cmd t) cmd.signature) tt rest,
      )

  accepted-IsTrusted :
      (cfg : Config) (cmd : AgentCommand) (now : ℕ)
      → validate_signed_command c b cfg cmd now ≡ ok tt
      → IsTrusted c b cfg cmd now
  unfolding validate_signed_command
  accepted-IsTrusted cfg cmd now h =
      let dated =
        validate_window c b now cmd.created_at cmd.expires_at >>= check_signature c b cfg cmd in
      let (safe, bound) =
        guard_ok (safe_session_id cmd.id) (other "command ID is invalid")
          (guard (cmd.device_id == cfg.device_id) (other "command is bound to another device")
            >> dated)
          tt h in
      let (device, rest) =
        guard_ok (cmd.device_id == cfg.device_id) (other "command is bound to another device") dated
          tt bound in
      let (t, window, checked) =
        bind_ok (validate_window c b now cmd.created_at cmd.expires_at)
          (check_signature c b cfg cmd) tt rest in
      let (expires, current) = window_ok now cmd.created_at cmd.expires_at t window in
      let (named, same, trusted) = signature_ok cfg cmd t checked in
      let (key, parsed, signed) = trusted in
      record {
        safe = safe;
        same_device = ground (arith, eq_iff cmd.device_id cfg.device_id);
        expiry = t;
        expires = expires;
        current = current;
        named = named;
        same_key = same;
        key = key;
        parsed = parsed;
        signed = signed;
      }

  IsTrusted-accepted :
      (cfg : Config) (cmd : AgentCommand) (now : ℕ)
      → IsTrusted c b cfg cmd now
      → validate_signed_command c b cfg cmd now ≡ ok tt
  unfolding validate_signed_command check_signature
  IsTrusted-accepted cfg cmd now h =
      let device : (cmd.device_id == cfg.device_id) ≡ true =
        rw h.same_device (eq_refl cfg.device_id) in
      let key : (cmd.signature_key_id == cfg.command_signing_key_id) ≡ true =
        rw h.same_key (eq_refl cfg.command_signing_key_id) in
      let window = window_passes now cmd.created_at h.expiry h.current in
      rw (h.safe, device, h.expires, window, h.named, key, h.parsed) h.signed

  -- validateSignedCommand accepts a command exactly when its identifier is safe, it is for this
  -- device, its period is present and current, and its signature under the pinned key, whose
  -- identifier it names, is valid for all of its fields.
  pub validate_signed_command_iff :
      (cfg : Config) (cmd : AgentCommand) (now : ℕ)
      → (validate_signed_command c b cfg cmd now ≡ ok tt) ↔ IsTrusted c b cfg cmd now
  validate_signed_command_iff cfg cmd now =
      (accepted-IsTrusted cfg cmd now, IsTrusted-accepted cfg cmd now)

  -- A command that the agent accepts has not expired, and expires within 25 hours and 5 minutes.
  pub accepted_window :
      (cfg : Config) (cmd : AgentCommand) (now t : ℕ)
      → validate_signed_command c b cfg cmd now ≡ ok tt
      → cmd.expires_at ≡ some t
      → (now ≤ t) × (t ≤ now + minutes 5 + hours 25)
  accepted_window cfg cmd now t h e =
      let a = accepted-IsTrusted cfg cmd now h in
      let same : some t ≡ some a.expiry = sym e ∙ a.expires in
      ground
        (arith, some-injective _ _ same, a.current.unexpired, a.current.started, a.current.short)
