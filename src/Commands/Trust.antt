-- ===== src/Commands/Trust.antt =====
-- What the server signs, the agent accepts: newCommand of server/internal/store/sqlite.go against
-- validateSignedCommand of agent/go/cmd/rmm-agent/main.go.
use openwrt_rmm.Base.{
  ℕ, ◌+◌, ◌≤◌, String, ◌≡◌, refl, sym, ap, ◌∙◌, true, false, some, arith, ◌==◌, eqb, length,
}
use openwrt_rmm.Schema.{Db, Command, Json, Result, ok, err, guard_ok}
use openwrt_rmm.Env.{Env, minutes, hours, random_id}
use openwrt_rmm.Signing.{Ed25519Laws, Envelope, sign}
use openwrt_rmm.Signing.RoundTrip.{verify-sign_lem}
use openwrt_rmm.Signing.Keys.{Base64, Base64Laws, encode_public_key, parse_public_key-encode}
use openwrt_rmm.Agent.{Config, AgentCommand}
use openwrt_rmm.Agent.Validate.{safe_session_id, validate_signed_command}
use openwrt_rmm.Agent.Validate.Window.{validate_signed_command_iff}
use openwrt_rmm.Commands.{new_command, unsigned_command, with_signature, microsecond}

-- A stored command as the agent reads it from the server's JSON.
abbrev pub delivered : Command → AgentCommand
delivered c = record {
  id = c.id;
  device_id = c.device_id;
  kind = c.kind;
  args = c.args;
  created_at = c.created_at;
  expires_at = c.expires_at;
  nonce = c.nonce;
  signature_key_id = c.signature_key_id;
  signature = c.signature;
}

abbrev unsigned : Command → ℕ → Envelope
unsigned c t = record {
  id = c.id;
  device_id = c.device_id;
  kind = c.kind;
  args = c.args;
  created_at = c.created_at;
  expires_at = t;
  nonce = c.nonce;
}

with_signature_ok :
    (c d : Command) (r : Result String)
    → with_signature c r ≡ ok d
    → (s : String) × (r ≡ ok s) × (d ≡ record c { signature = s })
unfolding with_signature
with_signature_ok c d (ok s) h = (s, refl, ground arith)
with_signature_ok c d (err e) h = ground arith

-- What newCommand stores of its arguments, and that it signs just that.
record IsSigned (env : Env) (db : Db) (device_id : String) (ttl : ℕ) (c : Command) : Type 0 where
  drawn : c.id ≡ random_id env db "cmd"
  same_device : c.device_id ≡ device_id
  created : c.created_at ≡ microsecond env.now
  expires : c.expires_at ≡ some (microsecond (microsecond env.now + ttl))
  key_id : c.signature_key_id ≡ env.ed25519.key_id (env.ed25519.public_of env.signing_key)
  signed :
      sign env.ed25519 env.signing_key (unsigned c (microsecond (microsecond env.now + ttl)))
      ≡ ok c.signature

new_command-IsSigned :
    (env : Env) (db : Db) (device_id kind : String) (args : Json) (ttl : ℕ) (c : Command)
    → new_command env db device_id kind args ttl ≡ ok c
    → IsSigned env db device_id ttl c
unfolding new_command unsigned_command
new_command-IsSigned env db device_id kind args ttl c h =
    let (sized, rest) = guard_ok (eqb (length env.signing_key) 64) _ _ c h in
    let (s, e, d) = with_signature_ok (unsigned_command env db device_id kind args ttl) c _ rest in
    record {
      drawn = ap (λ x. x.id) d;
      same_device = ap (λ x. x.device_id) d;
      created = ap (λ x. x.created_at) d;
      expires = ap (λ x. x.expires_at) d;
      key_id = ap (λ x. x.signature_key_id) d;
      signed = rw d e;
    }

-- An agent of the device that has pinned the server's key, and its clock `now` against a command's.
pub record Trusts (env : Env) (b : Base64) (device_id : String) (cfg : Config) : Type 0 where
  pub device : cfg.device_id ≡ device_id
  pub key :
      cfg.command_signing_public_key ≡ encode_public_key b (env.ed25519.public_of env.signing_key)
  pub key_id :
      cfg.command_signing_key_id ≡ env.ed25519.key_id (env.ed25519.public_of env.signing_key)
  pub key_id_present : (cfg.command_signing_key_id == "") ≡ false

module _ (env : Env) (b : Base64) (laws : Ed25519Laws env.ed25519) (codec : Base64Laws b)
    (sized : length env.signing_key ≡ 64) where
  -- A command that newCommand makes for a device, with a lifetime of 25 hours at most, is accepted
  -- by every agent of that device that has pinned the server's key, from five minutes before its
  -- creation until it expires, provided that the drawn identifier is a safe name, the clock of the
  -- server has left zero and the lifetime is at least a microsecond.
  pub new_command-accepted :
      (db : Db) (device_id kind : String) (args : Json) (ttl : ℕ) (c : Command) (cfg : Config)
      (now : ℕ)
      → new_command env db device_id kind args ttl ≡ ok c
      → Trusts env b device_id cfg
      → safe_session_id (random_id env db "cmd") ≡ true
      → 1000 ≤ env.now
      → 1000 ≤ ttl
      → ttl ≤ hours 25
      → c.created_at ≤ now + minutes 5
      → now ≤ microsecond (microsecond env.now + ttl)
      → validate_signed_command env.ed25519 b cfg (delivered c) now ≡ ok tt
  new_command-accepted db device_id kind args ttl c cfg now h t safe late long short soon due =
      let s = new_command-IsSigned env db device_id kind args ttl c h in
      let shown =
        parse_public_key-encode b codec (env.ed25519.public_of env.signing_key)
          (laws.public-length env.signing_key sized) in
      (validate_signed_command_iff env.ed25519 b cfg (delivered c) now).1 (record {
        safe = rw s.drawn safe;
        same_device = s.same_device ∙ sym t.device;
        expiry = microsecond (microsecond env.now + ttl);
        expires = s.expires;
        current = record {
          dated = omega (arith, s.created, late);
          unexpired = due;
          started = soon;
          ordered = omega (arith, s.created, long);
          short = omega (arith, s.created, short);
        };
        named = rw (s.key_id, sym t.key_id) t.key_id_present;
        same_key = s.key_id ∙ sym t.key_id;
        key = env.ed25519.public_of env.signing_key;
        parsed = rw t.key shown;
        signed =
            verify-sign_lem env.ed25519 laws env.signing_key
              (unsigned c (microsecond (microsecond env.now + ttl))) s.signed;
      })
