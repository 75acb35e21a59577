-- ===== src/Examples/Router.antt =====
-- A router's agent on concrete commands.
use openwrt_rmm.Base.{
  ℕ, zero, suc, ◌+◌, ◌≤◌, String, ◌≡◌, refl, ◌↔◌, true, false, none, some, List, [], ◌∷◌, arith,
  count_where, trim_space, is_space,
}
use openwrt_rmm.Schema.{pos, Command, empty_object, Result, ok, err}
use openwrt_rmm.Env.{Env, random_id, hours, minutes, seconds}
use openwrt_rmm.Signing.{sign, verify, canonical}
use openwrt_rmm.Signing.Keys.{Base64, Base64Laws, has_space, encode_public_key, parse_public_key}
use openwrt_rmm.Agent.{Config, AgentCommand}
use openwrt_rmm.Agent.Platform.{Platform, Circumstances, Stop, Outcome}
use openwrt_rmm.Agent.Validate.{validate_signed_command, pin_command_signing_key, safe_session_id}
use openwrt_rmm.Agent.Validate.Window.{IsTrusted, validate_signed_command_iff}
use openwrt_rmm.Agent.Validate.Pin.{IsPinned, pin_command_signing_key-IsPinned}
use openwrt_rmm.Agent.State.{AgentState, cleanup_command_state}
use openwrt_rmm.Agent.Process.{process_command}
use openwrt_rmm.Agent.Process.Once.{is_run_of}
use openwrt_rmm.Agent.Process.History.{AgentEvent, delivery, flush, run_agent, run_agent-once}
use openwrt_rmm.Agent.Process.Report.{IsDone, process_command-IsDone}
use openwrt_rmm.Commands.{new_command}
use openwrt_rmm.Commands.Trust.{delivered, new_command-accepted}
use openwrt_rmm.Examples.Data.{
  toy, toy_laws, key, noon, here, fleet, ping, encode, decode, decode-encode_lem, encode_one,
}

encode_one-plain : (n : ℕ) (s : String) → has_space s ≡ false → has_space (encode_one n s) ≡ false
unfolding is_space
encode_one-plain zero s h = h
encode_one-plain (suc n) s h = encode_one-plain n s h

encode-plain_lem : (xs : List ℕ) → has_space (encode xs) ≡ false
encode-plain_lem [] = refl
encode-plain_lem (x ∷ xs) = encode_one-plain x (encode xs) (encode-plain_lem xs)

abbrev pub codec : Base64
codec = record { encode = encode; decode = λ s. some (decode s) }

pub codec_laws : Base64Laws codec
codec_laws = record {
  decode-encode = λ k. rw (decode-encode_lem k);
  encode-plain = encode-plain_lem;
}

abbrev pub public_key : String
public_key = encode_public_key codec (toy.public_of key)

abbrev pub router_config : Config
router_config = record {
  device_id = "d1";
  command_signing_public_key = public_key;
  command_signing_key_id = toy.key_id (toy.public_of key);
}

abbrev pub signed_ping : AgentCommand
signed_ping = record {
  id = "cmd_1";
  device_id = "d1";
  kind = "ping";
  args = empty_object;
  created_at = noon;
  expires_at = some (noon + hours 24);
  nonce = "n1";
  signature_key_id = toy.key_id (toy.public_of key);
  signature = toy.encode (toy.sign_bytes key (1 ∷ 2 ∷ []));
}

abbrev fine : Config → AgentCommand → Outcome
fine cfg cmd = record { output = "pong\n"; exit_code = pos 0; details = [] }

abbrev pub platform : Platform
platform = record {
  ed25519 = toy;
  base64 = codec;
  lower = λ s. s;
  version = "1.0.0";
  is_object = λ s. false;
  is_diagnostic_report = λ s. false;
  run_command = fine;
  run_fleet_profile = fine;
  agent_package_operation = fine;
  system_backup_operation = fine;
}

abbrev calm : Circumstances
calm = record {
  now = noon + seconds 10;
  elapsed = seconds 1;
  make_directory = ok tt;
  listed = true;
  read_result = ok tt;
  parse_result = ok tt;
  reserve_marker = ok tt;
  persist = ok tt;
  removed = true;
  answer = some 200;
  spooled = true;
  stop = none;
}

abbrev crash : Circumstances
crash = record calm { stop = some Stop.during_run }

abbrev fresh_state : AgentState
fresh_state = record { config = router_config; files = []; spool = []; runs = []; sent = [] }

ping_accepted : validate_signed_command toy codec router_config signed_ping calm.now ≡ ok tt
unfolding validate_signed_command verify canonical parse_public_key encode_public_key trim_space
ping_accepted = refl

-- A crash, and the same command twice more.
abbrev replays : List AgentEvent
replays =
    delivery crash signed_ping
    ∷ delivery (record calm { now = noon + seconds 20 }) signed_ping
    ∷ flush (noon + seconds 30) (λ f. (true, some 200))
    ∷ delivery (record calm { now = noon + seconds 40 }) signed_ping
    ∷ []

run_agent-once_example :
    count_where (is_run_of "cmd_1") (run_agent platform replays fresh_state).runs ≤ 1
run_agent-once_example =
    run_agent-once platform "cmd_1" (noon + hours 24) noon replays fresh_state
      (omega arith, (omega arith, (omega arith, (omega arith, tt))))
      ((λ e. refl), ((λ e. refl), ((λ e. refl), tt))) refl

process_command-IsDone_example :
    IsDone platform signed_ping
      (cleanup_command_state true calm.now fresh_state)
      (process_command platform calm signed_ping fresh_state)
process_command-IsDone_example =
    process_command-IsDone platform calm signed_ping
      (record {
        directory = refl;
        readable = refl;
        parses = refl;
        reserves = refl;
        persists = refl;
        spools = refl;
        runs_on = refl;
      })
      fresh_state ping_accepted

validate_signed_command_iff_example :
    (validate_signed_command toy codec router_config signed_ping calm.now ≡ ok tt)
    ↔ IsTrusted toy codec router_config signed_ping calm.now
validate_signed_command_iff_example =
    validate_signed_command_iff toy codec router_config signed_ping calm.now

pin_command_signing_key-IsPinned_example :
    IsPinned router_config router_config false
      (trim_space public_key)
      (trim_space (toy.key_id (toy.public_of key)))
    × ((k : List ℕ) × (parse_public_key codec (trim_space public_key) ≡ ok k)
        × (toy.key_id k ≡ trim_space (toy.key_id (toy.public_of key))))
unfolding pin_command_signing_key parse_public_key encode_public_key trim_space
pin_command_signing_key-IsPinned_example =
    pin_command_signing_key-IsPinned toy codec router_config router_config false public_key
      (toy.key_id (toy.public_of key)) refl

abbrev server : Env
server = record here { random_hex = λ n. "1" }

made : Result Command → Command
made (ok c) = c
made (err e) = ping

new_ping : Command
unfolding new_command sign canonical trim_space made random_id
new_ping = made (new_command server fleet "d1" "ping" empty_object (hours 24))

new_command-accepted_example :
    validate_signed_command toy codec router_config (delivered new_ping) (noon + minutes 1) ≡ ok tt
unfolding new_ping new_command sign canonical trim_space made random_id safe_session_id
new_command-accepted_example =
    new_command-accepted server codec toy_laws codec_laws refl fleet "d1" "ping" empty_object
      (hours 24) new_ping router_config (noon + minutes 1) refl
      (record { device = refl; key = refl; key_id = refl; key_id_present = refl }) refl
      (omega arith) (omega arith) (omega arith) (omega arith) (omega arith)
