-- ===== src/Examples/Shells.antt =====
-- The lines that a command runs on a concrete router.
use openwrt_rmm.Base.{true, none, some, [], ◌∷◌}
use openwrt_rmm.Schema.{pos}
use openwrt_rmm.Agent.Shell.{Answer, Programs, Shell}
use openwrt_rmm.Agent.Shell.Allowed.{Ends}
use openwrt_rmm.Agent.Shell.Commands.{Others, run_command}
use openwrt_rmm.Agent.Shell.Commands.Allowlist.{run_command-IsClean}
use openwrt_rmm.Examples.Router.{signed_ping}

abbrev quiet : Unit {0} → Answer × Unit {0}
quiet w = (("", pos 0), w)

abbrev programs : Programs (Unit {0})
programs = record {
  exec = λ line w. quiet w;
  exec_input = λ input line w. quiet w;
  package_manager = "opkg";
  saves = true;
  temporary = some ("/tmp/a", "/tmp/b");
  wait = λ n w. (true, w);
  reachable = λ w. true;
  atoi = λ s. none;
  decimal = λ n. "15";
  quote = λ s. s;
  read_args = λ args. ("config", "network") ∷ ("section", "lan") ∷ ("option", "ipaddr") ∷ [];
}

abbrev elsewhere : Others (Unit {0})
elsewhere = record {
  run_diagnostics = λ args w. quiet w;
  remote_ssh_reverse = λ args w. quiet w;
  remote_ssh_close = λ args w. quiet w;
  schedule_reboot = λ w. quiet w;
}

abbrev idle : Shell (Unit {0})
idle = record { world = tt; lines = []; exports = [] }

run_command-IsClean_example :
    Ends programs (run_command programs elsewhere (record signed_ping { kind = "uci_set" }) idle)
run_command-IsClean_example =
    run_command-IsClean programs elsewhere idle (record { clean = tt })
      (record signed_ping { kind = "uci_set" })
