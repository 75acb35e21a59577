-- ===== src/Examples/Delivery.antt =====
-- The delivery of commands at concrete inputs.
use openwrt_rmm.Base.{earliest, ◌+◌, ◌≡◌, refl, Bool, some, List, [], ◌∷◌, All, Related}
use openwrt_rmm.Schema.{ℤ, Command, CommandStatus, empty_object, ok}
use openwrt_rmm.Env.{Env, minutes}
use openwrt_rmm.Access.{fleet_principal, permission_allowed}
use openwrt_rmm.Commands.{
  expire_claimed_commands, expire_row, expire_due, expire_worn, requeue_stale,
}
use openwrt_rmm.Commands.Life.{Evolves, IsFresh, expire_claimed_commands-IsFresh}
use openwrt_rmm.Commands.History.{Event, run, run-Related}
use openwrt_rmm.Commands.Claim.{claim_next_command, creator, gate, creator_gate}
use openwrt_rmm.Commands.Claim.Safety.{
  Delivered, claim_next_command-Delivered, claim_next_command-permitted,
}
use openwrt_rmm.Examples.Data.{here, env_at, fleet, noon, ping}

abbrev taken : Command
taken = record ping { status = CommandStatus.claimed; attempt_count = 1 }

delivered : (claim_next_command here "d1" fleet).0 ≡ ok (some taken)
unfolding claim_next_command expire_claimed_commands expire_row expire_due expire_worn requeue_stale
    gate creator creator_gate fleet_principal permission_allowed earliest
delivered = refl

created_by :
    creator (expire_claimed_commands here (minutes 2) fleet) taken ≡ some ("u2", "diagnostics")
unfolding creator expire_claimed_commands expire_row expire_due expire_worn requeue_stale
created_by = refl

claim_next_command-Delivered_example :
    Delivered here "d1" (expire_claimed_commands here (minutes 2) fleet) taken
claim_next_command-Delivered_example = claim_next_command-Delivered here "d1" fleet taken delivered

claim_next_command-permitted_example :
    (admin : Bool) × (fleet_principal (expire_claimed_commands here (minutes 2) fleet) "u2"
      ≡ ok admin)
    × (permission_allowed
          (expire_claimed_commands here (minutes 2) fleet)
          "u2"
          "d1"
          "diagnostics"
          admin
        ≡ ok tt)
claim_next_command-permitted_example =
    claim_next_command-permitted here "d1" fleet taken "u2" "diagnostics" delivered created_by

-- The agent takes the command, fails to report in time, takes it again and reports.
abbrev events : List (Env × Event)
events =
    (here, Event.claim "d1")
    ∷ (env_at (noon + 200000000000), Event.expiry 120000000000)
    ∷ (env_at (noon + 200000000000), Event.report "c1" "d1" "completed" (ℤ.pos 0) "" empty_object)
    ∷ (env_at (noon + 300000000000), Event.cancel "d1" "c1")
    ∷ []

run-Related_example : Related Evolves fleet.commands (run events fleet).commands
run-Related_example = run-Related events fleet (tt, tt)

expire_claimed_commands-IsFresh_example :
    All (IsFresh noon 120000000000) (expire_claimed_commands here 120000000000 fleet).commands
expire_claimed_commands-IsFresh_example = expire_claimed_commands-IsFresh here 120000000000 fleet
