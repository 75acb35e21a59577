-- ===== src/Agent/Profile/Command.antt =====
-- runFleetProfile of agent/go/cmd/rmm-agent/profiles.go: the three profile commands.
use openwrt_rmm.Base.{
  ℕ, ◌+◌, ◌^◌, String, not, ◌||◌, Option, none, some, List, [], ◌∷◌, any, length, ltb,
  if◌then◌else◌, ◌==◌, trim_space,
}
use openwrt_rmm.Schema.{is_zero, ok, err}
use openwrt_rmm.Env.{minutes}
use openwrt_rmm.Agent.{AgentCommand, argument}
use openwrt_rmm.Agent.Validate.{safe_session_id}
use openwrt_rmm.Agent.Profile.{Profile, validate, sensitive}
use openwrt_rmm.Agent.Profile.Disk.{read_file, ProfileTicket, Disk, ProfilePlatform}
use openwrt_rmm.Agent.Profile.Preview.{ProfileFaults, Answer, preview_profile}
use openwrt_rmm.Agent.Profile.Apply.{apply_profile}
use openwrt_rmm.Agent.Profile.Restore.{rollback_fleet_profile}

module _ (p : ProfilePlatform) where
  ticket_of : ℕ → Profile → List ℕ → ProfileTicket
  ticket_of now profile original = record {
    config = profile.config;
    base_hash = p.digest original;
    desired_hash = p.digest (p.marshal_profile profile);
    expires_at = now + minutes 30;
  }

  preview_or_apply : ProfileFaults → AgentCommand → String → Profile → List ℕ → Disk → Answer × Disk
  unfolding ticket_of
  preview_or_apply f cmd preview_id profile original d =
      let ticket = ticket_of f.now profile original in
      if cmd.kind == "uci_profile_preview"
      then preview_profile p f cmd.id profile ticket d
      else if cmd.kind == "uci_profile_apply"
      then apply_profile p f cmd.id preview_id profile original ticket d
      else (("profile apply requires a successful preview\n", 2), d)

  with_original :
      ProfileFaults → AgentCommand → String → Profile → Option (List ℕ) → Disk → Answer × Disk
  unfolding preview_or_apply
  with_original f cmd preview_id profile none d = (("configuration unavailable\n", 1), d)
  with_original f cmd preview_id profile (some original) d =
      let staged = p.run ("uci" ∷ "changes" ∷ profile.config ∷ []) d.configs in
      let looked = record d { configs = staged.configs } in
      if ltb (2 ^ 20) (length original)
      then (("configuration exceeds profile limit\n", 2), d)
      else if not (is_zero staged.code) || not (trim_space staged.output == "")
      then (("configuration has staged changes; resolve them before using profiles\n", 1), looked)
      else preview_or_apply f cmd preview_id profile original looked

  with_profile : ProfileFaults → AgentCommand → String → Option Profile → Disk → Answer × Disk
  unfolding with_original
  with_profile f cmd preview_id none d = (("invalid UCI profile\n", 2), d)
  with_profile f cmd preview_id (some profile) d = elim (validate profile) [
    | err e ↦ (("invalid UCI profile\n", 2), d)
    | ok u ↦
        if any (λ o. sensitive p.lower o.option) profile.options
        then (("credential options require the credential workflow\n", 2), d)
        else with_original f cmd preview_id profile (read_file profile.config d.configs) d
  ]

  with_args : ProfileFaults → AgentCommand → Option (List (String × String)) → Disk → Answer × Disk
  unfolding with_profile argument
  with_args f cmd none d = (("invalid profile command\n", 2), d)
  with_args f cmd (some args) d =
      if not (safe_session_id cmd.id)
      then (("invalid profile command\n", 2), d)
      else if cmd.kind == "uci_profile_rollback"
      then rollback_fleet_profile p f.restored_written (argument "apply_id" args) d
      else with_profile f cmd (argument "preview_id" args)
          (p.parse_profile (argument "profile_json" args)) d

  -- runFleetProfile: the answer and the disk after it.
  unfoldable pub run_fleet_profile : ProfileFaults → AgentCommand → Disk → Answer × Disk
  unfolding with_args
  run_fleet_profile f cmd d = with_args f cmd cmd.args.strings d
