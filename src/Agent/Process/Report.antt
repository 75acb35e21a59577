-- ===== src/Agent/Process/Report.antt =====
-- That every accepted command gets its result, agent/go/cmd/rmm-agent/main.go.
use openwrt_rmm.Base.{
  ℕ, ◌+◌, String, ◌≡◌, refl, ap, subst, sym, ◌∙◌, inl, inr, true, false, Option, none, some, List,
  [], ◌∷◌, ◌++◌, any, Bool-cases,
}
use openwrt_rmm.Schema.{Check, ok}
use openwrt_rmm.Agent.{AgentCommand}
use openwrt_rmm.Agent.Platform.{Platform, Circumstances}
use openwrt_rmm.Agent.Validate.{validate_signed_command}
use openwrt_rmm.Agent.State.{
  CommandResult, SpoolFile, AgentState, marker_of, find_result, cleanup_command_state, reserve,
  persist_command_result, remove_marker, deliver_command_result, spool_command_result, is_answered,
}
use openwrt_rmm.Agent.State.Files.{find_result-settled, remove_marker-runs}
use openwrt_rmm.Agent.Process.{
  settle, keep_result, run_reserved, reserve_and_run, start_command, deliver_again, from_result,
  look_up, with_directory, accepted, process_command, outcome_result, run_outcome, interrupted,
}

-- The router's file system does its part, and the agent does not stop.
pub record IsCalm (w : Circumstances) : Type 0 where
  pub directory : w.make_directory ≡ ok tt
  pub readable : w.read_result ≡ ok tt
  pub parses : w.parse_result ≡ ok tt
  pub reserves : w.reserve_marker ≡ ok tt
  pub persists : w.persist ≡ ok tt
  pub spools : w.spooled ≡ true
  pub runs_on : w.stop ≡ none

-- The result is the last that went to the server, or the newest of the spool.
pub data Reported (id : String) (r : CommandResult) (s : AgentState) : Type 0 where
  answered :
      (before : List SpoolFile)
      → s.sent ≡ before ++ record { command_id = id; body = r } ∷ []
      → Reported id r s
  waiting :
      (rest : List SpoolFile)
      → s.spool ≡ record { command_id = id; body = r } ∷ rest
      → Reported id r s

-- How the agent came by the result `r` of a command, from the state `s` after the cleanup: it had
-- the result, it had begun a run that was interrupted, or it ran the command now.
pub data Handled (p : Platform) (cmd : AgentCommand) (s s' : AgentState) (r : CommandResult)
    : Type 0 where
  had : s'.runs ≡ s.runs → find_result cmd.id s.files ≡ some r → Handled p cmd s s' r
  had_begun :
      s'.runs ≡ s.runs
      → find_result cmd.id s.files ≡ none
      → any (marker_of cmd.id) s.files ≡ true
      → r ≡ interrupted p s.config
      → Handled p cmd s s' r
  ran_now :
      s'.runs ≡ s.runs ++ cmd ∷ []
      → find_result cmd.id s.files ≡ none
      → any (marker_of cmd.id) s.files ≡ false
      → r ≡ outcome_result p s.config (run_outcome p s.config cmd)
      → Handled p cmd s s' r

-- The handling succeeds, and its result is kept and reported.
pub record IsDone (p : Platform) (cmd : AgentCommand) (s : AgentState) (o : Check × AgentState)
    : Type 0 where
  pub done : o.0 ≡ ok tt
  pub result : CommandResult
  pub stored : find_result cmd.id o.1.files ≡ some result
  pub reported : Reported cmd.id result o.1
  pub handled : Handled p cmd s o.1 result

module _ (answer : Option ℕ) (id : String) (r : CommandResult) (s : AgentState) where
  deliver-Reported : Reported id r (deliver_command_result answer true id r s)
  unfolding deliver_command_result spool_command_result
  deliver-Reported = elim (Bool-cases (is_answered answer)) [
    | inl e ↦ rw e (answered s.sent refl)
    | inr n ↦ rw n (waiting _ refl)
  ]

  deliver-same :
      ((deliver_command_result answer true id r s).files ≡ s.files)
      × ((deliver_command_result answer true id r s).runs ≡ s.runs)
  unfolding deliver_command_result spool_command_result
  deliver-same = elim (Bool-cases (is_answered answer)) [
    | inl e ↦ rw e (refl, refl)
    | inr n ↦ rw n (refl, refl)
  ]

module _ (p : Platform) (w : Circumstances) (cmd : AgentCommand) (calm : IsCalm w) where
  -- What keeping a result comes to.
  kept :
      (later : ℕ) (r : CommandResult) (s : AgentState)
      → keep_result p w later cmd.id r w.persist s ≡ (
        ok tt,
        deliver_command_result w.answer true cmd.id r
            (remove_marker w.removed cmd.id (persist_command_result later cmd.id r s)),
      )
  unfolding keep_result settle
  kept later r s = simp (calm.persists, calm.runs_on, calm.spools)

  kept-IsDone :
      (later : ℕ) (r : CommandResult) (s t : AgentState)
      → ((t' : AgentState) → t'.runs ≡ t.runs → Handled p cmd s t' r)
      → IsDone p cmd s (keep_result p w later cmd.id r w.persist t)
  kept-IsDone later r s t how =
      let settled = remove_marker w.removed cmd.id (persist_command_result later cmd.id r t) in
      let (files, runs) = deliver-same w.answer cmd.id r settled in
      subst (IsDone p cmd s) (sym (kept later r t)) (record {
        done = refl;
        result = r;
        stored = ap (find_result cmd.id) files ∙ find_result-settled w.removed later cmd.id r t;
        reported = deliver-Reported w.answer cmd.id r settled;
        handled = how _ (runs ∙ remove_marker-runs w.removed later cmd.id r t);
      })

  start_command-IsDone :
      (s : AgentState)
      → find_result cmd.id s.files ≡ none
      → IsDone p cmd s (start_command p w cmd s)
  unfolding start_command reserve_and_run run_reserved reserve
  start_command-IsDone s e = elim (Bool-cases (any (marker_of cmd.id) s.files)) [
    | inl m ↦ simp m (kept-IsDone w.now (interrupted p s.config) s s (λ t' q. had_begun q e m refl))
    | inr m ↦
        simp (m, calm.reserves, calm.runs_on)
          (kept-IsDone (w.now + w.elapsed) (outcome_result p s.config (run_outcome p s.config cmd))
            s _ (λ t' q. ran_now q e m refl))
  ]

  look_up-IsDone : (s : AgentState) → IsDone p cmd s (look_up p w cmd w.read_result s)
  unfolding look_up from_result deliver_again
  look_up-IsDone s = simp calm.readable (go (find_result cmd.id s.files) refl)
    where
      go :
          (o : Option CommandResult)
          → find_result cmd.id s.files ≡ o
          → IsDone p cmd s (from_result p w cmd o s)
      go none e = start_command-IsDone s e
      go (some r) e =
          let (files, runs) = deliver-same w.answer cmd.id r s in
          simp (calm.parses, calm.spools)
            (record {
              done = refl;
              result = r;
              stored = ap (find_result cmd.id) files ∙ e;
              reported = deliver-Reported w.answer cmd.id r s;
              handled = had runs e;
            })

  -- When the file system does its part and the agent does not stop, every command that is accepted is
  -- handled: a result of it is kept on the router and was sent, or is in the spool. It is the kept one
  -- without a new run, the report of an interruption without a new run where a run had begun, and
  -- otherwise the result of the one run that takes place.
  pub process_command-IsDone :
      (s : AgentState)
      → validate_signed_command p.ed25519 p.base64 s.config cmd w.now ≡ ok tt
      → IsDone p cmd (cleanup_command_state w.listed w.now s) (process_command p w cmd s)
  unfolding process_command accepted with_directory
  process_command-IsDone s e =
      simp (e, calm.directory) (look_up-IsDone (cleanup_command_state w.listed w.now s))
