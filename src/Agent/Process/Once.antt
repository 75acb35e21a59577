-- ===== src/Agent/Process/Once.antt =====
-- That the agent runs a command once at most, agent/go/cmd/rmm-agent/main.go.
use openwrt_rmm.Base.{
  ℕ, ◌+◌, ◌≤◌, ◌<◌, String, ◌≡◌, refl, subst, inl, inr, Bool, true, false, Option, none, some, List,
  [], ◌∷◌, ◌++◌, any, count_where, arith, ◌==◌, eq_iff, Bool-cases, if◌then◌else◌,
}
use openwrt_rmm.Schema.{Check, ok, err}
use openwrt_rmm.Agent.{AgentCommand}
use openwrt_rmm.Agent.Platform.{Platform, Circumstances}
use openwrt_rmm.Agent.Validate.{validate_signed_command}
use openwrt_rmm.Agent.Validate.Window.{accepted_window}
use openwrt_rmm.Agent.State.{
  CommandResult, AgentState, marker_of, find_result, cleanup_command_state, reserve,
  persist_command_result, remove_marker, deliver_command_result, spool_command_result, days,
  outdated,
}
use openwrt_rmm.Agent.State.Files.{keeps, any-delete_where, no_file, settled_keeps}
use openwrt_rmm.Agent.Process.{
  settle, keep_result, run_reserved, reserve_and_run, start_command, deliver_again, from_result,
  look_up, with_directory, accepted, process_command, stops_after, stops_before, stops_during,
  outcome_result, run_outcome, interrupted,
}

abbrev pub is_run_of : String → AgentCommand → Bool
is_run_of id c = c.id == id

count_where-append {ℓ} :
    {A : Type ℓ} (p : A → Bool) (xs : List A) (x : A)
    → count_where p (xs ++ x ∷ []) ≡ count_where p xs + (if p x then 1 else 0)
count_where-append p [] x = ground arith
count_where-append p (y ∷ xs) x = ground (arith, count_where-append p xs x)

module _ (id : String) (t : ℕ) where
  -- At the time `now`: the command ran once at most, and if it ran and has not expired, then a file
  -- keeps it from running again.
  pub record IsOnce (now : ℕ) (s : AgentState) : Type 0 where
    pub few : count_where (is_run_of id) s.runs ≤ 1
    pub kept : 0 < count_where (is_run_of id) s.runs → now ≤ t → any (keeps id t) s.files ≡ true

  -- A part of the handling that runs nothing and loses no file of the command.
  record Quiet (now : ℕ) (s s' : AgentState) : Type 0 where
    same : s'.runs ≡ s.runs
    stays : now ≤ t → any (keeps id t) s.files ≡ true → any (keeps id t) s'.files ≡ true

  Quiet-IsOnce : (now : ℕ) (s s' : AgentState) → Quiet now s s' → IsOnce now s → IsOnce now s'
  Quiet-IsOnce now s s' q h = record {
    few = rw q.same h.few;
    kept = λ r e. q.stays e (h.kept (rw q.same at r) e);
  }

  Quiet-refl : (now : ℕ) (s : AgentState) → Quiet now s s
  Quiet-refl now s = record { same = refl; stays = λ e k. k }

  cleanup-Quiet :
      (listed : Bool) (now : ℕ) (s : AgentState) → Quiet now s (cleanup_command_state listed now s)
  unfolding cleanup_command_state
  cleanup-Quiet false now s = Quiet-refl now s
  cleanup-Quiet true now s = record {
    same = refl;
    stays = λ le h. any-delete_where (keeps id t) (outdated now) (λ f k. ground arith) s.files h;
  }

  deliver-IsOnce :
      (now : ℕ) (answer : Option ℕ) (spooled : Bool) (i : String) (r : CommandResult)
      (s : AgentState)
      → IsOnce now s
      → IsOnce now (deliver_command_result answer spooled i r s)
  unfolding deliver_command_result spool_command_result
  deliver-IsOnce now answer spooled i r s h = record {
    few = ground arith;
    kept = λ k e. ground arith;
  }

  settled-Quiet :
      (now later : ℕ) (removed : Bool) (i : String) (r : CommandResult) (s : AgentState)
      → (i ≡ id → t ≤ later + days 30)
      → Quiet now s (remove_marker removed i (persist_command_result later i r s))
  unfolding remove_marker persist_command_result
  settled-Quiet now later false i r s own = record {
    same = refl;
    stays = λ e h. settled_keeps id t later i r own false s h;
  }
  settled-Quiet now later true i r s own = record {
    same = refl;
    stays = λ e h. settled_keeps id t later i r own true s h;
  }

  module _ (p : Platform) (w : Circumstances) (cmd : AgentCommand)
      (own : cmd.id ≡ id → (w.now ≤ t) × (t ≤ w.now + days 30)) where
    keep_result-IsOnce :
        (later : ℕ) (r : CommandResult) (c : Check) (s : AgentState)
        → w.now ≤ later
        → IsOnce w.now s
        → IsOnce w.now (keep_result p w later cmd.id r c s).1
    unfolding keep_result settle
    keep_result-IsOnce later r (err e) s le h = h
    keep_result-IsOnce later r (ok u) s le h = elim (Bool-cases (stops_after w.stop)) [
      | inl e ↦ simp e (kept_with false)
      | inr n ↦ simp n (deliver-IsOnce w.now w.answer w.spooled cmd.id r _ (kept_with w.removed))
    ]
      where
        late : cmd.id ≡ id → t ≤ later + days 30
        late e = omega (arith, (own e).1)

        kept_with :
            (removed : Bool)
            → IsOnce w.now (remove_marker removed cmd.id (persist_command_result later cmd.id r s))
        kept_with removed =
            Quiet-IsOnce w.now s _ (settled-Quiet w.now later removed cmd.id r s late) h

    run_reserved-IsOnce :
        (s : AgentState)
        → (cmd.id ≡ id → count_where (is_run_of id) s.runs ≡ 0)
        → IsOnce w.now s
        → IsOnce w.now (run_reserved p w cmd (reserve w.now cmd.id s)).1
    unfolding run_reserved reserve
    run_reserved-IsOnce s fresh h = elim (Bool-cases (stops_before w.stop)) [
      | inl e ↦ simp e reserved
      | inr n ↦ elim (Bool-cases (stops_during w.stop)) [
        | inl e ↦ simp (n, e) ran
        | inr m ↦
            simp (n, m)
              (keep_result-IsOnce (w.now + w.elapsed)
                (outcome_result p s.config (run_outcome p s.config cmd)) w.persist _ (omega arith)
                ran)
      ]
    ]
      where
        reserved : IsOnce w.now (reserve w.now cmd.id s)
        reserved = record { few = h.few; kept = λ k e. ground (arith, h.kept k e) }

        ran : IsOnce w.now (record (reserve w.now cmd.id s) { runs = s.runs ++ cmd ∷ [] })
        ran = record {
          few =
              ground (
                arith,
                count_where-append (is_run_of id) s.runs cmd,
                eq_iff cmd.id id,
                fresh,
                h.few,
              );
          kept = λ k e. elim (Bool-cases (cmd.id == id)) [
            | inl y ↦ ground (arith, eq_iff cmd.id id, own)
            | inr n ↦
                let before : 0 < count_where (is_run_of id) s.runs =
                  ground (arith, count_where-append (is_run_of id) s.runs cmd) in
                ground (arith, h.kept before e)
          ];
        }

    start_command-IsOnce :
        (s : AgentState)
        → find_result cmd.id s.files ≡ none
        → IsOnce w.now s
        → IsOnce w.now (start_command p w cmd s).1
    unfolding start_command
    start_command-IsOnce s e h = elim (Bool-cases (any (marker_of cmd.id) s.files)) [
      | inl m ↦ rw m (keep_result-IsOnce w.now (interrupted p s.config) w.persist s (omega arith) h)
      | inr m ↦ rw m (go m w.reserve_marker)
    ]
      where
        fresh :
            any (marker_of cmd.id) s.files ≡ false
            → cmd.id ≡ id
            → count_where (is_run_of id) s.runs ≡ 0
        fresh m y =
            let free : any (keeps id t) s.files ≡ false =
              subst (λ i. any (keeps i t) s.files ≡ false) y (no_file cmd.id t s.files e m) in
            ground (arith, h.kept, (own y).0)

        go :
            any (marker_of cmd.id) s.files ≡ false
            → (c : Check) → IsOnce w.now (reserve_and_run p w cmd c s).1
        go m (err x) = h
        go m (ok u) = run_reserved-IsOnce s (fresh m) h

    found-IsOnce :
        (c : Check) (s : AgentState) → IsOnce w.now s → IsOnce w.now (look_up p w cmd c s).1
    unfolding look_up from_result deliver_again
    found-IsOnce (err x) s h = h
    found-IsOnce (ok u) s h = go (find_result cmd.id s.files) refl
      where
        again : (r : CommandResult) (c : Check) → IsOnce w.now (deliver_again p w cmd.id r c s).1
        again r (err x) = h
        again r (ok u) = deliver-IsOnce w.now w.answer w.spooled cmd.id r s h

        go :
            (o : Option CommandResult)
            → find_result cmd.id s.files ≡ o
            → IsOnce w.now (from_result p w cmd o s).1
        go (some r) e = again r w.parse_result
        go none e = start_command-IsOnce s e h

    with_directory-IsOnce :
        (c : Check) (s : AgentState) → IsOnce w.now s → IsOnce w.now (with_directory p w cmd c s).1
    unfolding with_directory
    with_directory-IsOnce (err x) s h = h
    with_directory-IsOnce (ok u) s h =
        found-IsOnce w.read_result (cleanup_command_state w.listed w.now s)
          (Quiet-IsOnce w.now s _ (cleanup-Quiet w.listed w.now s) h)

  pub process_command-IsOnce :
      (p : Platform) (w : Circumstances) (cmd : AgentCommand) (s : AgentState)
      → (cmd.id ≡ id → cmd.expires_at ≡ some t)
      → IsOnce w.now s
      → IsOnce w.now (process_command p w cmd s).1
  unfolding process_command accepted
  process_command-IsOnce p w cmd s same h =
      go (validate_signed_command p.ed25519 p.base64 s.config cmd w.now) refl
    where
      go :
          (c : Check)
          → validate_signed_command p.ed25519 p.base64 s.config cmd w.now ≡ c
          → IsOnce w.now (accepted p w cmd c s).1
      go (err x) e = h
      go (ok u) e =
          with_directory-IsOnce p w cmd
            (λ y.
              let window = accepted_window p.ed25519 p.base64 s.config cmd w.now t e (same y) in
              (window.0, omega (arith, window.1)))
            w.make_directory s h
