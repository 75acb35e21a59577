-- ===== src/Agent/Process/History.antt =====
-- Histories of the agent: any sequence of deliveries, with failures and stops, and of flushes of the
-- spool, agent/go/cmd/rmm-agent/main.go.
use openwrt_rmm.Base.{ℕ, ◌≤◌, String, ◌≡◌, Bool, Option, some, List, [], ◌∷◌, count_where, arith}
use openwrt_rmm.Agent.{AgentCommand}
use openwrt_rmm.Agent.Platform.{Platform, Circumstances}
use openwrt_rmm.Agent.State.{AgentState, SpoolFile, flush_spooled_results}
use openwrt_rmm.Agent.State.Files.{flush_spooled_results-same}
use openwrt_rmm.Agent.Process.{process_command}
use openwrt_rmm.Agent.Process.Once.{IsOnce, is_run_of, process_command-IsOnce}

-- What the agent does next. `answer` gives, for each spooled file, whether it could be read and how
-- the server answered.
pub data AgentEvent : Type 0 where
  delivery : Circumstances → AgentCommand → AgentEvent
  flush : (now : ℕ) (answer : SpoolFile → Bool × Option ℕ) → AgentEvent

abbrev pub time_of : AgentEvent → ℕ
time_of (delivery w cmd) = w.now
time_of (flush now answer) = now

-- The clock does not go back.
abbrev pub InOrder : ℕ → List AgentEvent → Type 0
InOrder now [] = Unit
InOrder now (e ∷ es) = (now ≤ time_of e) × InOrder (time_of e) es

-- Every delivery under the identifier carries the expiry `t`.
abbrev pub Expires : String → ℕ → List AgentEvent → Type 0
Expires id t [] = Unit
Expires id t (delivery w cmd ∷ es) = (cmd.id ≡ id → cmd.expires_at ≡ some t) × Expires id t es
Expires id t (flush now answer ∷ es) = Expires id t es

module _ (p : Platform) where
  unfoldable pub agent_step : AgentEvent → AgentState → AgentState
  agent_step (delivery w cmd) s = (process_command p w cmd s).1
  agent_step (flush now answer) s = flush_spooled_results answer s

  unfoldable pub run_agent : List AgentEvent → AgentState → AgentState
  unfolding agent_step
  run_agent [] s = s
  run_agent (e ∷ es) s = run_agent es (agent_step e s)

  module _ (id : String) (t : ℕ) where
    later : (now then' : ℕ) (s : AgentState) → now ≤ then' → IsOnce id t now s → IsOnce id t then' s
    later now then' s le h = record { few = h.few; kept = λ k e. h.kept k (omega arith) }

    agent_step-IsOnce :
        (e : AgentEvent) (s : AgentState)
        → Expires id t (e ∷ [])
        → IsOnce id t (time_of e) s
        → IsOnce id t (time_of e) (agent_step e s)
    unfolding agent_step
    agent_step-IsOnce (delivery w cmd) s same h = process_command-IsOnce id t p w cmd s same.0 h
    agent_step-IsOnce (flush now answer) s same h =
        let (files, runs) = flush_spooled_results-same answer s in
        record { few = rw runs h.few; kept = λ k le. rw files (h.kept (rw runs at k) le) }

    run_agent-IsOnce :
        (now : ℕ) (es : List AgentEvent) (s : AgentState)
        → InOrder now es
        → Expires id t es
        → IsOnce id t now s
        → count_where (is_run_of id) (run_agent es s).runs ≤ 1
    unfolding run_agent
    run_agent-IsOnce now [] s order same h = h.few
    run_agent-IsOnce now (e ∷ es) s order same h =
        run_agent-IsOnce (time_of e) es (agent_step e s) order.1 (same_rest e same)
          (agent_step-IsOnce e s (same_first e same) (later now (time_of e) s order.0 h))
      where
        same_first : (e : AgentEvent) → Expires id t (e ∷ es) → Expires id t (e ∷ [])
        same_first (delivery w cmd) h = (h.0, tt)
        same_first (flush now answer) h = tt

        same_rest : (e : AgentEvent) → Expires id t (e ∷ es) → Expires id t es
        same_rest (delivery w cmd) h = h.1
        same_rest (flush now answer) h = h

    -- Whatever is delivered, in any order and as often as it is, with failures of the file system and
    -- stops of the agent at any moment of a run: while the clock does not go back and every delivery
    -- under an identifier carries the same expiry, a command that had not run runs once at most.
    pub run_agent-once :
        (now : ℕ) (es : List AgentEvent) (s : AgentState)
        → InOrder now es
        → Expires id t es
        → count_where (is_run_of id) s.runs ≡ 0
        → count_where (is_run_of id) (run_agent es s).runs ≤ 1
    run_agent-once now es s order same fresh =
        run_agent-IsOnce now es s order same
          (record { few = omega (arith, fresh); kept = λ k le. ground (arith, fresh) })
