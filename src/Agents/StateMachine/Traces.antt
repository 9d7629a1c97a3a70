-- ===== src/Agents/StateMachine/Traces.antt =====
-- What holds of an agent over any sequence of transitions, refused ones thrown.
use agent_gateway_control.Prelude.{
  String, ◌≡◌, List, [], ◌∷◌, ◌++◌, ◌⊎◌, inl, inr, Result, ok, ◌>>=◌, some, Bool, true, false, any,
  arith, Option-cases,
}
use agent_gateway_control.Agents.StateMachine.{
  AgentState, disabled, queued, running, failed, AgentTransition, enable, schedule, complete_idle,
  complete_waiting, fail, pause, wait_resolved, redrive, InvalidTransitionError, next_agent_state,
  require_transition,
}

-- One `requireTransition` after another; the first refusal ends the sequence.
unfoldable pub run :
    String → AgentState → List AgentTransition → Result InvalidTransitionError AgentState
run agent_id s [] = ok s
run agent_id s (t ∷ ts) = do next ← require_transition agent_id s t; run agent_id next ts

run-cons :
    (a : String) (s : AgentState) (t : AgentTransition) (ts : List AgentTransition)
    {s' : AgentState}
    → run a s (t ∷ ts) ≡ ok s'
    → (next : AgentState) × (next_agent_state s t ≡ some next) × (run a next ts ≡ ok s')
unfolding run require_transition
run-cons a s t ts h = elim (Option-cases (next_agent_state s t)) [
  | inl e ↦ absurd (ground arith)
  | inr (next, e) ↦ (next, e, ground arith)
]

-- Transitions that give the agent a run.
abbrev pub starts_run : AgentTransition → Bool
starts_run schedule = true
starts_run wait_resolved = true
starts_run redrive = true
starts_run _ = false

-- Transitions that take the run away again.
abbrev pub ends_run : AgentTransition → Bool
ends_run complete_idle = true
ends_run complete_waiting = true
ends_run fail = true
ends_run pause = true
ends_run _ = false

abbrev pub has_run : AgentState → Bool
has_run queued = true
has_run running = true
has_run _ = false

started-has_run :
    (s : AgentState) (t : AgentTransition) {next : AgentState}
    → starts_run t ≡ true
    → next_agent_state s t ≡ some next
    → (has_run s ≡ false) × (has_run next ≡ true)
unfolding next_agent_state
started-has_run s t h e = ground arith

keeps-has_run :
    (s : AgentState) (t : AgentTransition) {next : AgentState}
    → has_run s ≡ true
    → ends_run t ≡ false
    → next_agent_state s t ≡ some next
    → has_run next ≡ true
unfolding next_agent_state
keeps-has_run s t h k e = ground arith

run-has_run :
    (a : String) (s : AgentState) (mid : List AgentTransition) (u : AgentTransition)
    {s' : AgentState}
    → has_run s ≡ true
    → starts_run u ≡ true
    → run a s (mid ++ u ∷ []) ≡ ok s'
    → any ends_run mid ≡ true
run-has_run a s [] u h k r =
    let (next, e, _) = run-cons a s u [] r in ground (arith, started-has_run s u k e)
run-has_run a s (t ∷ mid) u h k r =
    let (next, e, r') = run-cons a s t (mid ++ u ∷ []) r in
    ground
      (arith, λ (p : ends_run t ≡ false). run-has_run a next mid u (keeps-has_run s t h p e) k r')

-- In any sequence of transitions that the table allows, between two that start a run there is one that
-- ends a run.
pub starts_run-ends_run :
    (a : String) (s : AgentState) (t u : AgentTransition) (mid : List AgentTransition)
    {s' : AgentState}
    → starts_run t ≡ true
    → starts_run u ≡ true
    → run a s (t ∷ mid ++ u ∷ []) ≡ ok s'
    → any ends_run mid ≡ true
starts_run-ends_run a s t u mid ht hu r =
    let (next, e, r') = run-cons a s t (mid ++ u ∷ []) r in
    run-has_run a next mid u (started-has_run s t ht e).1 hu r'

-- Transitions by which an operator clears a failure.
abbrev pub clears_failure : AgentTransition → Bool
clears_failure redrive = true
clears_failure enable = true
clears_failure _ = false

abbrev pub IsHeld : AgentState → Type 0
IsHeld s = (s ≡ failed) ⊎ (s ≡ disabled)

IsHeld-step :
    (s : AgentState) (t : AgentTransition) {next : AgentState}
    → IsHeld s
    → clears_failure t ≡ false
    → next_agent_state s t ≡ some next
    → IsHeld next
unfolding next_agent_state
IsHeld-step s t h k e = ground arith

-- A failed agent stays failed, or is disabled, through every allowed sequence that holds neither a
-- redrive nor an enable: pausing, resuming and waits cannot clear the failure.
pub failure_is_sticky :
    (a : String) (s : AgentState) (ts : List AgentTransition) {s' : AgentState}
    → IsHeld s
    → any clears_failure ts ≡ false
    → run a s ts ≡ ok s'
    → IsHeld s'
unfolding run
failure_is_sticky a s [] h k r = ground arith
failure_is_sticky a s (t ∷ ts) h k r =
    let (next, e, r') = run-cons a s t ts r in
    failure_is_sticky a next ts (IsHeld-step s t h (ground arith) e) (ground arith) r'
