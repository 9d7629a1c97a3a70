-- ===== src/Agents/StateMachine/Tests.antt =====
-- The agent state machine at concrete transitions.
use agent_gateway_control.Prelude.{◌≡◌, refl, [], ◌∷◌, inl, true, err, any}
use agent_gateway_control.Agents.StateMachine.{
  disabled, idle, failed, disable, schedule, start, complete_idle, pause, require_transition,
}
use agent_gateway_control.Agents.StateMachine.Traces.{
  run, ends_run, IsHeld, starts_run-ends_run, failure_is_sticky,
}

starts_run-ends_run_example : any ends_run (start ∷ complete_idle ∷ []) ≡ true
unfolding run require_transition
starts_run-ends_run_example =
    starts_run-ends_run "developer" idle schedule schedule (start ∷ complete_idle ∷ []) refl refl
      refl

failure_is_sticky_example : IsHeld disabled
unfolding run require_transition
failure_is_sticky_example = failure_is_sticky "developer" failed (disable ∷ []) (inl refl) refl refl

pause_refused :
    require_transition "developer" failed pause
    ≡ err (record { agent_id = "developer"; state = failed; transition = pause })
unfolding require_transition
pause_refused = refl
