-- ===== src/Fallback/Steps.antt =====
-- Every step of the fallback machine keeps its invariant.
use ai_agent_starter_kit.Fallback.{
  FallbackState, init, select_model, execute_attempt, handle_success, handle_failure,
  finalize_failure, AgentOutcome, reply, guardrail_violation, approval_cancelled,
  client_disconnected, llm_error, unexpected, task_cancelled, Input, Machine, Ending, emit,
  on_select_model, with_breaker, breaker_release, finish_attempt, attempt_model, skip_model,
  on_execute_attempt, record_recovery_outcome, on_handle_success, on_finalize_failure,
}
use ai_agent_starter_kit.Fallback.Failure.{
  FallbackRuntimeConfig, give_up, choose_next, follow_resolution, on_handle_failure,
}
use ai_agent_starter_kit.Fallback.Loop.{step_machine}
use ai_agent_starter_kit.Fallback.Frames.{
  breaker_success-SameProgress, breaker_failure-SameProgress, on_execute_attempt-cases,
  on_handle_failure-cases,
}
use ai_agent_starter_kit.Fallback.Invariant.{
  IsWithin, KeepsError, CanTry, IsTried, IsConsistentIn, IsConsistent, GoesWell,
}
use ai_agent_starter_kit.Recovery.{RecoveryStrategyResolution}
use ai_agent_starter_kit.Common.{ℕ, ◌≡◌, true, Option, none, some, arith, is_some}

finish_attempt-GoesWell :
    (now : ℕ) (outcome : AgentOutcome) (m : Machine)
    → IsTried m
    → GoesWell (finish_attempt now outcome m)
unfolding finish_attempt
finish_attempt-GoesWell now (reply text) m h = ground (arith, breaker_success-SameProgress m, h)
finish_attempt-GoesWell now guardrail_violation m h =
    unfold breaker_release with_breaker in ground (arith, h)
finish_attempt-GoesWell now approval_cancelled m h =
    unfold breaker_release with_breaker in ground (arith, h)
finish_attempt-GoesWell now client_disconnected m h =
    unfold breaker_release with_breaker in ground (arith, h)
finish_attempt-GoesWell now (llm_error e) m h =
    ground (arith, breaker_failure-SameProgress now m, h)
finish_attempt-GoesWell now (unexpected text) m h =
    ground (arith, breaker_failure-SameProgress now m, h)
finish_attempt-GoesWell now task_cancelled m h = ground (arith, h)

attempt_model-GoesWell :
    (input : Input) (m : Machine) → IsWithin m → CanTry m → GoesWell (attempt_model input m)
unfolding attempt_model with_breaker emit
attempt_model-GoesWell input m w c =
    finish_attempt-GoesWell input.finished input.outcome _ (ground (arith, w, c))

on_execute_attempt-GoesWell :
    (input : Input) (m : Machine)
    → IsWithin m
    → KeepsError m
    → CanTry m
    → GoesWell (on_execute_attempt input m)
on_execute_attempt-GoesWell input m w k c =
    on_execute_attempt-cases GoesWell input m
      (λ asked s. attempt_model-GoesWell input asked (ground (arith, s, w)) (ground (arith, s, c)))
      (λ asked s. unfold skip_model emit in ground (arith, s, w, k, c))

on_select_model-IsConsistent :
    (m : Machine) → IsWithin m → KeepsError m → IsConsistent (on_select_model m)
unfolding on_select_model emit
on_select_model-IsConsistent m w k = ground (arith, w, k)

follow_resolution-IsConsistent :
    (cfg : FallbackRuntimeConfig) (r : RecoveryStrategyResolution) (m : Machine)
    → IsTried m
    → is_some m.attempt.last_error ≡ true
    → IsConsistent (follow_resolution cfg r m)
unfolding follow_resolution give_up choose_next emit
follow_resolution-IsConsistent cfg r m h e = ground (arith, h, e)

on_handle_failure-GoesWell :
    (cfg : FallbackRuntimeConfig) (m : Machine)
    → IsTried m
    → is_some m.current_exception ≡ true
    → GoesWell (on_handle_failure cfg m)
on_handle_failure-GoesWell cfg m h x =
    on_handle_failure-cases GoesWell cfg m x (λ e r m' n.
      follow_resolution-IsConsistent cfg r m' (ground (arith, n, h)) (ground (arith, n)))

on_handle_success-GoesWell : (m : Machine) → IsTried m → GoesWell (on_handle_success m)
unfolding on_handle_success record_recovery_outcome emit
on_handle_success-GoesWell m h = ground (arith, h)

-- A step of a consistent machine leads to a consistent one, or leaves the loop in a good way.
pub step_machine-GoesWell :
    (cfg : FallbackRuntimeConfig) (input : Input) (m : Machine)
    → IsConsistent m
    → GoesWell (step_machine cfg input m)
unfolding step_machine
step_machine-GoesWell cfg input m h = by_state m.state h
  where
    by_state :
        (s : FallbackState)
        → IsConsistentIn s m
        → GoesWell (elim s as (λ _. Machine × Option Ending) [
          | init ↦ (record m { state = select_model }, none)
          | select_model ↦ (on_select_model m, none)
          | execute_attempt ↦ on_execute_attempt input m
          | handle_success ↦ on_handle_success m
          | handle_failure ↦ on_handle_failure cfg m
          | finalize_failure ↦ (m, some (on_finalize_failure m))
        ])
    by_state init h = (h.0, h.1)
    by_state select_model h = on_select_model-IsConsistent m h.0 h.1
    by_state execute_attempt h = on_execute_attempt-GoesWell input m h.0 h.1 h.2
    by_state handle_success h = on_handle_success-GoesWell m h
    by_state handle_failure h = on_handle_failure-GoesWell cfg m h.0 h.1
    by_state finalize_failure h = unfold on_finalize_failure in ground (arith, h)
