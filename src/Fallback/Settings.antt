-- ===== src/Fallback/Settings.antt =====
-- The fallback machine never changes its models and its limit of attempts.
use ai_agent_starter_kit.Fallback.{
  FallbackState, init, select_model, execute_attempt, handle_success, handle_failure,
  finalize_failure, AgentOutcome, reply, guardrail_violation, approval_cancelled,
  client_disconnected, llm_error, unexpected, task_cancelled, Input, lifecycle, Machine, Ending,
  emit, on_select_model, with_breaker, breaker_release, finish_attempt, attempt_model, skip_model,
  on_execute_attempt, record_recovery_outcome, on_handle_success, on_finalize_failure,
}
use ai_agent_starter_kit.Fallback.Failure.{
  FallbackRuntimeConfig, give_up, choose_next, follow_resolution, on_handle_failure,
}
use ai_agent_starter_kit.Fallback.Loop.{step_machine}
use ai_agent_starter_kit.Fallback.Frames.{
  SameProgress, breaker_success-SameProgress, breaker_failure-SameProgress,
  on_execute_attempt-cases, on_handle_failure-cases,
}
use ai_agent_starter_kit.CircuitBreaker.Step.{run}
use ai_agent_starter_kit.Recovery.{RecoveryStrategyResolution}
use ai_agent_starter_kit.Common.{
  ℕ, suc, ◌≡◌, refl, inl, inr, Option, none, some, arith, ltb, if◌then◌else◌, Bool-cases, is_some,
  codes,
}

abbrev pub SameSettings : Machine → Machine → Type 0
SameSettings m m' = (m'.models ≡ m.models) × (m'.attempt.max_attempts ≡ m.attempt.max_attempts)

abbrev LeavesSettings : Machine → Machine × Option Ending → Type 0
LeavesSettings m s = SameSettings m s.0

finish_attempt-LeavesSettings :
    (now : ℕ) (outcome : AgentOutcome) (m : Machine)
    → LeavesSettings m (finish_attempt now outcome m)
unfolding finish_attempt breaker_release with_breaker
finish_attempt-LeavesSettings now (reply text) m = ground (arith, breaker_success-SameProgress m)
finish_attempt-LeavesSettings now guardrail_violation m = (refl, refl)
finish_attempt-LeavesSettings now approval_cancelled m = (refl, refl)
finish_attempt-LeavesSettings now client_disconnected m = (refl, refl)
finish_attempt-LeavesSettings now (llm_error e) m =
    ground (arith, breaker_failure-SameProgress now m)
finish_attempt-LeavesSettings now (unexpected text) m =
    ground (arith, breaker_failure-SameProgress now m)
finish_attempt-LeavesSettings now task_cancelled m = (refl, refl)

attempt_model-LeavesSettings :
    (input : Input) (m m' : Machine) → SameProgress m m' → LeavesSettings m (attempt_model input m')
unfolding attempt_model with_breaker emit
attempt_model-LeavesSettings input m m' s =
    let announced : Machine =
      if ltb 0 m'.current_model_index
      then emit (lifecycle (codes "model_fallback_retry"))
          (record m' { attempt = record (m'.attempt) { attempts = suc m'.attempt.attempts } })
      else record m' { attempt = record (m'.attempt) { attempts = suc m'.attempt.attempts } } in
    ground (
      arith,
      s,
      finish_attempt-LeavesSettings input.finished input.outcome
          (with_breaker announced (λ r. run r input.meanwhile)),
    )

follow_resolution-SameSettings :
    (cfg : FallbackRuntimeConfig) (r : RecoveryStrategyResolution) (m : Machine)
    → SameSettings m (follow_resolution cfg r m)
unfolding follow_resolution give_up choose_next emit
follow_resolution-SameSettings cfg r m = ground arith

on_handle_failure-LeavesSettings :
    (cfg : FallbackRuntimeConfig) (m : Machine) → LeavesSettings m (on_handle_failure cfg m)
on_handle_failure-LeavesSettings cfg m = elim (Bool-cases (is_some m.current_exception)) [
  | inl x ↦
      on_handle_failure-cases (LeavesSettings m) cfg m x
        (λ e r m' n. ground (arith, n, follow_resolution-SameSettings cfg r m'))
  | inr x ↦ unfold on_handle_failure in ground (arith, x)
]

pub step_machine-SameSettings :
    (cfg : FallbackRuntimeConfig) (input : Input) (m : Machine)
    → SameSettings m (step_machine cfg input m).0
unfolding step_machine
step_machine-SameSettings cfg input m = by_state m.state
  where
    by_state :
        (s : FallbackState)
        → LeavesSettings m (elim s as (λ _. Machine × Option Ending) [
          | init ↦ (record m { state = select_model }, none)
          | select_model ↦ (on_select_model m, none)
          | execute_attempt ↦ on_execute_attempt input m
          | handle_success ↦ on_handle_success m
          | handle_failure ↦ on_handle_failure cfg m
          | finalize_failure ↦ (m, some (on_finalize_failure m))
        ])
    by_state init = (refl, refl)
    by_state select_model = unfold on_select_model emit in ground arith
    by_state execute_attempt =
        on_execute_attempt-cases (LeavesSettings m) input m
          (λ asked s. attempt_model-LeavesSettings input m asked s)
          (λ asked s. unfold skip_model emit in ground (arith, s))
    by_state handle_success = unfold on_handle_success record_recovery_outcome emit in ground arith
    by_state handle_failure = on_handle_failure-LeavesSettings cfg m
    by_state finalize_failure = (refl, refl)
