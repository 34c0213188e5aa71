-- ===== src/Fallback.antt =====
-- backend/app/orchestrator/fallback_state_machine.py: one request that is tried on a list of models, with
-- the breaker of each model, until a model answers or nothing is left to try. This module has the
-- machine and the handlers of its states except the one of a failure, which is in the child `Failure`;
-- the loop is in the child `Loop`. What the agent does with an attempt, and what other requests do
-- to the shared breakers in the meantime, is an input of the step. An event is its stage, with the
-- outcome, model and reason of a summary and the transition of a breaker.
pub mod Failure
pub mod Loop
pub mod Frames
pub mod Invariant
pub mod Steps
pub mod Settings
pub mod Termination
pub mod Probe
pub mod Cancellation
pub mod Feedback
mod Examples
use ai_agent_starter_kit.CircuitBreaker.{
  CircuitStateTransition, Registry, allow_request, record_success, record_failure, release_probe,
}
use ai_agent_starter_kit.CircuitBreaker.Step.{Call, run}
use ai_agent_starter_kit.Common.{
  ℕ, suc, ◌-◌, min, max, Bool, true, false, Option, none, some, List, [], ◌∷◌, ltb, leb,
  if◌then◌else◌, or_else, length, get_elem?, Text, codes,
}
use ai_agent_starter_kit.Common.Dict.{Dict, fmap}

-- `FallbackState`
pub data FallbackState : Type 0 where
  init select_model execute_attempt handle_success handle_failure finalize_failure : FallbackState

-- An `LlmClientError`: `reason` is the attribute of that name, if the error has one.
pub record LlmError : Type 0 where
  pub reason : Option Text
  pub message : Text

-- How `agent.run` ends. `task_cancelled` is asyncio's CancelledError, which is not an `Exception`.
pub data AgentOutcome : Type 0 where
  reply : Text → AgentOutcome
  guardrail_violation approval_cancelled client_disconnected : AgentOutcome
  llm_error : LlmError → AgentOutcome
  unexpected : Text → AgentOutcome
  task_cancelled : AgentOutcome

-- What happens around one attempt: the calls of other requests on the breakers before it and during it, and
-- the clock when it starts and when it ends.
pub record Input : Type 0 where
  pub before : List Call
  pub started : ℕ
  pub meanwhile : List Call
  pub outcome : AgentOutcome
  pub finished : ℕ

pub data Event : Type 0 where
  lifecycle : Text → Event
  recovery_summary : Bool → Text → Text → Event
  circuit_breaker_state_changed : CircuitStateTransition → Event

-- `FallbackAttemptState` without the twelve counters of the priority metadata.
pub record FallbackAttemptState : Type 0 where
  pub attempts : ℕ
  pub max_attempts : ℕ
  pub current_user_message : Text
  pub last_error : Option LlmError
  pub last_reason : Text
  pub reason_streak : ℕ
  pub previous_reason : Text
  pub pending_recovery_outcome : Option (Text × Text × Text)
  pub overflow_fallback_retry_attempts : ℕ
  pub compaction_failure_recovery_attempts : ℕ
  pub truncation_recovery_attempts : ℕ
  pub prompt_compaction_attempts : ℕ
  pub payload_truncation_attempts : ℕ
  pub recovery_failures_total : ℕ
  pub recovery_reason_counts : Dict ℕ
  pub recovery_branch_counts : Dict ℕ
  pub recovery_strategy_counts : Dict ℕ
  pub recovery_strategy_applied_total : ℕ
  pub last_failed_strategy_by_reason : Dict Text
  pub recovery_overflow_retry_applied_total : ℕ
  pub recovery_compaction_recovery_applied_total : ℕ
  pub recovery_truncation_recovery_applied_total : ℕ
  pub recovery_prompt_compaction_applied_total : ℕ
  pub recovery_payload_truncation_applied_total : ℕ

-- The attributes of `FallbackStateMachine` that change, with the models, the events that it has sent
-- (the latest first) and the outcomes that it has recorded.
pub record Machine : Type 0 where
  pub state : FallbackState
  pub models : List Text
  pub current_model_index : ℕ
  pub current_candidate_model : Text
  pub current_result : Text
  pub current_exception : Option LlmError
  pub transform_retry_pending : Bool
  pub attempt : FallbackAttemptState
  pub circuit_breaker : Option Registry
  pub events : List Event
  pub recorded : List ((Text × Text × Text) × Bool)

-- How the loop is left.
pub data Ending : Type 0 where
  returned : Text → Ending
  raised_llm_error : LlmError → Ending
  raised_guardrail raised_approval_cancelled raised_disconnected raised_cancelled : Ending
  failed_assertion : Ending

abbrev pub initial_attempt : Text → ℕ → FallbackAttemptState
initial_attempt user_message max_attempts = record {
  attempts = 0;
  max_attempts = max 1 max_attempts;
  current_user_message = user_message;
  last_error = none;
  last_reason = codes "unknown";
  reason_streak = 0;
  previous_reason = [];
  pending_recovery_outcome = none;
  overflow_fallback_retry_attempts = 0;
  compaction_failure_recovery_attempts = 0;
  truncation_recovery_attempts = 0;
  prompt_compaction_attempts = 0;
  payload_truncation_attempts = 0;
  recovery_failures_total = 0;
  recovery_reason_counts = [];
  recovery_branch_counts = [];
  recovery_strategy_counts = [];
  recovery_strategy_applied_total = 0;
  last_failed_strategy_by_reason = [];
  recovery_overflow_retry_applied_total = 0;
  recovery_compaction_recovery_applied_total = 0;
  recovery_truncation_recovery_applied_total = 0;
  recovery_prompt_compaction_applied_total = 0;
  recovery_payload_truncation_applied_total = 0;
}

-- `FallbackStateMachine.__init__`, for the route with the models `primary ∷ fallbacks`.
unfoldable pub new_machine : Text → List Text → Text → ℕ → Option Registry → Machine
new_machine primary fallbacks user_message max_attempts breaker = record {
  state = init;
  models = primary ∷ fallbacks;
  current_model_index = 0;
  current_candidate_model = primary;
  current_result = [];
  current_exception = none;
  transform_retry_pending = false;
  attempt = initial_attempt user_message max_attempts;
  circuit_breaker = breaker;
  events = [];
  recorded = [];
}

unfoldable pub emit : Event → Machine → Machine
emit e m = record m { events = e ∷ m.events }

-- `if transition is not None: await self._emit_cb_state_change(transition)`
unfoldable pub emit_cb_state_change : Option CircuitStateTransition → Machine → Machine
unfolding emit
emit_cb_state_change none m = m
emit_cb_state_change (some t) m = emit (circuit_breaker_state_changed t) m

-- The state SELECT_MODEL.
unfoldable pub on_select_model : Machine → Machine
unfolding emit
on_select_model m =
    let a = m.attempt in
    let final_model =
      or_else [] (get_elem? m.models (min m.current_model_index (length m.models - 1))) in
    if leb a.max_attempts a.attempts
    then record (emit (lifecycle (codes "model_fallback_retry_limit_reached"))
        (emit (recovery_summary false final_model a.last_reason) m)) { state = finalize_failure }
    else if leb (length m.models) m.current_model_index
    then record m { state = finalize_failure }
    else record m {
      current_candidate_model = or_else [] (get_elem? m.models m.current_model_index);
      state = execute_attempt;
    }

unfoldable pub with_breaker : Machine → (Registry → Registry) → Machine
with_breaker m f = record m { circuit_breaker = fmap f m.circuit_breaker }

-- `record_success` of the breaker, and the event of its transition.
unfoldable pub breaker_success : Machine → Machine
unfolding with_breaker record_success emit_cb_state_change
breaker_success m = elim m.circuit_breaker [
  | none ↦ m
  | some r ↦
      let (r', t) = record_success r m.current_candidate_model in
      emit_cb_state_change t (record m { circuit_breaker = some r' })
]

unfoldable pub breaker_failure : ℕ → Machine → Machine
unfolding record_failure emit_cb_state_change
breaker_failure now m = elim m.circuit_breaker [
  | none ↦ m
  | some r ↦
      let (r', t) = record_failure r now m.current_candidate_model in
      emit_cb_state_change t (record m { circuit_breaker = some r' })
]

unfoldable pub breaker_release : Machine → Machine
unfolding with_breaker release_probe
breaker_release m = with_breaker m (λ r. release_probe r m.current_candidate_model)

-- The rest of the `try` behind `agent.run`, and its `except` clauses.
unfoldable pub finish_attempt : ℕ → AgentOutcome → Machine → Machine × Option Ending
unfolding breaker_success breaker_failure breaker_release
finish_attempt now (reply text) m =
    (record (breaker_success m) { current_result = text; state = handle_success }, none)
finish_attempt now guardrail_violation m = (breaker_release m, some raised_guardrail)
finish_attempt now approval_cancelled m = (breaker_release m, some raised_approval_cancelled)
finish_attempt now client_disconnected m = (breaker_release m, some raised_disconnected)
finish_attempt now (llm_error e) m =
    (record (breaker_failure now m) { current_exception = some e; state = handle_failure }, none)
finish_attempt now (unexpected text) m =
    let wrapped : LlmError = record { reason = some (codes "unexpected_error"); message = text } in
    (
      record (breaker_failure now m) { current_exception = some wrapped; state = handle_failure },
      none,
    )
finish_attempt now task_cancelled m = (m, some raised_cancelled)

-- The attempt on a model that the breaker lets through.
unfoldable pub attempt_model : Input → Machine → Machine × Option Ending
unfolding emit with_breaker run finish_attempt
attempt_model input m =
    let counted = record m { attempt = record (m.attempt) { attempts = suc m.attempt.attempts } } in
    let announced =
      if ltb 0 m.current_model_index
      then emit (lifecycle (codes "model_fallback_retry")) counted
      else counted in
    finish_attempt input.finished input.outcome
      (with_breaker announced (λ r. run r input.meanwhile))

-- The next model without an attempt, when the breaker rejects this one.
unfoldable pub skip_model : Machine → Machine
unfolding emit
skip_model m = record (emit (lifecycle (codes "circuit_breaker_rejected")) m) {
  current_model_index = suc m.current_model_index;
  state = select_model;
}

-- The state EXECUTE_ATTEMPT.
unfoldable pub on_execute_attempt : Input → Machine → Machine × Option Ending
unfolding emit_cb_state_change allow_request run attempt_model skip_model
on_execute_attempt input m = elim m.circuit_breaker [
  | none ↦ attempt_model input m
  | some r ↦
      let (r', allowed, t) =
        allow_request (run r input.before) input.started m.current_candidate_model in
      let asked = emit_cb_state_change t (record m { circuit_breaker = some r' }) in
      if allowed then attempt_model input asked else (skip_model asked, none)
]

-- A recovery that waits for the outcome of its retry gets it.
unfoldable pub record_recovery_outcome : Bool → Machine → Machine
record_recovery_outcome succeeded m = elim m.attempt.pending_recovery_outcome [
  | none ↦ m
  | some pending ↦ record m {
    attempt = record (m.attempt) { pending_recovery_outcome = none };
    recorded = (pending, succeeded) ∷ m.recorded;
  }
]

-- The state HANDLE_SUCCESS.
unfoldable pub on_handle_success : Machine → Machine × Option Ending
unfolding emit record_recovery_outcome
on_handle_success m = (
  emit (recovery_summary true m.current_candidate_model m.attempt.last_reason)
      (record_recovery_outcome true m),
  some (returned m.current_result),
)

abbrev pub routing_failed : LlmError
routing_failed = record { reason = none; message = codes "Model routing failed before execution." }

-- The state FINALIZE_FAILURE.
unfoldable pub on_finalize_failure : Machine → Ending
on_finalize_failure m = raised_llm_error (or_else routing_failed m.attempt.last_error)
