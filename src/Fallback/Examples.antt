-- ===== src/Fallback/Examples.antt =====
-- The fallback machine on two models.
use ai_agent_starter_kit.Fallback.{
  execute_attempt, LlmError, AgentOutcome, reply, guardrail_violation, llm_error, task_cancelled,
  Input, FallbackAttemptState, Machine, Ending, returned, raised_guardrail, raised_cancelled,
  initial_attempt, new_machine, on_execute_attempt,
}
use ai_agent_starter_kit.Fallback.Failure.{
  FallbackRuntimeConfig, priority_context, resolve_recovery, take_resolution,
}
use ai_agent_starter_kit.Fallback.Loop.{run_machine}
use ai_agent_starter_kit.Fallback.Probe.{HasBreaker, probe_in_flight, probe_given_back}
use ai_agent_starter_kit.Fallback.Cancellation.{registry_of, cancelled_probe_blocks}
use ai_agent_starter_kit.Fallback.Feedback.{fallback_retry, feedback_misses_retry}
use ai_agent_starter_kit.CircuitBreaker.{
  half_open, ModelCircuit, new_circuit, Registry, allow_request,
}
use ai_agent_starter_kit.CircuitBreaker.Step.{allow, step, run}
use ai_agent_starter_kit.Recovery.{overflow_retry}
use ai_agent_starter_kit.Failover.Priority.{
  RecoveryMetric, PrioritySettings, apply_strategy_feedback, base_steps,
  resolve_recovery_priority_steps,
}
use ai_agent_starter_kit.Failover.Order.{SameSteps}
use ai_agent_starter_kit.Common.{
  ℕ, ◌≡◌, refl, ◌≢◌, inl, inr, true, false, Option, none, some, List, [], ◌∷◌, arith, leb,
  if◌then◌else◌, Text, codes,
}
use ai_agent_starter_kit.Common.Dict.{get, contains}

abbrev primary_model : Text
primary_model = codes "llama"

abbrev backup_model : Text
backup_model = codes "qwen"

abbrev no_samples : Text → Text → Text → RecoveryMetric
no_samples model reason step = record { weighted_success = 0; weighted_failure = 0; samples = 0 }

abbrev step_settings : PrioritySettings
step_settings = record {
  context_overflow_priority_api = [];
  context_overflow_priority_local = [];
  truncation_priority_api = [];
  truncation_priority_local = [];
  flip_enabled = false;
  flip_threshold = 2;
  signal_priority_enabled = false;
  low_health_threshold = 50;
  high_latency_ms = 2000;
  high_cost_threshold = 70;
  strategy_feedback_enabled = true;
  persistent_priority_enabled = false;
  persistent_priority_min_samples = 3;
  read_recovery_metric = no_samples;
}

abbrev runtime_config : FallbackRuntimeConfig
runtime_config = record {
  runtime = codes "api";
  overflow_fallback_retry_enabled = true;
  overflow_fallback_retry_max_attempts = 1;
  compaction_failure_recovery_enabled = true;
  compaction_failure_recovery_max_attempts = 1;
  truncation_recovery_enabled = true;
  truncation_recovery_max_attempts = 1;
  prompt_compaction_enabled = true;
  prompt_compaction_max_attempts = 1;
  prompt_compaction_ratio = 50;
  prompt_compaction_min_chars = 64;
  payload_truncation_enabled = true;
  payload_truncation_max_attempts = 1;
  payload_truncation_target_chars = 64;
  payload_truncation_min_chars = 32;
  priority = step_settings;
  recovery_backoff_enabled = true;
  health_score = 90;
  expected_latency_ms = 100;
  cost_score = 10;
}

abbrev registry : Registry
registry = record {
  config = record {
    failure_threshold = 5;
    failure_window_seconds = 60;
    recovery_timeout_seconds = 120;
    success_threshold = 2;
  };
  circuits = [];
}

-- An attempt on the agent with no other request.
abbrev alone : AgentOutcome → Input
alone outcome = record {
  before = [];
  started = 10;
  meanwhile = [];
  outcome = outcome;
  finished = 12;
}

abbrev overflow_error : LlmError
overflow_error = record { reason = none; message = codes "maximum context length exceeded" }

-- The first attempt overflows, every later one answers.
abbrev overflow_once : ℕ → Input
overflow_once n = if leb n 2 then alone (llm_error overflow_error) else alone (reply (codes "hi"))

abbrev request : Machine
request = new_machine primary_model (backup_model ∷ []) (codes "hello") 3 (some registry)

-- How a run ends: with the ending, the attempts and the model.
abbrev ending_of : Option (Machine × Ending) → Option (Ending × ℕ × Text)
ending_of none = none
ending_of (some (m, e)) = some (e, m.attempt.attempts, m.current_candidate_model)

overflow_falls_back :
    ending_of (run_machine runtime_config 20 overflow_once request)
    ≡ some (returned (codes "hi"), 2, backup_model)
unfolding run_machine new_machine resolve_recovery_priority_steps
overflow_falls_back = refl

guardrail_is_raised :
    ending_of (run_machine runtime_config 20 (λ _. alone guardrail_violation) request)
    ≡ some (raised_guardrail, 1, primary_model)
unfolding run_machine new_machine
guardrail_is_raised = refl

-- The breaker of the model waits for its probe.
abbrev waiting_circuit : ModelCircuit
waiting_circuit = record new_circuit { state = half_open; half_open_successes = 1 }

abbrev probing_circuit : ModelCircuit
probing_circuit = record waiting_circuit { half_open_probe_in_flight = true }

abbrev waiting_registry : Registry
waiting_registry = record registry { circuits = (primary_model, waiting_circuit) ∷ [] }

abbrev executing : Machine
executing = record {
  state = execute_attempt;
  models = primary_model ∷ [];
  current_model_index = 0;
  current_candidate_model = primary_model;
  current_result = [];
  current_exception = none;
  transform_retry_pending = false;
  attempt = initial_attempt (codes "hello") 1;
  circuit_breaker = some waiting_registry;
  events = [];
  recorded = [];
}

executing-HasBreaker : HasBreaker executing waiting_registry
executing-HasBreaker = (refl, ground arith, ground arith)

made_attempt : (on_execute_attempt (alone guardrail_violation) executing).0.attempt.attempts ≢ 0
unfolding on_execute_attempt
made_attempt e = ground (arith, e)

probe_given_back_example :
    probe_in_flight (on_execute_attempt (alone guardrail_violation) executing).0 ≡ false
probe_given_back_example =
    probe_given_back (alone guardrail_violation) executing waiting_registry executing-HasBreaker
      (λ e. ground (arith, e)) made_attempt

abbrev cancelled : Input
cancelled = alone task_cancelled

probe_allowed : (allow_request (run waiting_registry []) 10 primary_model).1 ≡ true
unfolding run allow_request
probe_allowed = refl

probe_taken :
    get (allow_request (run waiting_registry []) 10 primary_model).0.circuits primary_model
    ≡ some probing_circuit
unfolding run allow_request get
probe_taken = refl

cancelled_probe_blocks_example :
    let (m', ending) = on_execute_attempt cancelled executing in
    (ending ≡ some raised_cancelled)
    × ((allow_request
          (run (registry_of m' waiting_registry) (allow 500 primary_model ∷ []))
          900
          primary_model).1
        ≡ false)
unfolding contains
cancelled_probe_blocks_example =
    cancelled_probe_blocks cancelled executing waiting_registry probing_circuit
      (allow 500 primary_model ∷ []) 900 refl (refl, tt) refl probe_allowed probe_taken refl refl tt
      (inr (500, refl), tt)

-- The request after its first overflow has been noted.
abbrev noted_attempt : FallbackAttemptState
noted_attempt = record (initial_attempt (codes "hello") 3) {
  attempts = 1;
  last_error = some overflow_error;
  last_reason = codes "context_overflow";
  reason_streak = 1;
  previous_reason = codes "context_overflow";
}

abbrev overflowed : Machine
overflowed = record executing {
  models = primary_model ∷ backup_model ∷ [];
  attempt = noted_attempt;
}

retry_chosen : (resolve_recovery runtime_config overflowed).applied ≡ overflow_retry
unfolding resolve_recovery resolve_recovery_priority_steps
retry_chosen = refl

feedback_misses_retry_example :
    let r = resolve_recovery runtime_config overflowed in
    let m' = record overflowed { attempt = take_resolution primary_model r noted_attempt } in
    let ctx = priority_context runtime_config m' in
    (get m'.attempt.last_failed_strategy_by_reason (codes "context_overflow") ≡ some fallback_retry)
    × ((steps : List Text)
        → SameSteps steps (base_steps step_settings ctx)
        → apply_strategy_feedback step_settings ctx steps ≡ (steps, false))
feedback_misses_retry_example = feedback_misses_retry runtime_config overflowed (inl retry_chosen)
