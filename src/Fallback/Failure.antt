-- ===== src/Fallback/Failure.antt =====
-- The state HANDLE_FAILURE of the fallback machine: the reason of the failure, the recovery that the
-- resolver chooses, and what is tried next. The delay before a retry is left out.
use ai_agent_starter_kit.Fallback.{
  select_model, finalize_failure, LlmError, lifecycle, recovery_summary, FallbackAttemptState,
  Machine, Ending, failed_assertion, emit, record_recovery_outcome,
}
use ai_agent_starter_kit.Common.{
  ℕ, suc, ◌-◌, Bool, true, false, not, ◌&&◌, Option, none, some, [], ◌∷◌, ltb, leb, ◌==◌,
  if◌then◌else◌, or_else, length, Text, codes, text_eq,
}
use ai_agent_starter_kit.Common.Dict.{Dict, get, put}
use ai_agent_starter_kit.Recovery.{
  RecoveryContext, RecoveryStrategyHooks, Applied, nothing, overflow_retry, compaction_recovery,
  truncation_recovery, prompt_compaction, payload_truncation, RecoveryStrategyResolution, resolve,
}
use ai_agent_starter_kit.Failover.{
  classify_failover_reason, is_retryable_failover_reason, resolve_recovery_branch,
  compact_user_message, truncate_payload_for_retry,
}
use ai_agent_starter_kit.Failover.Priority.{
  PrioritySettings, PriorityContext, resolve_recovery_priority_steps,
}

-- `FallbackRuntimeConfig`, with the settings of the order of the steps as `priority`, and what the route
-- says about the primary model.
pub record FallbackRuntimeConfig : Type 0 where
  pub runtime : Text
  pub overflow_fallback_retry_enabled : Bool
  pub overflow_fallback_retry_max_attempts : ℕ
  pub compaction_failure_recovery_enabled : Bool
  pub compaction_failure_recovery_max_attempts : ℕ
  pub truncation_recovery_enabled : Bool
  pub truncation_recovery_max_attempts : ℕ
  pub prompt_compaction_enabled : Bool
  pub prompt_compaction_max_attempts : ℕ
  pub prompt_compaction_ratio : ℕ
  pub prompt_compaction_min_chars : ℕ
  pub payload_truncation_enabled : Bool
  pub payload_truncation_max_attempts : ℕ
  pub payload_truncation_target_chars : ℕ
  pub payload_truncation_min_chars : ℕ
  pub priority : PrioritySettings
  pub recovery_backoff_enabled : Bool
  pub health_score : ℕ
  pub expected_latency_ms : ℕ
  pub cost_score : ℕ

-- The reason that the error carries, or the one of its message.
unfoldable pub reason_of : LlmError → Text
unfolding classify_failover_reason
reason_of e = elim e.reason [ none ↦ classify_failover_reason e.message | some reason ↦ reason ]

unfoldable pub note_reason : LlmError → FallbackAttemptState → FallbackAttemptState
unfolding reason_of text_eq
note_reason e a =
    let reason = reason_of e in
    if text_eq reason a.previous_reason
    then record a { last_error = some e; last_reason = reason; reason_streak = suc a.reason_streak }
    else record a {
      last_error = some e;
      last_reason = reason;
      reason_streak = 1;
      previous_reason = reason;
    }

abbrev pub has_fallback : Machine → Bool
has_fallback m = ltb m.current_model_index (length m.models - 1)

abbrev pub priority_context : FallbackRuntimeConfig → Machine → PriorityContext
priority_context cfg m = record {
  reason = m.attempt.last_reason;
  runtime = cfg.runtime;
  model_id = m.current_candidate_model;
  reason_streak = m.attempt.reason_streak;
  health_score = cfg.health_score;
  expected_latency_ms = cfg.expected_latency_ms;
  cost_score = cfg.cost_score;
  last_failed_strategy_by_reason = m.attempt.last_failed_strategy_by_reason;
}

abbrev pub recovery_context : FallbackRuntimeConfig → Machine → RecoveryContext
recovery_context cfg m = record {
  reason = m.attempt.last_reason;
  has_fallback = has_fallback m;
  current_user_message = m.attempt.current_user_message;
  retryable = is_retryable_failover_reason m.attempt.last_reason;
  recovery_branch = resolve_recovery_branch m.attempt.last_reason;
  overflow_fallback_retry_enabled = cfg.overflow_fallback_retry_enabled;
  overflow_fallback_retry_max_attempts = cfg.overflow_fallback_retry_max_attempts;
  overflow_fallback_retry_attempts = m.attempt.overflow_fallback_retry_attempts;
  compaction_failure_recovery_enabled = cfg.compaction_failure_recovery_enabled;
  compaction_failure_recovery_max_attempts = cfg.compaction_failure_recovery_max_attempts;
  compaction_failure_recovery_attempts = m.attempt.compaction_failure_recovery_attempts;
  truncation_recovery_enabled = cfg.truncation_recovery_enabled;
  truncation_recovery_max_attempts = cfg.truncation_recovery_max_attempts;
  truncation_recovery_attempts = m.attempt.truncation_recovery_attempts;
  prompt_compaction_enabled = cfg.prompt_compaction_enabled;
  prompt_compaction_max_attempts = cfg.prompt_compaction_max_attempts;
  prompt_compaction_attempts = m.attempt.prompt_compaction_attempts;
  payload_truncation_enabled = cfg.payload_truncation_enabled;
  payload_truncation_max_attempts = cfg.payload_truncation_max_attempts;
  payload_truncation_attempts = m.attempt.payload_truncation_attempts;
}

-- The hooks of the pipeline runner, for the machine as it is.
abbrev pub recovery_hooks : FallbackRuntimeConfig → Machine → RecoveryStrategyHooks
recovery_hooks cfg m = record {
  priority_steps = λ _. resolve_recovery_priority_steps cfg.priority (priority_context cfg m);
  compact_user_message =
      compact_user_message cfg.prompt_compaction_ratio cfg.prompt_compaction_min_chars;
  truncate_payload_for_retry =
      truncate_payload_for_retry cfg.payload_truncation_target_chars
        cfg.payload_truncation_min_chars;
}

unfoldable pub resolve_recovery : FallbackRuntimeConfig → Machine → RecoveryStrategyResolution
unfolding resolve
resolve_recovery cfg m = resolve (recovery_hooks cfg m) (recovery_context cfg m)

-- `counts[key] = int(counts.get(key, 0) or 0) + 1`
unfoldable pub count_key : Dict ℕ → Text → Dict ℕ
unfolding get put
count_key counts key = put counts key (suc (or_else 0 (get counts key)))

-- `strategy.split(":", 1)[1]`, if there is a colon.
unfoldable pub strategy_name : Text → Option Text
strategy_name [] = none
strategy_name (c ∷ s) = let rest = strategy_name s in if c == b':' then some s else rest

-- The strategy is counted, remembered as the last one of the reason, and waits for its outcome.
unfoldable pub note_strategy :
    Text → RecoveryStrategyResolution → FallbackAttemptState → FallbackAttemptState
unfolding strategy_name count_key put
note_strategy model r a = elim (strategy_name r.recovery_strategy) [
  | none ↦ a
  | some name ↦ record a {
    recovery_strategy_counts = count_key a.recovery_strategy_counts name;
    recovery_strategy_applied_total = suc a.recovery_strategy_applied_total;
    last_failed_strategy_by_reason = put a.last_failed_strategy_by_reason a.last_reason name;
    pending_recovery_outcome =
        if r.retryable then some (model, a.last_reason, name) else a.pending_recovery_outcome;
  }
]

unfoldable pub count_applied : Applied → FallbackAttemptState → FallbackAttemptState
count_applied nothing a = a
count_applied overflow_retry a = record a {
  recovery_overflow_retry_applied_total = suc a.recovery_overflow_retry_applied_total;
}
count_applied compaction_recovery a = record a {
  recovery_compaction_recovery_applied_total = suc a.recovery_compaction_recovery_applied_total;
}
count_applied truncation_recovery a = record a {
  recovery_truncation_recovery_applied_total = suc a.recovery_truncation_recovery_applied_total;
}
count_applied prompt_compaction a = record a {
  recovery_prompt_compaction_applied_total = suc a.recovery_prompt_compaction_applied_total;
}
count_applied payload_truncation a = record a {
  recovery_payload_truncation_applied_total = suc a.recovery_payload_truncation_applied_total;
}

-- What the resolution changes in the state of the attempt.
unfoldable pub take_resolution :
    Text → RecoveryStrategyResolution → FallbackAttemptState → FallbackAttemptState
unfolding note_strategy count_applied count_key
take_resolution model r a = count_applied r.applied (
    note_strategy model r (record a {
      current_user_message = r.current_user_message;
      overflow_fallback_retry_attempts = r.overflow_fallback_retry_attempts;
      compaction_failure_recovery_attempts = r.compaction_failure_recovery_attempts;
      truncation_recovery_attempts = r.truncation_recovery_attempts;
      prompt_compaction_attempts = r.prompt_compaction_attempts;
      payload_truncation_attempts = r.payload_truncation_attempts;
      recovery_failures_total = suc a.recovery_failures_total;
      recovery_reason_counts = count_key a.recovery_reason_counts a.last_reason;
      recovery_branch_counts = count_key a.recovery_branch_counts r.recovery_branch;
    }))

abbrev pub is_transform : Applied → Bool
is_transform prompt_compaction = true
is_transform payload_truncation = true
is_transform _ = false

-- The failure that is final: the summary, and the stage that says why.
unfoldable pub give_up : Text → Machine → Machine
unfolding emit
give_up stage m =
    record (emit (lifecycle stage)
      (emit (recovery_summary false m.current_candidate_model m.attempt.last_reason) m)) {
        state = finalize_failure;
      }

-- The next model, or once more the same with the changed message.
unfoldable pub choose_next : Bool → Machine → Machine
choose_next message_was_transformed m =
    if message_was_transformed && not m.transform_retry_pending
    then record m { transform_retry_pending = true; state = select_model }
    else record m {
      current_model_index = suc m.current_model_index;
      transform_retry_pending = false;
      state = select_model;
    }

-- The part of the handler behind the events of the resolution.
unfoldable pub follow_resolution :
    FallbackRuntimeConfig → RecoveryStrategyResolution → Machine → Machine
unfolding emit give_up choose_next
follow_resolution cfg r m =
    let transformed = is_transform r.applied in
    if leb (length m.models - 1) m.current_model_index && not (r.retryable && transformed)
    then give_up (codes "model_fallback_exhausted") m
    else if not r.retryable
    then give_up (codes "model_fallback_not_retryable") m
    else choose_next transformed (
        if cfg.recovery_backoff_enabled
        then emit (lifecycle (codes "model_recovery_backoff")) m
        else m)

-- The events of the classification, the branch, the action and the transform.
unfoldable pub emit_resolution : RecoveryStrategyResolution → Machine → Machine
unfolding emit
emit_resolution r m =
    let told = emit (lifecycle (codes "model_recovery_action")) (
      emit (lifecycle (codes "model_recovery_branch_selected"))
        (emit (lifecycle (codes "model_fallback_classified")) m)) in
    if is_transform r.applied
    then emit (lifecycle (codes "model_recovery_transform_applied")) told
    else told

-- The machine when the resolver is asked.
unfoldable pub note_failure : LlmError → Machine → Machine
unfolding record_recovery_outcome note_reason
note_failure e m =
    let noted = record_recovery_outcome false m in
    record noted { attempt = note_reason e noted.attempt }

-- The state HANDLE_FAILURE.
unfoldable pub on_handle_failure : FallbackRuntimeConfig → Machine → Machine × Option Ending
unfolding note_failure resolve_recovery take_resolution emit_resolution follow_resolution
on_handle_failure cfg m = elim m.current_exception [
  | none ↦ (m, some failed_assertion)
  | some e ↦
      let noted = note_failure e m in
      let r = resolve_recovery cfg noted in
      let taken = record noted {
        attempt = take_resolution noted.current_candidate_model r noted.attempt;
      } in
      (follow_resolution cfg r (emit_resolution r taken), none)
]
