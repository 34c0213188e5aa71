-- ===== src/Recovery/Examples.antt =====
-- A request whose context overflows, with hooks that cut the message in half, and the theorems at it.
use ai_agent_starter_kit.Recovery.{
  RecoveryContext, RecoveryStrategyHooks, overflow_step, truncation_step, first_step, resolve,
}
use ai_agent_starter_kit.Recovery.Guards.{IsJustified, resolve-IsJustified}
use ai_agent_starter_kit.Recovery.Budget.{
  remaining, Failure, next_context, recoveries, recoveries-le-remaining,
}
use ai_agent_starter_kit.Common.{◌≤◌, ◌≡◌, refl, true, false, [], ◌∷◌, take, codes, text_eq}

abbrev hooks : RecoveryStrategyHooks
hooks = record {
  priority_steps = λ _. codes "prompt_compaction" ∷ codes "overflow_fallback_retry" ∷ [];
  compact_user_message = take 4;
  truncate_payload_for_retry = take 2;
}

abbrev context : RecoveryContext
context = record {
  reason = codes "context_overflow";
  has_fallback = true;
  current_user_message = codes "a long message";
  retryable = false;
  recovery_branch = codes "fail_fast_non_retryable";
  overflow_fallback_retry_enabled = true;
  overflow_fallback_retry_max_attempts = 1;
  overflow_fallback_retry_attempts = 0;
  compaction_failure_recovery_enabled = true;
  compaction_failure_recovery_max_attempts = 1;
  compaction_failure_recovery_attempts = 0;
  truncation_recovery_enabled = true;
  truncation_recovery_max_attempts = 1;
  truncation_recovery_attempts = 0;
  prompt_compaction_enabled = true;
  prompt_compaction_max_attempts = 1;
  prompt_compaction_attempts = 0;
  payload_truncation_enabled = true;
  payload_truncation_max_attempts = 1;
  payload_truncation_attempts = 0;
}

abbrev overflow : Failure
overflow = record {
  reason = codes "context_overflow";
  has_fallback = true;
  retryable = false;
  recovery_branch = codes "fail_fast_non_retryable";
}

-- The message is compacted first; the second overflow goes to the fallback, the third fails.
recovers_twice : recoveries hooks context (overflow ∷ overflow ∷ overflow ∷ []) ≡ 2
unfolding recoveries resolve overflow_step truncation_step first_step next_context text_eq
recovers_twice = refl

resolve-IsJustified_example : IsJustified hooks context (resolve hooks context)
resolve-IsJustified_example = resolve-IsJustified hooks context

recoveries-le-remaining_example :
    recoveries hooks context (overflow ∷ overflow ∷ overflow ∷ []) ≤ remaining context
recoveries-le-remaining_example =
    recoveries-le-remaining hooks (overflow ∷ overflow ∷ overflow ∷ []) context
