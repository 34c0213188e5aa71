-- ===== src/Recovery.antt =====
-- backend/app/orchestrator/recovery_strategy.py: what `RecoveryStrategyResolver.resolve` does about
-- a request that failed, before the next model is tried. The hooks of the pipeline runner (the order
-- of the steps, the compaction and the truncation of the message) are a record of functions. The
-- settings that only the hooks read are left out of the context, and the flags that their metadata
-- hands on to the result are left out of the result.
pub mod Budget
pub mod Open
pub mod Guards
mod Examples
use ai_agent_starter_kit.Common.{
  ℕ, suc, Bool, true, not, ◌&&◌, Option, none, some, List, [], ◌∷◌, ltb, if◌then◌else◌, or_else,
  length, Text, codes, text_eq,
}

pub record RecoveryContext : Type 0 where
  pub reason : Text
  pub has_fallback : Bool
  pub current_user_message : Text
  pub retryable : Bool
  pub recovery_branch : Text
  pub overflow_fallback_retry_enabled : Bool
  pub overflow_fallback_retry_max_attempts : ℕ
  pub overflow_fallback_retry_attempts : ℕ
  pub compaction_failure_recovery_enabled : Bool
  pub compaction_failure_recovery_max_attempts : ℕ
  pub compaction_failure_recovery_attempts : ℕ
  pub truncation_recovery_enabled : Bool
  pub truncation_recovery_max_attempts : ℕ
  pub truncation_recovery_attempts : ℕ
  pub prompt_compaction_enabled : Bool
  pub prompt_compaction_max_attempts : ℕ
  pub prompt_compaction_attempts : ℕ
  pub payload_truncation_enabled : Bool
  pub payload_truncation_max_attempts : ℕ
  pub payload_truncation_attempts : ℕ

-- `RecoveryStrategyHooks`: the steps in the order of `_resolve_priority_recovery_metadata`, and the
-- two shortenings at their targets.
pub record RecoveryStrategyHooks : Type 0 where
  pub priority_steps : RecoveryContext → List Text
  pub compact_user_message : Text → Text
  pub truncate_payload_for_retry : Text → Text

pub data Applied : Type 0 where
  nothing overflow_retry compaction_recovery truncation_recovery prompt_compaction
        payload_truncation :
      Applied

-- The result, with the one flag `…_applied` that is set as `applied`, and the new length where a
-- step shortens the message.
pub record RecoveryStrategyResolution : Type 0 where
  pub retryable : Bool
  pub recovery_branch : Text
  pub recovery_strategy : Text
  pub current_user_message : Text
  pub overflow_fallback_retry_attempts : ℕ
  pub compaction_failure_recovery_attempts : ℕ
  pub truncation_recovery_attempts : ℕ
  pub prompt_compaction_attempts : ℕ
  pub payload_truncation_attempts : ℕ
  pub applied : Applied
  pub prompt_compaction_previous_chars : ℕ
  pub prompt_compaction_new_chars : ℕ
  pub payload_truncation_previous_chars : ℕ
  pub payload_truncation_new_chars : ℕ

-- The locals before the first test: nothing is applied.
abbrev pub initial_resolution : RecoveryContext → RecoveryStrategyResolution
initial_resolution ctx =
    let chars = length ctx.current_user_message in
    record {
      retryable = ctx.retryable;
      recovery_branch = ctx.recovery_branch;
      recovery_strategy = codes "none";
      current_user_message = ctx.current_user_message;
      overflow_fallback_retry_attempts = ctx.overflow_fallback_retry_attempts;
      compaction_failure_recovery_attempts = ctx.compaction_failure_recovery_attempts;
      truncation_recovery_attempts = ctx.truncation_recovery_attempts;
      prompt_compaction_attempts = ctx.prompt_compaction_attempts;
      payload_truncation_attempts = ctx.payload_truncation_attempts;
      applied = nothing;
      prompt_compaction_previous_chars = chars;
      prompt_compaction_new_chars = chars;
      payload_truncation_previous_chars = chars;
      payload_truncation_new_chars = chars;
    }

abbrev pub compact_prompt : RecoveryContext → Text → RecoveryStrategyResolution
compact_prompt ctx compacted_message = record (initial_resolution ctx) {
  prompt_compaction_attempts = suc ctx.prompt_compaction_attempts;
  current_user_message = compacted_message;
  retryable = true;
  applied = prompt_compaction;
  prompt_compaction_new_chars = length compacted_message;
  recovery_branch = codes "guarded_prompt_compaction_recovery";
  recovery_strategy = codes "context_overflow:prompt_compaction";
}

abbrev pub retry_overflow : RecoveryContext → RecoveryStrategyResolution
retry_overflow ctx = record (initial_resolution ctx) {
  overflow_fallback_retry_attempts = suc ctx.overflow_fallback_retry_attempts;
  retryable = true;
  applied = overflow_retry;
  recovery_branch = codes "guarded_context_overflow_fallback_retry";
  recovery_strategy = codes "context_overflow:fallback_retry";
}

abbrev pub recover_compaction : RecoveryContext → RecoveryStrategyResolution
recover_compaction ctx = record (initial_resolution ctx) {
  compaction_failure_recovery_attempts = suc ctx.compaction_failure_recovery_attempts;
  retryable = true;
  applied = compaction_recovery;
  recovery_branch = codes "guarded_compaction_failure_recovery";
  recovery_strategy = codes "compaction_failure:fallback_retry";
}

abbrev pub truncate_payload : RecoveryContext → Text → RecoveryStrategyResolution
truncate_payload ctx truncated_message = record (initial_resolution ctx) {
  payload_truncation_attempts = suc ctx.payload_truncation_attempts;
  current_user_message = truncated_message;
  retryable = true;
  applied = payload_truncation;
  payload_truncation_new_chars = length truncated_message;
  recovery_branch = codes "guarded_payload_truncation_recovery";
  recovery_strategy = codes "truncation_required:payload_truncation";
}

abbrev pub recover_truncation : RecoveryContext → RecoveryStrategyResolution
recover_truncation ctx = record (initial_resolution ctx) {
  truncation_recovery_attempts = suc ctx.truncation_recovery_attempts;
  retryable = true;
  applied = truncation_recovery;
  recovery_branch = codes "guarded_truncation_recovery";
  recovery_strategy = codes "truncation_required:fallback_retry";
}

-- One turn of the loop for a context overflow; none is the `continue`.
unfoldable pub overflow_step :
    RecoveryStrategyHooks → RecoveryContext → Text → Option RecoveryStrategyResolution
unfolding text_eq
overflow_step hooks ctx s =
    let compacted_message = hooks.compact_user_message ctx.current_user_message in
    if text_eq s (codes "prompt_compaction")
    then (if ctx.prompt_compaction_enabled
          && ltb ctx.prompt_compaction_attempts ctx.prompt_compaction_max_attempts
          && not (text_eq compacted_message ctx.current_user_message)
        then some (compact_prompt ctx compacted_message)
        else none)
    else if text_eq s (codes "overflow_fallback_retry")
        && ctx.has_fallback
        && ctx.overflow_fallback_retry_enabled
        && ltb ctx.overflow_fallback_retry_attempts ctx.overflow_fallback_retry_max_attempts
    then some (retry_overflow ctx)
    else none

-- One turn of the loop for a truncation.
unfoldable pub truncation_step :
    RecoveryStrategyHooks → RecoveryContext → Text → Option RecoveryStrategyResolution
unfolding text_eq
truncation_step hooks ctx s =
    let truncated_message = hooks.truncate_payload_for_retry ctx.current_user_message in
    if text_eq s (codes "payload_truncation")
    then (if ctx.payload_truncation_enabled
          && ltb ctx.payload_truncation_attempts ctx.payload_truncation_max_attempts
          && not (text_eq truncated_message ctx.current_user_message)
        then some (truncate_payload ctx truncated_message)
        else none)
    else if text_eq s (codes "truncation_fallback_retry")
        && ctx.has_fallback
        && ctx.truncation_recovery_enabled
        && ltb ctx.truncation_recovery_attempts ctx.truncation_recovery_max_attempts
    then some (recover_truncation ctx)
    else none

-- The loop: the first step that applies.
unfoldable pub first_step :
    (Text → Option RecoveryStrategyResolution) → List Text → Option RecoveryStrategyResolution
first_step f [] = none
first_step f (s ∷ steps) =
    let rest = first_step f steps in elim (f s) [ none ↦ rest | some r ↦ some r ]

unfoldable pub resolve : RecoveryStrategyHooks → RecoveryContext → RecoveryStrategyResolution
unfolding text_eq overflow_step truncation_step first_step
resolve hooks ctx =
    if text_eq ctx.reason (codes "context_overflow")
    then or_else (initial_resolution ctx)
        (first_step (overflow_step hooks ctx) (hooks.priority_steps ctx))
    else if text_eq ctx.reason (codes "compaction_failure")
        && ctx.has_fallback
        && ctx.compaction_failure_recovery_enabled
        && ltb ctx.compaction_failure_recovery_attempts ctx.compaction_failure_recovery_max_attempts
    then recover_compaction ctx
    else if text_eq ctx.reason (codes "truncation_required")
    then or_else (initial_resolution ctx)
        (first_step (truncation_step hooks ctx) (hooks.priority_steps ctx))
    else initial_resolution ctx
