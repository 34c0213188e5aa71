-- ===== src/Recovery/Open.antt =====
-- When a recovery could be applied to a failure, described apart from the steps.
use ai_agent_starter_kit.Recovery.{
  RecoveryContext, RecoveryStrategyHooks, overflow_step, truncation_step,
}
use ai_agent_starter_kit.Common.{
  ◌<◌, ◌≡◌, ap, ◌≢◌, ◌⊎◌, inl, inr, true, none, List, [], ◌∷◌, arith, All, Text, codes, text_eq,
  text_eq_iff,
}

-- The step of an overflow that is named in the order can be made.
abbrev pub IsOverflowOpen : RecoveryStrategyHooks → RecoveryContext → Text → Type 0
IsOverflowOpen hooks ctx s =
    ((s ≡ codes "prompt_compaction")
      × (ctx.prompt_compaction_enabled ≡ true)
      × (ctx.prompt_compaction_attempts < ctx.prompt_compaction_max_attempts)
      × (hooks.compact_user_message ctx.current_user_message ≢ ctx.current_user_message))
    ⊎ ((s ≡ codes "overflow_fallback_retry")
        × (ctx.has_fallback ≡ true)
        × (ctx.overflow_fallback_retry_enabled ≡ true)
        × (ctx.overflow_fallback_retry_attempts < ctx.overflow_fallback_retry_max_attempts))

abbrev pub IsTruncationOpen : RecoveryStrategyHooks → RecoveryContext → Text → Type 0
IsTruncationOpen hooks ctx s =
    ((s ≡ codes "payload_truncation")
      × (ctx.payload_truncation_enabled ≡ true)
      × (ctx.payload_truncation_attempts < ctx.payload_truncation_max_attempts)
      × (hooks.truncate_payload_for_retry ctx.current_user_message ≢ ctx.current_user_message))
    ⊎ ((s ≡ codes "truncation_fallback_retry")
        × (ctx.has_fallback ≡ true)
        × (ctx.truncation_recovery_enabled ≡ true)
        × (ctx.truncation_recovery_attempts < ctx.truncation_recovery_max_attempts))

abbrev pub IsCompactionOpen : RecoveryContext → Type 0
IsCompactionOpen ctx =
    (ctx.has_fallback ≡ true)
    × (ctx.compaction_failure_recovery_enabled ≡ true)
    × (ctx.compaction_failure_recovery_attempts < ctx.compaction_failure_recovery_max_attempts)

-- No recovery can be applied: none of the steps in the order, or the reason is none of the three.
abbrev pub IsClosed : RecoveryStrategyHooks → RecoveryContext → Type 0
IsClosed hooks ctx =
    ((ctx.reason ≡ codes "context_overflow")
      × All (λ s. ¬ IsOverflowOpen hooks ctx s) (hooks.priority_steps ctx))
    ⊎ ((ctx.reason ≡ codes "compaction_failure") × (¬ IsCompactionOpen ctx))
    ⊎ ((ctx.reason ≡ codes "truncation_required")
        × All (λ s. ¬ IsTruncationOpen hooks ctx s) (hooks.priority_steps ctx))
    ⊎ ((ctx.reason ≢ codes "context_overflow")
        × (ctx.reason ≢ codes "compaction_failure")
        × (ctx.reason ≢ codes "truncation_required"))

overflow_step-none :
    (hooks : RecoveryStrategyHooks) (ctx : RecoveryContext) (s : Text)
    → overflow_step hooks ctx s ≡ none
    → ¬ IsOverflowOpen hooks ctx s
unfolding overflow_step text_eq
overflow_step-none hooks ctx s h (inl (q, on, left, other)) =
    let m = hooks.compact_user_message ctx.current_user_message in
    absurd (
      ground (
        arith,
        h,
        on,
        left,
        other,
        (text_eq_iff s (codes "prompt_compaction")).1 q,
        text_eq_iff m ctx.current_user_message,
      ))
overflow_step-none hooks ctx s h (inr (q, fallback, on, left)) = absurd (
    ground (
      arith,
      h,
      fallback,
      on,
      left,
      q,
      (text_eq_iff s (codes "overflow_fallback_retry")).1 q,
      ap (λ t. text_eq t (codes "prompt_compaction")) q,
    ))

truncation_step-none :
    (hooks : RecoveryStrategyHooks) (ctx : RecoveryContext) (s : Text)
    → truncation_step hooks ctx s ≡ none
    → ¬ IsTruncationOpen hooks ctx s
unfolding truncation_step text_eq
truncation_step-none hooks ctx s h (inl (q, on, left, other)) =
    let m = hooks.truncate_payload_for_retry ctx.current_user_message in
    absurd (
      ground (
        arith,
        h,
        on,
        left,
        other,
        (text_eq_iff s (codes "payload_truncation")).1 q,
        text_eq_iff m ctx.current_user_message,
      ))
truncation_step-none hooks ctx s h (inr (q, fallback, on, left)) = absurd (
    ground (
      arith,
      h,
      fallback,
      on,
      left,
      q,
      (text_eq_iff s (codes "truncation_fallback_retry")).1 q,
      ap (λ t. text_eq t (codes "payload_truncation")) q,
    ))

pub overflow_steps-closed :
    (hooks : RecoveryStrategyHooks) (ctx : RecoveryContext) (steps : List Text)
    → All (λ s. overflow_step hooks ctx s ≡ none) steps
    → All (λ s. ¬ IsOverflowOpen hooks ctx s) steps
overflow_steps-closed hooks ctx [] h = tt
overflow_steps-closed hooks ctx (s ∷ steps) h =
    (overflow_step-none hooks ctx s h.0, overflow_steps-closed hooks ctx steps h.1)

pub truncation_steps-closed :
    (hooks : RecoveryStrategyHooks) (ctx : RecoveryContext) (steps : List Text)
    → All (λ s. truncation_step hooks ctx s ≡ none) steps
    → All (λ s. ¬ IsTruncationOpen hooks ctx s) steps
truncation_steps-closed hooks ctx [] h = tt
truncation_steps-closed hooks ctx (s ∷ steps) h =
    (truncation_step-none hooks ctx s h.0, truncation_steps-closed hooks ctx steps h.1)
