-- ===== src/Recovery/Guards.antt =====
-- When each recovery is applied, and what it leaves alone.
use ai_agent_starter_kit.Recovery.{
  RecoveryContext, RecoveryStrategyHooks, Applied, nothing, overflow_retry, compaction_recovery,
  truncation_recovery, prompt_compaction, payload_truncation, RecoveryStrategyResolution,
  initial_resolution, compact_prompt, retry_overflow, truncate_payload, recover_truncation,
  overflow_step, truncation_step, first_step, resolve,
}
use ai_agent_starter_kit.Recovery.Open.{IsClosed, overflow_steps-closed, truncation_steps-closed}
use ai_agent_starter_kit.Common.{
  subst, ℕ, ◌+◌, ◌<◌, ◌≡◌, refl, ◌≢◌, inl, inr, Bool, true, false, not, ◌&&◌, Option, none, some,
  List, [], ◌∷◌, arith, ltb, if◌then◌else◌, Bool-cases, or_else, length, All, Text, codes, text_eq,
  text_eq_iff,
}

-- The attempts that are counted in the resolution, the budgets in their order.
abbrev pub HasCounters : RecoveryContext → RecoveryStrategyResolution → ℕ → ℕ → ℕ → ℕ → ℕ → Type 0
HasCounters ctx r overflow compaction truncation prompt payload =
    (r.overflow_fallback_retry_attempts ≡ ctx.overflow_fallback_retry_attempts + overflow)
    × (r.compaction_failure_recovery_attempts
        ≡ ctx.compaction_failure_recovery_attempts + compaction)
    × (r.truncation_recovery_attempts ≡ ctx.truncation_recovery_attempts + truncation)
    × (r.prompt_compaction_attempts ≡ ctx.prompt_compaction_attempts + prompt)
    × (r.payload_truncation_attempts ≡ ctx.payload_truncation_attempts + payload)

-- The verdict, with the name of the branch and of the strategy.
abbrev pub HasVerdict : RecoveryStrategyResolution → Bool → Text → Text → Type 0
HasVerdict r retryable branch strategy =
    (r.retryable ≡ retryable) × (r.recovery_branch ≡ branch) × (r.recovery_strategy ≡ strategy)

-- The message that goes on, and the lengths that are reported of the two ways to shorten it.
abbrev pub HasMessage : RecoveryContext → RecoveryStrategyResolution → Text → ℕ → ℕ → Type 0
HasMessage ctx r message compacted truncated =
    (r.current_user_message ≡ message)
    × (r.prompt_compaction_previous_chars ≡ length ctx.current_user_message)
    × (r.prompt_compaction_new_chars ≡ compacted)
    × (r.payload_truncation_previous_chars ≡ length ctx.current_user_message)
    × (r.payload_truncation_new_chars ≡ truncated)

-- The message as it was.
abbrev pub KeepsMessage : RecoveryContext → RecoveryStrategyResolution → Type 0
KeepsMessage ctx r =
    let chars = length ctx.current_user_message in
    HasMessage ctx r ctx.current_user_message chars chars

-- What must hold of the context for a resolution that applies a recovery, and all that the
-- resolution then says.
abbrev pub IsJustifiedBy :
    RecoveryStrategyHooks → RecoveryContext → RecoveryStrategyResolution → Applied → Type 0
IsJustifiedBy hooks ctx r applied = elim applied as (λ _. Type 0) [
  | nothing ↦
      HasCounters ctx r 0 0 0 0 0
      × HasVerdict r ctx.retryable ctx.recovery_branch (codes "none")
      × IsClosed hooks ctx
      × KeepsMessage ctx r
  | overflow_retry ↦
      (ctx.reason ≡ codes "context_overflow")
      × (ctx.has_fallback ≡ true)
      × (ctx.overflow_fallback_retry_enabled ≡ true)
      × (ctx.overflow_fallback_retry_attempts < ctx.overflow_fallback_retry_max_attempts)
      × HasCounters ctx r 1 0 0 0 0
      × HasVerdict r true (codes "guarded_context_overflow_fallback_retry")
          (codes "context_overflow:fallback_retry")
      × KeepsMessage ctx r
  | compaction_recovery ↦
      (ctx.reason ≡ codes "compaction_failure")
      × (ctx.has_fallback ≡ true)
      × (ctx.compaction_failure_recovery_enabled ≡ true)
      × (ctx.compaction_failure_recovery_attempts < ctx.compaction_failure_recovery_max_attempts)
      × HasCounters ctx r 0 1 0 0 0
      × HasVerdict r true (codes "guarded_compaction_failure_recovery")
          (codes "compaction_failure:fallback_retry")
      × KeepsMessage ctx r
  | truncation_recovery ↦
      (ctx.reason ≡ codes "truncation_required")
      × (ctx.has_fallback ≡ true)
      × (ctx.truncation_recovery_enabled ≡ true)
      × (ctx.truncation_recovery_attempts < ctx.truncation_recovery_max_attempts)
      × HasCounters ctx r 0 0 1 0 0
      × HasVerdict r true (codes "guarded_truncation_recovery")
          (codes "truncation_required:fallback_retry")
      × KeepsMessage ctx r
  | prompt_compaction ↦
      let compacted = hooks.compact_user_message ctx.current_user_message in
      (ctx.reason ≡ codes "context_overflow")
      × (ctx.prompt_compaction_enabled ≡ true)
      × (compacted ≢ ctx.current_user_message)
      × (ctx.prompt_compaction_attempts < ctx.prompt_compaction_max_attempts)
      × HasCounters ctx r 0 0 0 1 0
      × HasVerdict r true (codes "guarded_prompt_compaction_recovery")
          (codes "context_overflow:prompt_compaction")
      × HasMessage ctx r compacted (length compacted) (length ctx.current_user_message)
  | payload_truncation ↦
      let truncated = hooks.truncate_payload_for_retry ctx.current_user_message in
      (ctx.reason ≡ codes "truncation_required")
      × (ctx.payload_truncation_enabled ≡ true)
      × (truncated ≢ ctx.current_user_message)
      × (ctx.payload_truncation_attempts < ctx.payload_truncation_max_attempts)
      × HasCounters ctx r 0 0 0 0 1
      × HasVerdict r true (codes "guarded_payload_truncation_recovery")
          (codes "truncation_required:payload_truncation")
      × HasMessage ctx r truncated (length ctx.current_user_message) (length truncated)
]

abbrev pub IsJustified :
    RecoveryStrategyHooks → RecoveryContext → RecoveryStrategyResolution → Type 0
IsJustified hooks ctx r = IsJustifiedBy hooks ctx r r.applied

-- A result of the loop is the result of one of the steps.
first_step-some :
    (P : RecoveryStrategyResolution → Type 0) (f : Text → Option RecoveryStrategyResolution)
    (steps : List Text)
    → ((s : Text) (r : RecoveryStrategyResolution) → f s ≡ some r → P r)
    → (d : RecoveryStrategyResolution) → (All (λ s. f s ≡ none) steps → P d)
    → P (or_else d (first_step f steps))
unfolding first_step
first_step-some P f [] h d pd = pd tt
first_step-some P f (s ∷ steps) h d pd =
    first_result (f s) refl (λ e. first_step-some P f steps h d (λ a. pd (e, a)))
  where
    first_result :
        (o : Option RecoveryStrategyResolution)
        → f s ≡ o
        → (f s ≡ none → P (or_else d (first_step f steps)))
        → P (
            or_else d (elim o as (λ _. Option RecoveryStrategyResolution) [
              | none ↦ first_step f steps
              | some r ↦ some r
            ]))
    first_result none e p = p e
    first_result (some r) e p = h s r e

guarded :
    (P : RecoveryStrategyResolution → Type 0) (c : Bool) (a r : RecoveryStrategyResolution)
    → (c ≡ true → P a)
    → (if c then some a else none) ≡ some r
    → P r
guarded P true a r h e = subst P (ground (arith, e)) (h refl)
guarded P false a r h e = absurd (ground (arith, e))

either_guarded :
    (P : RecoveryStrategyResolution → Type 0) (t c d : Bool) (a b r : RecoveryStrategyResolution)
    → (c ≡ true → P a)
    → (d ≡ true → P b)
    → (if t then (if c then some a else none) else if d then some b else none) ≡ some r
    → P r
either_guarded P true c d a b r ha hb e = guarded P c a r ha e
either_guarded P false c d a b r ha hb e = guarded P d b r hb e

initial-IsJustified :
    (hooks : RecoveryStrategyHooks) (ctx : RecoveryContext)
    → IsClosed hooks ctx
    → IsJustified hooks ctx (initial_resolution ctx)
initial-IsJustified hooks ctx c =
    (ground arith, (refl, refl, refl), c, (refl, refl, refl, refl, refl))

overflow_step-IsJustified :
    (hooks : RecoveryStrategyHooks) (ctx : RecoveryContext) (s : Text)
    (r : RecoveryStrategyResolution)
    → text_eq ctx.reason (codes "context_overflow") ≡ true
    → overflow_step hooks ctx s ≡ some r
    → IsJustified hooks ctx r
unfolding overflow_step
overflow_step-IsJustified hooks ctx s r o e =
    let m = hooks.compact_user_message ctx.current_user_message in
    either_guarded (IsJustified hooks ctx) (text_eq s (codes "prompt_compaction"))
      (ctx.prompt_compaction_enabled
        && ltb ctx.prompt_compaction_attempts ctx.prompt_compaction_max_attempts
        && not (text_eq m ctx.current_user_message))
      (text_eq s (codes "overflow_fallback_retry")
        && ctx.has_fallback
        && ctx.overflow_fallback_retry_enabled
        && ltb ctx.overflow_fallback_retry_attempts ctx.overflow_fallback_retry_max_attempts)
      (compact_prompt ctx m) (retry_overflow ctx) r
      (λ g. (
        (text_eq_iff ctx.reason (codes "context_overflow")).0 o,
        ground (arith, g),
        ground (arith, g, text_eq_iff m ctx.current_user_message),
        ground (arith, g),
        ground arith,
        (refl, refl, refl),
        (refl, refl, refl, refl, refl),
      ))
      (λ g. (
        (text_eq_iff ctx.reason (codes "context_overflow")).0 o,
        ground (arith, g),
        ground (arith, g),
        ground (arith, g),
        ground arith,
        (refl, refl, refl),
        (refl, refl, refl, refl, refl),
      ))
      e

truncation_step-IsJustified :
    (hooks : RecoveryStrategyHooks) (ctx : RecoveryContext) (s : Text)
    (r : RecoveryStrategyResolution)
    → text_eq ctx.reason (codes "truncation_required") ≡ true
    → truncation_step hooks ctx s ≡ some r
    → IsJustified hooks ctx r
unfolding truncation_step
truncation_step-IsJustified hooks ctx s r o e =
    let m = hooks.truncate_payload_for_retry ctx.current_user_message in
    either_guarded (IsJustified hooks ctx) (text_eq s (codes "payload_truncation"))
      (ctx.payload_truncation_enabled
        && ltb ctx.payload_truncation_attempts ctx.payload_truncation_max_attempts
        && not (text_eq m ctx.current_user_message))
      (text_eq s (codes "truncation_fallback_retry")
        && ctx.has_fallback
        && ctx.truncation_recovery_enabled
        && ltb ctx.truncation_recovery_attempts ctx.truncation_recovery_max_attempts)
      (truncate_payload ctx m) (recover_truncation ctx) r
      (λ g. (
        (text_eq_iff ctx.reason (codes "truncation_required")).0 o,
        ground (arith, g),
        ground (arith, g, text_eq_iff m ctx.current_user_message),
        ground (arith, g),
        ground arith,
        (refl, refl, refl),
        (refl, refl, refl, refl, refl),
      ))
      (λ g. (
        (text_eq_iff ctx.reason (codes "truncation_required")).0 o,
        ground (arith, g),
        ground (arith, g),
        ground (arith, g),
        ground arith,
        (refl, refl, refl),
        (refl, refl, refl, refl, refl),
      ))
      e

no_recovery :
    (hooks : RecoveryStrategyHooks) (ctx : RecoveryContext)
    → text_eq ctx.reason (codes "context_overflow") ≡ false
    → (text_eq ctx.reason (codes "compaction_failure")
        && ctx.has_fallback
        && ctx.compaction_failure_recovery_enabled
        && ltb ctx.compaction_failure_recovery_attempts
            ctx.compaction_failure_recovery_max_attempts)
      ≡ false
    → text_eq ctx.reason (codes "truncation_required") ≡ false
    → IsClosed hooks ctx
no_recovery hooks ctx o g t = elim (Bool-cases (text_eq ctx.reason (codes "compaction_failure"))) [
  | inl c ↦ inr (
      inl (
        (text_eq_iff ctx.reason (codes "compaction_failure")).0 c,
        (λ h. absurd (ground (arith, g, c, h))),
      ))
  | inr c ↦ inr (
      inr (
        inr (
          (λ q.
              absurd (ground (arith, o, (text_eq_iff ctx.reason (codes "context_overflow")).1 q))),
          (λ q.
              absurd
                (ground (arith, c, (text_eq_iff ctx.reason (codes "compaction_failure")).1 q))),
          (λ q.
              absurd
                (ground (arith, t, (text_eq_iff ctx.reason (codes "truncation_required")).1 q))),
        )))
]

-- The result of `resolve` either applies nothing, and every counter, the verdict and the message are
-- those of the request, or it applies exactly one recovery. It applies nothing only if no recovery
-- could be: none of the steps in the order of an overflow or a truncation, not that of a failed
-- compaction, or the reason is none of these three. A recovery that is applied is one of the reason
-- of the failure, it is enabled and its budget had an attempt left; its counter is raised by one and
-- no other counter is; the request is to be retried, under the names of the branch and of the strategy
-- of this recovery. One that asks another model has a fallback and keeps the message; one that
-- shortens the message goes on with what its hook makes of it, which is another message.
pub resolve-IsJustified :
    (hooks : RecoveryStrategyHooks) (ctx : RecoveryContext)
    → IsJustified hooks ctx (resolve hooks ctx)
unfolding resolve
resolve-IsJustified hooks ctx = elim (Bool-cases (text_eq ctx.reason (codes "context_overflow"))) [
  | inl o ↦ rw o (
      first_step-some (IsJustified hooks ctx) (overflow_step hooks ctx) (hooks.priority_steps ctx)
        (λ s r e. overflow_step-IsJustified hooks ctx s r o e) (initial_resolution ctx)
        (λ a. initial-IsJustified hooks ctx (
          inl (
            (text_eq_iff ctx.reason (codes "context_overflow")).0 o,
            overflow_steps-closed hooks ctx (hooks.priority_steps ctx) a,
          ))))
  | inr o ↦
      (elim (Bool-cases (
        text_eq ctx.reason (codes "compaction_failure")
        && ctx.has_fallback
        && ctx.compaction_failure_recovery_enabled
        && ltb ctx.compaction_failure_recovery_attempts
            ctx.compaction_failure_recovery_max_attempts)) [
              | inl g ↦
                  rw (o, g)
                    (
                      (text_eq_iff ctx.reason (codes "compaction_failure")).0 (ground (arith, g)),
                      ground (arith, g),
                      ground (arith, g),
                      ground (arith, g),
                      ground arith,
                      (refl, refl, refl),
                      (refl, refl, refl, refl, refl),
                    )
              | inr g ↦ (elim (Bool-cases (text_eq ctx.reason (codes "truncation_required"))) [
                | inl t ↦
                    rw (o, g, t)
                      (first_step-some (IsJustified hooks ctx) (truncation_step hooks ctx)
                        (hooks.priority_steps ctx)
                        (λ s r e. truncation_step-IsJustified hooks ctx s r t e)
                        (initial_resolution ctx)
                        (λ a. initial-IsJustified hooks ctx (
                          inr (
                            inr (
                              inl (
                                (text_eq_iff ctx.reason (codes "truncation_required")).0 t,
                                truncation_steps-closed hooks ctx (hooks.priority_steps ctx) a,
                              ))))))
                | inr t ↦ rw (o, g, t) (initial-IsJustified hooks ctx (no_recovery hooks ctx o g t))
              ])
            ])
]
