-- ===== src/Fallback/Feedback.antt =====
-- What the machine remembers of a failed strategy, and what the order of the recovery steps makes of it.
use ai_agent_starter_kit.Fallback.{FallbackAttemptState, Machine}
use ai_agent_starter_kit.Fallback.Failure.{
  FallbackRuntimeConfig, priority_context, recovery_context, recovery_hooks, resolve_recovery,
  strategy_name, note_strategy, count_applied, take_resolution,
}
use ai_agent_starter_kit.Recovery.{
  RecoveryContext, RecoveryStrategyHooks, Applied, nothing, overflow_retry, compaction_recovery,
  truncation_recovery, prompt_compaction, payload_truncation, RecoveryStrategyResolution, resolve,
}
use ai_agent_starter_kit.Recovery.Guards.{IsJustifiedBy, resolve-IsJustified}
use ai_agent_starter_kit.Failover.Priority.{
  PrioritySettings, PriorityContext, resolve_reason_priority_config, normalize_entries,
  normalize_recovery_priority, apply_strategy_feedback, base_steps,
}
use ai_agent_starter_kit.Failover.Order.{occurrences, SameSteps, occurrences-elem}
use ai_agent_starter_kit.Common.{
  ◌≡◌, refl, ap, ◌∙◌, ◌⊎◌, inl, inr, Bool, false, Option, none, some, List, [], ◌∷◌, arith,
  Bool-cases, Text, codes, text_eq, text_eq_iff, elem, is_space, lstrip, rstrip, strip, normalize,
}
use ai_agent_starter_kit.Common.Dict.{get, get-put_self}

-- The name that is kept for a retry on the next model.
abbrev pub fallback_retry : Text
fallback_retry = codes "fallback_retry"

normalize_entries-allowed :
    (allowed seen source : List Text) (s : Text)
    → elem s allowed ≡ false
    → elem s (normalize_entries allowed seen source) ≡ false
unfolding normalize_entries elem
normalize_entries-allowed allowed seen [] s h = refl
normalize_entries-allowed allowed seen (value ∷ source) s h = ground (
  arith,
  h,
  text_eq_iff s (normalize value),
  ap (λ t. elem t allowed) {x = s} {y = normalize value},
  normalize_entries-allowed allowed seen source s h,
  normalize_entries-allowed allowed (normalize value ∷ seen) source s h,
)

-- A step that is neither allowed nor a default is not in the list.
abbrev IsNoStep : Text → Option (List Text × List Text × List Text) → Type 0
IsNoStep s none = Unit
IsNoStep s (some (raw, allowed, fallback)) = (elem s allowed ≡ false) × (elem s fallback ≡ false)

config-IsNoStep :
    (cfg : PrioritySettings) (reason : Text) (is_api : Bool)
    → IsNoStep fallback_retry (resolve_reason_priority_config cfg reason is_api)
unfolding resolve_reason_priority_config elem
config-IsNoStep cfg reason is_api = ground arith

base_steps-no_fallback_retry :
    (cfg : PrioritySettings) (ctx : PriorityContext)
    → elem fallback_retry (base_steps cfg ctx) ≡ false
unfolding base_steps
base_steps-no_fallback_retry cfg ctx =
    let is_api = text_eq (normalize ctx.runtime) (codes "api") in
    of_config (resolve_reason_priority_config cfg ctx.reason is_api)
      (config-IsNoStep cfg ctx.reason is_api)
  where
    of_config :
        (o : Option (List Text × List Text × List Text))
        → IsNoStep fallback_retry o
        → elem fallback_retry (elim o as (λ _. List Text) [
          | none ↦ []
          | some (raw_priority, allowed, fallback) ↦
              normalize_recovery_priority raw_priority allowed fallback
        ])
          ≡ false
    of_config none h = unfold elem in refl
    of_config (some (raw, allowed, fallback)) h =
        unfold normalize_recovery_priority in
        ground (arith, h, normalize_entries-allowed allowed [] raw fallback_retry)

occurrences-no_elem : (s : Text) (xs : List Text) → elem s xs ≡ false → occurrences s xs ≡ 0
unfolding elem
occurrences-no_elem s [] h = refl
occurrences-no_elem s (x ∷ xs) h =
    ground (arith, h, text_eq_iff s x, text_eq_iff x s, occurrences-no_elem s xs)

no_elem-occurrences : (s : Text) (xs : List Text) → occurrences s xs ≡ 0 → elem s xs ≡ false
no_elem-occurrences s xs h = elim (Bool-cases (elem s xs)) [
  | inl e ↦ absurd (omega (arith, h, occurrences-elem s xs e))
  | inr e ↦ e
]

feedback-unchanged :
    (cfg : PrioritySettings) (ctx : PriorityContext) (steps : List Text)
    → get ctx.last_failed_strategy_by_reason ctx.reason ≡ some fallback_retry
    → elem fallback_retry steps ≡ false
    → apply_strategy_feedback cfg ctx steps ≡ (steps, false)
unfolding apply_strategy_feedback strip lstrip rstrip is_space
feedback-unchanged cfg ctx steps g e = rw g (ground (arith, e))

count_applied-remembers :
    (applied : Applied) (a : FallbackAttemptState)
    → let a' = count_applied applied a in
      (a'.last_reason ≡ a.last_reason)
      × (a'.last_failed_strategy_by_reason ≡ a.last_failed_strategy_by_reason)
unfolding count_applied
count_applied-remembers nothing a = (refl, refl)
count_applied-remembers overflow_retry a = (refl, refl)
count_applied-remembers compaction_recovery a = (refl, refl)
count_applied-remembers truncation_recovery a = (refl, refl)
count_applied-remembers prompt_compaction a = (refl, refl)
count_applied-remembers payload_truncation a = (refl, refl)

note_strategy-remembers :
    (model : Text) (r : RecoveryStrategyResolution) (a : FallbackAttemptState)
    → strategy_name r.recovery_strategy ≡ some fallback_retry
    → let a' = note_strategy model r a in
      (a'.last_reason ≡ a.last_reason)
      × (get a'.last_failed_strategy_by_reason a.last_reason ≡ some fallback_retry)
unfolding note_strategy
note_strategy-remembers model r a h =
    rw (note_strategy, h)
      (refl, get-put_self a.last_failed_strategy_by_reason a.last_reason fallback_retry)

-- What the machine remembers when the retry on the next model is the strategy.
remembers_retry :
    (model : Text) (r : RecoveryStrategyResolution) (a : FallbackAttemptState)
    → strategy_name r.recovery_strategy ≡ some fallback_retry
    → let a' = take_resolution model r a in
      (a'.last_reason ≡ a.last_reason)
      × (get a'.last_failed_strategy_by_reason a.last_reason ≡ some fallback_retry)
unfolding take_resolution
remembers_retry model r a h = counted _ (note_strategy-remembers model r _ h)
  where
    counted :
        (b : FallbackAttemptState)
        → (b.last_reason ≡ a.last_reason)
          × (get b.last_failed_strategy_by_reason a.last_reason ≡ some fallback_retry)
        → let a' = count_applied r.applied b in
          (a'.last_reason ≡ a.last_reason)
          × (get a'.last_failed_strategy_by_reason a.last_reason ≡ some fallback_retry)
    counted b n =
        let c = count_applied-remembers r.applied b in
        (c.0 ∙ n.0, ap (λ d. get d a.last_reason) c.1 ∙ n.1)

retry-strategy_name :
    (hooks : RecoveryStrategyHooks) (ctx : RecoveryContext)
    → let r = resolve hooks ctx in
      (r.applied ≡ overflow_retry) ⊎ (r.applied ≡ truncation_recovery)
      → strategy_name r.recovery_strategy ≡ some fallback_retry
unfolding strategy_name
retry-strategy_name hooks ctx h =
    by_applied (resolve hooks ctx).applied refl h (resolve-IsJustified hooks ctx)
  where
    by_applied :
        (x : Applied)
        → (resolve hooks ctx).applied ≡ x
        → (x ≡ overflow_retry) ⊎ (x ≡ truncation_recovery)
        → IsJustifiedBy hooks ctx (resolve hooks ctx) x
        → strategy_name (resolve hooks ctx).recovery_strategy ≡ some fallback_retry
    by_applied overflow_retry e h j = let v = j.5 in rw (v.2) refl
    by_applied truncation_recovery e h j = let v = j.5 in rw (v.2) refl
    by_applied nothing e h j = absurd (ground (arith, h))
    by_applied compaction_recovery e h j = absurd (ground (arith, h))
    by_applied prompt_compaction e h j = absurd (ground (arith, h))
    by_applied payload_truncation e h j = absurd (ground (arith, h))

-- When the recovery of a failure is the retry on the next model, the machine remembers it under a
-- name that is no recovery step: the feedback about the last failed strategy then leaves every
-- order of the base steps as it is.
pub feedback_misses_retry :
    (cfg : FallbackRuntimeConfig) (m : Machine)
    → let r = resolve_recovery cfg m in
      (r.applied ≡ overflow_retry) ⊎ (r.applied ≡ truncation_recovery)
      → let m' = record m { attempt = take_resolution m.current_candidate_model r m.attempt } in
        let ctx = priority_context cfg m' in
        (get m'.attempt.last_failed_strategy_by_reason m.attempt.last_reason ≡ some fallback_retry)
        × ((steps : List Text)
            → SameSteps steps (base_steps cfg.priority ctx)
            → apply_strategy_feedback cfg.priority ctx steps ≡ (steps, false))
feedback_misses_retry cfg m h =
    let r = resolve_recovery cfg m in
    let k = remembers_retry m.current_candidate_model r m.attempt (
      unfold resolve_recovery in
      retry-strategy_name (recovery_hooks cfg m) (recovery_context cfg m) h) in
    let m' : Machine = record m {
      attempt = take_resolution m.current_candidate_model r m.attempt;
    } in
    let ctx = priority_context cfg m' in
    let none_in =
      occurrences-no_elem fallback_retry (base_steps cfg.priority ctx)
        (base_steps-no_fallback_retry cfg.priority ctx) in
    (
      k.1,
      λ steps s.
          feedback-unchanged cfg.priority ctx steps (rw (k.0) (k.1))
            (no_elem-occurrences fallback_retry steps (s fallback_retry ∙ none_in)),
    )
