-- ===== src/Failover/Order.antt =====
-- Reordering the recovery steps neither drops a step nor repeats one.
use ai_agent_starter_kit.Failover.Priority.{
  RecoveryMetric, PrioritySettings, PriorityContext, resolve_reason_priority_config,
  normalize_entries, normalize_recovery_priority, without, prefer, signal_preference,
  apply_signal_priority, apply_strategy_feedback, candidate_stats, is_as_good,
  apply_persistent_metrics_priority, rotate, apply_priority_flip, apply_priority_recovery_pipeline,
  base_steps, resolve_recovery_priority_steps,
}
use ai_agent_starter_kit.Common.{
  ℕ, ◌+◌, ◌≤◌, ◌≡◌, refl, ap, ◌∙◌, Bool, true, false, not, ◌||◌, Option, none, some, List, [], ◌∷◌,
  ◌++◌, arith, ltb, if◌then◌else◌, or_else, length, is_empty, All, Text, codes, text_eq,
  text_eq_iff, text_eq_refl, elem, strip, normalize,
}
use ai_agent_starter_kit.Common.Dict.{get}
use ai_agent_starter_kit.Common.Sort.{sort_with, All-sort_with}

abbrev pub occurrences : Text → List Text → ℕ
occurrences s [] = 0
occurrences s (t ∷ ts) = (if text_eq t s then 1 else 0) + occurrences s ts

abbrev pub SameSteps : List Text → List Text → Type 0
SameSteps xs ys = (s : Text) → occurrences s xs ≡ occurrences s ys

abbrev pub HasNoRepeats : List Text → Type 0
HasNoRepeats xs = (s : Text) → occurrences s xs ≤ 1

occurrences-append :
    (s : Text) (xs ys : List Text) → occurrences s (xs ++ ys) ≡ occurrences s xs + occurrences s ys
occurrences-append s [] ys = omega arith
occurrences-append s (x ∷ xs) ys = omega (arith, occurrences-append s xs ys)

occurrences-without :
    (s t : Text) (xs : List Text)
    → occurrences s (without t xs) ≡ (if text_eq t s then 0 else occurrences s xs)
unfolding without
occurrences-without s t [] = ground arith
occurrences-without s t (x ∷ xs) =
    ground (arith, occurrences-without s t xs, text_eq_iff x t, text_eq_iff x s, text_eq_iff t s)

pub occurrences-elem : (s : Text) (xs : List Text) → elem s xs ≡ true → 1 ≤ occurrences s xs
unfolding elem
occurrences-elem s [] h = cc
occurrences-elem s (x ∷ xs) h =
    ground (arith, h, text_eq_iff s x, text_eq_iff x s, occurrences-elem s xs)

prefer-SameSteps : (s : Text) (xs : List Text) → occurrences s xs ≡ 1 → SameSteps (prefer s xs).0 xs
unfolding prefer
prefer-SameSteps s [] h t = refl
prefer-SameSteps s (x ∷ xs) h t = ground (
  arith,
  h,
  occurrences-without t s (x ∷ xs),
  text_eq_iff s t,
  ap (λ u. occurrences u (x ∷ xs)) {x = s} {y = t},
)

demote-SameSteps :
    (s : Text) (xs : List Text) → occurrences s xs ≡ 1 → SameSteps (without s xs ++ s ∷ []) xs
demote-SameSteps s xs h t = ground (
  arith,
  h,
  occurrences-append t (without s xs) (s ∷ []),
  occurrences-without t s xs,
  text_eq_iff s t,
  ap (λ u. occurrences u xs) {x = s} {y = t},
)

rotate-SameSteps : (xs : List Text) → SameSteps (rotate xs) xs
rotate-SameSteps [] t = refl
rotate-SameSteps (x ∷ xs) t = omega (arith, occurrences-append t xs (x ∷ []))

occurs_once :
    (s : Text) (xs : List Text) → HasNoRepeats xs → elem s xs ≡ true → occurrences s xs ≡ 1
occurs_once s xs n e = omega (arith, n s, occurrences-elem s xs e)

signal-SameSteps :
    (cfg : PrioritySettings) (ctx : PriorityContext) (xs : List Text)
    → HasNoRepeats xs
    → SameSteps (apply_signal_priority cfg ctx xs).0 xs
unfolding apply_signal_priority
signal-SameSteps cfg ctx xs n t = by_preference (signal_preference cfg ctx)
  where
    chosen :
        (s : Text)
        → occurrences t (if elem s xs then prefer s xs else (xs, false)).0 ≡ occurrences t xs
    chosen s =
        ground (arith, occurs_once s xs n, λ (h : occurrences s xs ≡ 1). prefer-SameSteps s xs h t)

    by_preference :
        (o : Option Text)
        → occurrences t
            (if not cfg.signal_priority_enabled || ltb (length xs) 2
              then (xs, false)
              else elim o as (λ _. List Text × Bool) [
                | none ↦ (xs, false)
                | some step ↦ if elem step xs then prefer step xs else (xs, false)
              ]).0
          ≡ occurrences t xs
    by_preference none = ground arith
    by_preference (some s) = ground (arith, chosen s)

feedback-SameSteps :
    (cfg : PrioritySettings) (ctx : PriorityContext) (xs : List Text)
    → HasNoRepeats xs
    → SameSteps (apply_strategy_feedback cfg ctx xs).0 xs
unfolding apply_strategy_feedback
feedback-SameSteps cfg ctx xs n t =
    let failed = strip (or_else [] (get ctx.last_failed_strategy_by_reason ctx.reason)) in
    ground (
      arith,
      occurs_once failed xs n,
      λ (h : occurrences failed xs ≡ 1). demote-SameSteps failed xs h t,
    )

candidate_stats-steps :
    (cfg : PrioritySettings) (ctx : PriorityContext) (all_steps xs : List Text)
    → ((s : Text) → elem s xs ≡ true → elem s all_steps ≡ true)
    → All (λ (e : Text × RecoveryMetric). elem e.0 all_steps ≡ true) (candidate_stats cfg ctx xs)
unfolding candidate_stats elem
candidate_stats-steps cfg ctx all_steps [] h = tt
candidate_stats-steps cfg ctx all_steps (x ∷ xs) h = ground (
  arith,
  h x,
  text_eq_refl x,
  candidate_stats-steps cfg ctx all_steps xs (λ s e. h s (ground (arith, e))),
)

persistent-SameSteps :
    (cfg : PrioritySettings) (ctx : PriorityContext) (xs : List Text)
    → HasNoRepeats xs
    → SameSteps (apply_persistent_metrics_priority cfg ctx xs).0 xs
unfolding apply_persistent_metrics_priority
persistent-SameSteps cfg ctx xs n t = by_best (sort_with is_as_good (candidate_stats cfg ctx xs)) (
    All-sort_with is_as_good (λ (e : Text × RecoveryMetric). elem e.0 xs ≡ true)
      (candidate_stats cfg ctx xs) (candidate_stats-steps cfg ctx xs xs (λ s e. e)))
  where
    by_best :
        (stats : List (Text × RecoveryMetric))
        → All (λ (e : Text × RecoveryMetric). elem e.0 xs ≡ true) stats
        → occurrences t
            (if not cfg.persistent_priority_enabled || ltb (length xs) 2
              then (xs, false)
              else elim stats as (λ _. List Text × Bool) [
                | [] ↦ (xs, false)
                | best ∷ _ ↦ prefer best.0 xs
              ]).0
          ≡ occurrences t xs
    by_best [] h = ground arith
    by_best (best ∷ rest) h =
        ground (arith, prefer-SameSteps best.0 xs (occurs_once best.0 xs n h.0) t)

flip-SameSteps :
    (cfg : PrioritySettings) (n : ℕ) (o : Bool) (xs : List Text)
    → SameSteps (apply_priority_flip cfg n o xs).0 xs
unfolding apply_priority_flip
flip-SameSteps cfg n o xs t = ground (arith, rotate-SameSteps xs t)

normalize_entries-counts :
    (allowed seen source : List Text) (s : Text)
    → occurrences s (normalize_entries allowed seen source) ≤ (if elem s seen then 0 else 1)
unfolding normalize_entries elem
normalize_entries-counts allowed seen [] s = ground arith
normalize_entries-counts allowed seen (v ∷ source) s = ground (
  arith,
  normalize_entries-counts allowed seen source s,
  normalize_entries-counts allowed (normalize v ∷ seen) source s,
  text_eq_iff (normalize v) s,
  text_eq_iff s (normalize v),
  ap (λ u. elem u seen) {x = normalize v} {y = s},
)

normalize-HasNoRepeats :
    (raw allowed fallback : List Text)
    → HasNoRepeats fallback
    → HasNoRepeats (normalize_recovery_priority raw allowed fallback)
unfolding normalize_recovery_priority elem
normalize-HasNoRepeats raw allowed fallback n s =
    ground (arith, n s, normalize_entries-counts allowed [] raw s)

two_steps-HasNoRepeats : (a b : Text) → text_eq a b ≡ false → HasNoRepeats (a ∷ b ∷ [])
two_steps-HasNoRepeats a b h s =
    ground (arith, h, text_eq_iff a s, text_eq_iff b s, text_eq_iff a b)

-- The default order of a reason, if it has one, has no repeats.
abbrev DefaultHasNoRepeats : Option (List Text × List Text × List Text) → Type 0
DefaultHasNoRepeats none = Unit
DefaultHasNoRepeats (some (raw, allowed, fallback)) = HasNoRepeats fallback

config-DefaultHasNoRepeats :
    (cfg : PrioritySettings) (reason : Text) (is_api : Bool)
    → DefaultHasNoRepeats (resolve_reason_priority_config cfg reason is_api)
unfolding resolve_reason_priority_config text_eq
config-DefaultHasNoRepeats cfg reason is_api =
    by_reason (text_eq reason (codes "context_overflow"))
      (text_eq reason (codes "truncation_required")) is_api
  where
    by_reason :
        (a b api : Bool)
        → DefaultHasNoRepeats (
            if a
            then some (
              if api
                  then cfg.context_overflow_priority_api
                  else cfg.context_overflow_priority_local,
              codes "prompt_compaction" ∷ codes "overflow_fallback_retry" ∷ [],
              if api
                  then codes "overflow_fallback_retry" ∷ codes "prompt_compaction" ∷ []
                  else codes "prompt_compaction" ∷ codes "overflow_fallback_retry" ∷ [],
            )
            else if b
            then some (
              if api then cfg.truncation_priority_api else cfg.truncation_priority_local,
              codes "payload_truncation" ∷ codes "truncation_fallback_retry" ∷ [],
              if api
                  then codes "truncation_fallback_retry" ∷ codes "payload_truncation" ∷ []
                  else codes "payload_truncation" ∷ codes "truncation_fallback_retry" ∷ [],
            )
            else none)
    by_reason true b true =
        two_steps-HasNoRepeats (codes "overflow_fallback_retry") (codes "prompt_compaction") refl
    by_reason true b false =
        two_steps-HasNoRepeats (codes "prompt_compaction") (codes "overflow_fallback_retry") refl
    by_reason false true true =
        two_steps-HasNoRepeats (codes "truncation_fallback_retry") (codes "payload_truncation") refl
    by_reason false true false =
        two_steps-HasNoRepeats (codes "payload_truncation") (codes "truncation_fallback_retry") refl
    by_reason false false api = tt

base_steps-HasNoRepeats :
    (cfg : PrioritySettings) (ctx : PriorityContext) → HasNoRepeats (base_steps cfg ctx)
unfolding base_steps
base_steps-HasNoRepeats cfg ctx =
    let is_api = text_eq (normalize ctx.runtime) (codes "api") in
    of_config (resolve_reason_priority_config cfg ctx.reason is_api)
      (config-DefaultHasNoRepeats cfg ctx.reason is_api)
  where
    of_config :
        (o : Option (List Text × List Text × List Text))
        → DefaultHasNoRepeats o
        → HasNoRepeats (elim o as (λ _. List Text) [
          | none ↦ []
          | some (raw_priority, allowed, fallback) ↦
              normalize_recovery_priority raw_priority allowed fallback
        ])
    of_config none h = λ s. omega arith
    of_config (some (raw, allowed, fallback)) h = normalize-HasNoRepeats raw allowed fallback h

pipeline-SameSteps :
    (cfg : PrioritySettings) (ctx : PriorityContext) (xs : List Text)
    → HasNoRepeats xs
    → SameSteps (apply_priority_recovery_pipeline cfg ctx xs).0 xs
unfolding apply_priority_recovery_pipeline
pipeline-SameSteps cfg ctx xs n t =
    let a = apply_signal_priority cfg ctx xs in
    let b = apply_strategy_feedback cfg ctx a.0 in
    let c = apply_persistent_metrics_priority cfg ctx b.0 in
    let sa = signal-SameSteps cfg ctx xs n in
    let na : HasNoRepeats a.0 = λ s. omega (arith, sa s, n s) in
    let sb = feedback-SameSteps cfg ctx a.0 na in
    let nb : HasNoRepeats b.0 = λ s. omega (arith, sb s, na s) in
    let sc = persistent-SameSteps cfg ctx b.0 nb in
    flip-SameSteps cfg ctx.reason_streak (a.1 || b.1 || c.1) c.0 t ∙ sc t ∙ sb t ∙ sa t

-- The order that is tried has each base step exactly once, where the base steps are those of the
-- settings for the reason and the runtime, or the default ones: what the signals of the model, the last
-- failed strategy, the stored outcomes and a run of equal failures do to the order neither drops a
-- step nor repeats one.
pub recovery_steps-SameSteps :
    (cfg : PrioritySettings) (ctx : PriorityContext)
    → SameSteps (resolve_recovery_priority_steps cfg ctx) (base_steps cfg ctx)
      × HasNoRepeats (base_steps cfg ctx)
unfolding resolve_recovery_priority_steps
recovery_steps-SameSteps cfg ctx = (same, base_steps-HasNoRepeats cfg ctx)
  where
    empty_steps : (xs : List Text) (t : Text) → is_empty xs ≡ true → occurrences t xs ≡ 0
    empty_steps [] t h = refl
    empty_steps (x ∷ xs) t h = cc h

    same : SameSteps (resolve_recovery_priority_steps cfg ctx) (base_steps cfg ctx)
    same t = ground (
      arith,
      pipeline-SameSteps cfg ctx (base_steps cfg ctx) (base_steps-HasNoRepeats cfg ctx) t,
      empty_steps (base_steps cfg ctx) t,
    )
