-- ===== src/Failover/Priority.antt =====
-- The order in which the recovery steps of a reason are tried: `_resolve_recovery_priority_steps` of
-- backend/app/orchestrator/pipeline_runner.py with the functions that it calls. Scores, latencies and
-- the decayed weights of the stored outcomes are naturals of a common unit; a ratio of two weights is
-- compared by its cross products. The reading of the metrics file is a function of the settings.
use ai_agent_starter_kit.Common.{
  ℕ, ◌+◌, ◌*◌, max, Bool, true, false, not, ◌&&◌, ◌||◌, Option, none, some, List, [], ◌∷◌, ◌++◌,
  ltb, leb, ◌==◌, if◌then◌else◌, or_else, length, is_empty, filter, Text, codes, text_eq, elem,
  strip, normalize,
}
use ai_agent_starter_kit.Common.Dict.{Dict, get}
use ai_agent_starter_kit.Common.Sort.{sort_with}

-- What `_read_recovery_metric` gives for a model, a reason and a step.
pub record RecoveryMetric : Type 0 where
  pub weighted_success : ℕ
  pub weighted_failure : ℕ
  pub samples : ℕ

-- The settings, with the four lists of steps.
pub record PrioritySettings : Type 0 where
  pub context_overflow_priority_api : List Text
  pub context_overflow_priority_local : List Text
  pub truncation_priority_api : List Text
  pub truncation_priority_local : List Text
  pub flip_enabled : Bool
  pub flip_threshold : ℕ
  pub signal_priority_enabled : Bool
  pub low_health_threshold : ℕ
  pub high_latency_ms : ℕ
  pub high_cost_threshold : ℕ
  pub strategy_feedback_enabled : Bool
  pub persistent_priority_enabled : Bool
  pub persistent_priority_min_samples : ℕ
  pub read_recovery_metric : Text → Text → Text → RecoveryMetric

-- What the order depends on besides the settings.
pub record PriorityContext : Type 0 where
  pub reason : Text
  pub runtime : Text
  pub model_id : Text
  pub reason_streak : ℕ
  pub health_score : ℕ
  pub expected_latency_ms : ℕ
  pub cost_score : ℕ
  pub last_failed_strategy_by_reason : Dict Text

-- `_resolve_reason_priority_config`: the list of the settings, the allowed steps and the default.
unfoldable pub resolve_reason_priority_config :
    PrioritySettings → Text → Bool → Option (List Text × List Text × List Text)
unfolding text_eq
resolve_reason_priority_config cfg reason is_api =
    let compaction = codes "prompt_compaction" in
    let overflow = codes "overflow_fallback_retry" in
    let truncation = codes "payload_truncation" in
    let retry = codes "truncation_fallback_retry" in
    if text_eq reason (codes "context_overflow")
    then some (
      if is_api then cfg.context_overflow_priority_api else cfg.context_overflow_priority_local,
      compaction ∷ overflow ∷ [],
      if is_api then overflow ∷ compaction ∷ [] else compaction ∷ overflow ∷ [],
    )
    else if text_eq reason (codes "truncation_required")
    then some (
      if is_api then cfg.truncation_priority_api else cfg.truncation_priority_local,
      truncation ∷ retry ∷ [],
      if is_api then retry ∷ truncation ∷ [] else truncation ∷ retry ∷ [],
    )
    else none

-- The loop of `_normalize_recovery_priority`, with the set of the entries that it has seen.
unfoldable pub normalize_entries : List Text → List Text → List Text → List Text
unfolding normalize elem
normalize_entries allowed seen [] = []
normalize_entries allowed seen (value ∷ source) =
    let entry = normalize value in
    let skipped = normalize_entries allowed seen source in
    let kept = normalize_entries allowed (entry ∷ seen) source in
    if is_empty entry || not (elem entry allowed) || elem entry seen then skipped else entry ∷ kept

unfoldable pub normalize_recovery_priority : List Text → List Text → List Text → List Text
unfolding normalize_entries
normalize_recovery_priority raw_priority allowed fallback =
    let normalized = normalize_entries allowed [] raw_priority in
    if is_empty normalized then fallback else normalized

-- The steps but one.
unfoldable pub without : Text → List Text → List Text
unfolding text_eq
without step steps = filter (λ item. not (text_eq item step)) steps

-- `[step, *[item for item in steps if item != step]]`, unless the step is in front already.
unfoldable pub prefer : Text → List Text → List Text × Bool
unfolding text_eq without
prefer step [] = ([], false)
prefer step (first ∷ steps) =
    if text_eq first step
    then (first ∷ steps, false)
    else (step ∷ without step (first ∷ steps), true)

-- The step that the signals of the model prefer, by the kind of the reason.
unfoldable pub preferred_step : PrioritySettings → PriorityContext → Text → Text → Option Text
preferred_step cfg ctx fallback transform =
    if ltb ctx.health_score cfg.low_health_threshold
    then some fallback
    else if leb cfg.high_latency_ms ctx.expected_latency_ms
        || leb cfg.high_cost_threshold ctx.cost_score
    then some transform
    else none

-- The same, for the two reasons that have steps.
unfoldable pub signal_preference : PrioritySettings → PriorityContext → Option Text
unfolding text_eq preferred_step
signal_preference cfg ctx =
    if text_eq ctx.reason (codes "context_overflow")
    then preferred_step cfg ctx (codes "overflow_fallback_retry") (codes "prompt_compaction")
    else if text_eq ctx.reason (codes "truncation_required")
    then preferred_step cfg ctx (codes "truncation_fallback_retry") (codes "payload_truncation")
    else none

-- `_apply_signal_priority`
unfoldable pub apply_signal_priority :
    PrioritySettings → PriorityContext → List Text → List Text × Bool
unfolding elem signal_preference prefer
apply_signal_priority cfg ctx steps =
    if not cfg.signal_priority_enabled || ltb (length steps) 2
    then (steps, false)
    else elim (signal_preference cfg ctx) [
      | none ↦ (steps, false)
      | some step ↦ if elem step steps then prefer step steps else (steps, false)
    ]

-- `steps[-1] == step`
unfoldable pub is_last : Text → List Text → Bool
unfolding text_eq
is_last step [] = false
is_last step (s ∷ []) = text_eq s step
is_last step (s ∷ t ∷ steps) = is_last step (t ∷ steps)

-- `_apply_strategy_feedback`
unfoldable pub apply_strategy_feedback :
    PrioritySettings → PriorityContext → List Text → List Text × Bool
unfolding strip get elem is_last without
apply_strategy_feedback cfg ctx steps =
    let failed = strip (or_else [] (get ctx.last_failed_strategy_by_reason ctx.reason)) in
    if not cfg.strategy_feedback_enabled
      || ltb (length steps) 2
      || is_empty failed
      || not (elem failed steps)
      || is_last failed steps
    then (steps, false)
    else (without failed steps ++ failed ∷ [], true)

-- The steps with enough samples, with their metrics.
unfoldable pub candidate_stats :
    PrioritySettings → PriorityContext → List Text → List (Text × RecoveryMetric)
candidate_stats cfg ctx [] = []
candidate_stats cfg ctx (step ∷ steps) =
    let m = cfg.read_recovery_metric ctx.model_id ctx.reason step in
    let rest = candidate_stats cfg ctx steps in
    if ltb m.samples (max 1 cfg.persistent_priority_min_samples)
      || (m.weighted_success + m.weighted_failure == 0)
    then rest
    else (step, m) ∷ rest

-- The order by `(score, samples)`, the better one first.
abbrev pub is_as_good : Text × RecoveryMetric → Text × RecoveryMetric → Bool
is_as_good (s, a) (t, b) =
    let x = a.weighted_success * (b.weighted_success + b.weighted_failure) in
    let y = b.weighted_success * (a.weighted_success + a.weighted_failure) in
    ltb y x || (x == y && leb b.samples a.samples)

-- `_apply_persistent_metrics_priority`
unfoldable pub apply_persistent_metrics_priority :
    PrioritySettings → PriorityContext → List Text → List Text × Bool
unfolding candidate_stats prefer
apply_persistent_metrics_priority cfg ctx steps =
    if not cfg.persistent_priority_enabled || ltb (length steps) 2
    then (steps, false)
    else elim (sort_with is_as_good (candidate_stats cfg ctx steps)) [
      | [] ↦ (steps, false)
      | best ∷ _ ↦ prefer best.0 steps
    ]

-- `(*steps[1:], steps[0])`
abbrev pub rotate : List Text → List Text
rotate [] = []
rotate (s ∷ steps) = steps ++ s ∷ []

-- `_apply_priority_flip`
unfoldable pub apply_priority_flip : PrioritySettings → ℕ → Bool → List Text → List Text × Bool
apply_priority_flip cfg reason_streak already_overridden steps =
    if already_overridden
    then (steps, true)
    else if not cfg.flip_enabled
        || ltb reason_streak (max 2 cfg.flip_threshold)
        || ltb (length steps) 2
    then (steps, false)
    else (rotate steps, true)

-- `_apply_priority_recovery_pipeline`, with the flag whether the order was overridden.
unfoldable pub apply_priority_recovery_pipeline :
    PrioritySettings → PriorityContext → List Text → List Text × Bool
unfolding apply_signal_priority apply_strategy_feedback apply_persistent_metrics_priority
    apply_priority_flip
apply_priority_recovery_pipeline cfg ctx base_steps =
    let signal = apply_signal_priority cfg ctx base_steps in
    let feedback = apply_strategy_feedback cfg ctx signal.0 in
    let persistent = apply_persistent_metrics_priority cfg ctx feedback.0 in
    apply_priority_flip cfg ctx.reason_streak (signal.1 || feedback.1 || persistent.1) persistent.0

-- The steps of a reason before they are reordered.
unfoldable pub base_steps : PrioritySettings → PriorityContext → List Text
unfolding normalize text_eq resolve_reason_priority_config normalize_recovery_priority
base_steps cfg ctx =
    elim (resolve_reason_priority_config cfg ctx.reason
      (text_eq (normalize ctx.runtime) (codes "api"))) [
        | none ↦ []
        | some (raw_priority, allowed, fallback) ↦
            normalize_recovery_priority raw_priority allowed fallback
      ]

-- `_resolve_recovery_priority_steps`, which does nothing for the other reasons.
unfoldable pub resolve_recovery_priority_steps : PrioritySettings → PriorityContext → List Text
unfolding base_steps apply_priority_recovery_pipeline
resolve_recovery_priority_steps cfg ctx =
    let base = base_steps cfg ctx in
    if is_empty base then [] else (apply_priority_recovery_pipeline cfg ctx base).0
