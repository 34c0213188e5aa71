-- ===== src/Failover/Examples.antt =====
-- The order of the recovery steps and the shortened messages on concrete settings.
use ai_agent_starter_kit.Failover.{classify_failover_reason}
use ai_agent_starter_kit.Failover.Priority.{
  RecoveryMetric, PrioritySettings, PriorityContext, base_steps, resolve_recovery_priority_steps,
}
use ai_agent_starter_kit.Failover.Order.{SameSteps, HasNoRepeats, recovery_steps-SameSteps}
use ai_agent_starter_kit.Failover.Metrics.{
  Event, StrategyBucket, WindowSettings, is_fresh, read_bucket,
}
use ai_agent_starter_kit.Failover.Outcomes.{read_samples_exact}
use ai_agent_starter_kit.Failover.Consistency.{
  AreConsistent, MetricCall, record_call, read_call, metric_run, metric_run-AreConsistent,
}
use ai_agent_starter_kit.Common.{
  min, ◌≡◌, refl, true, false, List, [], ◌∷◌, ◌==◌, if◌then◌else◌, length, filter, Text, codes,
}
use ai_agent_starter_kit.Common.Sort.{sort_with}

abbrev no_metric : Text → Text → Text → RecoveryMetric
no_metric model reason step = record { weighted_success = 0; weighted_failure = 0; samples = 0 }

abbrev settings : PrioritySettings
settings = record {
  context_overflow_priority_api = [];
  context_overflow_priority_local =
      codes " Prompt_Compaction" ∷ codes "prompt_compaction" ∷ codes "nap" ∷ [];
  truncation_priority_api = [];
  truncation_priority_local = [];
  flip_enabled = true;
  flip_threshold = 2;
  signal_priority_enabled = true;
  low_health_threshold = 50;
  high_latency_ms = 2000;
  high_cost_threshold = 70;
  strategy_feedback_enabled = true;
  persistent_priority_enabled = true;
  persistent_priority_min_samples = 3;
  read_recovery_metric = no_metric;
}

-- An overflow on a slow model, where compaction failed before.
abbrev slow : PriorityContext
slow = record {
  reason = codes "context_overflow";
  runtime = codes "api";
  model_id = codes "llama";
  reason_streak = 1;
  health_score = 90;
  expected_latency_ms = 3000;
  cost_score = 10;
  last_failed_strategy_by_reason = (codes "context_overflow", codes "prompt_compaction") ∷ [];
}

slow_order :
    resolve_recovery_priority_steps settings slow
    ≡ codes "overflow_fallback_retry" ∷ codes "prompt_compaction" ∷ []
unfolding resolve_recovery_priority_steps sort_with
slow_order = refl

local_order :
    base_steps settings (record slow { runtime = codes "local" }) ≡ codes "prompt_compaction" ∷ []
unfolding base_steps
local_order = refl

recovery_steps-SameSteps_example :
    SameSteps (resolve_recovery_priority_steps settings slow) (base_steps settings slow)
    × HasNoRepeats (base_steps settings slow)
recovery_steps-SameSteps_example = recovery_steps-SameSteps settings slow

classified_overflow : classify_failover_reason (codes "Prompt too long") ≡ codes "context_overflow"
unfolding classify_failover_reason
classified_overflow = refl

classified_missing :
    classify_failover_reason (codes "Model x was Not Found") ≡ codes "model_not_found"
unfolding classify_failover_reason
classified_missing = refl

abbrev three_events : WindowSettings
three_events = record {
  window_max_age_seconds = 60;
  window_size = 3;
  decay_enabled = false;
  decay = λ age. 1;
  unit = 1;
}

abbrev one_success : Event
one_success = record { is_success = true; ts = 100 }

abbrev old_bucket : StrategyBucket
old_bucket = record { success = 9; failure = 0; last_updated_ts = 100; events = one_success ∷ [] }

read_samples_exact_example : (read_bucket three_events 200 old_bucket).1.samples ≡ (
    if length (filter (is_fresh three_events 200) (one_success ∷ [])) == 0
    then 9
    else min 3 (length (filter (is_fresh three_events 200) (one_success ∷ []))))
read_samples_exact_example = read_samples_exact three_events 200 old_bucket

-- One outcome is read while it is fresh, and all nine when it is not.
stale_reads_more :
    ((read_bucket three_events 150 old_bucket).1.samples ≡ 1)
    × ((read_bucket three_events 200 old_bucket).1.samples ≡ 9)
unfolding read_bucket
stale_reads_more = (refl, refl)

abbrev some_calls : List MetricCall
some_calls =
    record_call 100 (codes "M ") (codes "context_overflow") (codes "prompt_compaction")
      (codes "Success")
    ∷ read_call 110 (codes "m") (codes "context_overflow") (codes "prompt_compaction")
    ∷ []

metric_run-AreConsistent_example :
    AreConsistent three_events (metric_run three_events some_calls [])
metric_run-AreConsistent_example = metric_run-AreConsistent three_events some_calls [] tt
