-- ===== src/Failover/Metrics.antt =====
-- The outcomes of the recovery steps that backend/app/orchestrator/pipeline_runner.py stores by reason,
-- model and step: `_record_recovery_metric` and `_read_recovery_metric`. The file is the state, as these
-- two leave it; the decay `0.5 ** (age / half_life)` is a function of the age, in the unit of the scores.
use ai_agent_starter_kit.Failover.Priority.{RecoveryMetric}
use ai_agent_starter_kit.Common.{
  ℕ, suc, ◌+◌, ◌-◌, ◌*◌, max, Bool, true, false, not, ◌||◌, none, some, List, [], ◌∷◌, ◌++◌, ltb,
  ◌==◌, if◌then◌else◌, or_else, length, is_empty, drop, filter, Text, codes, text_eq, elem,
  normalize,
}
use ai_agent_starter_kit.Common.Dict.{Dict, get, put}
use ai_agent_starter_kit.Common.Sort.{sort_by}

pub record Event : Type 0 where
  pub is_success : Bool
  pub ts : ℕ

pub record StrategyBucket : Type 0 where
  pub success : ℕ
  pub failure : ℕ
  pub last_updated_ts : ℕ
  pub events : List Event

abbrev pub Metrics : Type 0
Metrics = Dict (Dict (Dict StrategyBucket))

pub record WindowSettings : Type 0 where
  pub window_max_age_seconds : ℕ
  pub window_size : ℕ
  pub decay_enabled : Bool
  pub decay : ℕ → ℕ
  pub unit : ℕ

abbrev pub new_bucket : StrategyBucket
new_bucket = record { success = 0; failure = 0; last_updated_ts = 0; events = [] }

-- `not (ts <= 0 or ts < cutoff)`
abbrev pub is_fresh : WindowSettings → ℕ → Event → Bool
is_fresh cfg now e = not (e.ts == 0 || ltb (e.ts + max 1 cfg.window_max_age_seconds) now)

-- `events[-n:]`
abbrev pub last_of : ℕ → List Event → List Event
last_of n events = drop (length events - n) events

-- `_prune_metric_events`
unfoldable pub prune_metric_events : WindowSettings → ℕ → List Event → List Event
unfolding sort_by
prune_metric_events cfg now events =
    let filtered = sort_by (λ e. e.ts) (filter (is_fresh cfg now) events) in
    if ltb (max 1 cfg.window_size) (length filtered)
    then last_of (max 1 cfg.window_size) filtered
    else filtered

abbrev pub weight : WindowSettings → ℕ → ℕ → ℕ
weight cfg now ts = if cfg.decay_enabled then cfg.decay (now - ts) else cfg.unit

-- One of the two sums of `_compute_weighted_event_stats`.
unfoldable pub weighted_sum : WindowSettings → ℕ → Bool → List Event → ℕ
weighted_sum cfg now b [] = 0
weighted_sum cfg now b (e ∷ events) =
    let rest = weighted_sum cfg now b events in
    if e.ts == 0 || not (is_same b e.is_success) then rest else weight cfg now e.ts + rest
  where
    is_same : Bool → Bool → Bool
    is_same true c = c
    is_same false c = not c

-- What is read where no event is left: the counters.
unfoldable pub lifetime_metric : WindowSettings → ℕ → StrategyBucket → RecoveryMetric
lifetime_metric cfg now b =
    let w = if b.last_updated_ts == 0 then cfg.unit else weight cfg now b.last_updated_ts in
    record {
      weighted_success = b.success * w;
      weighted_failure = b.failure * w;
      samples = b.success + b.failure;
    }

-- The part of `_read_recovery_metric` on one bucket, which writes the pruned events back.
unfoldable pub read_bucket : WindowSettings → ℕ → StrategyBucket → StrategyBucket × RecoveryMetric
unfolding prune_metric_events weighted_sum lifetime_metric
read_bucket cfg now b =
    let pruned = prune_metric_events cfg now b.events in
    let metric : RecoveryMetric = record {
      weighted_success = weighted_sum cfg now true pruned;
      weighted_failure = weighted_sum cfg now false pruned;
      samples = length pruned;
    } in
    (record b { events = pruned }, if is_empty pruned then lifetime_metric cfg now b else metric)

-- The part of `_record_recovery_metric` on one bucket.
unfoldable pub record_outcome : WindowSettings → ℕ → Bool → StrategyBucket → StrategyBucket
unfolding prune_metric_events
record_outcome cfg now ok b =
    let event : Event = record { is_success = ok; ts = now } in
    record {
      success = if ok then suc b.success else b.success;
      failure = if ok then b.failure else suc b.failure;
      last_updated_ts = now;
      events = prune_metric_events cfg now (b.events ++ event ∷ []);
    }

unfoldable pub reason_bucket : Metrics → Text → Dict (Dict StrategyBucket)
unfolding get
reason_bucket metrics reason = or_else [] (get metrics reason)

unfoldable pub model_bucket : Metrics → Text → Text → Dict StrategyBucket
unfolding get reason_bucket
model_bucket metrics reason model = or_else [] (get (reason_bucket metrics reason) model)

unfoldable pub store_bucket : Metrics → Text → Text → Text → StrategyBucket → Metrics
unfolding put reason_bucket model_bucket
store_bucket metrics reason model strategy b =
    put metrics reason (
      put (reason_bucket metrics reason) model (put (model_bucket metrics reason model) strategy b))

-- `_record_recovery_metric`
unfoldable pub record_recovery_metric :
    WindowSettings → ℕ → Text → Text → Text → Text → Metrics → Metrics
unfolding get normalize elem text_eq model_bucket record_outcome store_bucket
record_recovery_metric cfg now model_id reason strategy outcome metrics =
    let m = normalize model_id in
    let r = normalize reason in
    let s = normalize strategy in
    let o = normalize outcome in
    let bucket = or_else new_bucket (get (model_bucket metrics r m) s) in
    if not (elem o (codes "success" ∷ codes "failure" ∷ []))
    then metrics
    else if is_empty m || is_empty r || is_empty s
    then metrics
    else store_bucket metrics r m s (record_outcome cfg now (text_eq o (codes "success")) bucket)

abbrev pub empty_metric : RecoveryMetric
empty_metric = record { weighted_success = 0; weighted_failure = 0; samples = 0 }

-- `_read_recovery_metric`
unfoldable pub read_recovery_metric :
    WindowSettings → ℕ → Text → Text → Text → Metrics → Metrics × RecoveryMetric
unfolding get normalize model_bucket read_bucket store_bucket
read_recovery_metric cfg now model_id reason strategy metrics =
    let m = normalize model_id in
    let r = normalize reason in
    let s = normalize strategy in
    elim (get (model_bucket metrics r m) s) [
      | none ↦ (metrics, empty_metric)
      | some b ↦
          let (left, metric) = read_bucket cfg now b in (store_bucket metrics r m s left, metric)
    ]
