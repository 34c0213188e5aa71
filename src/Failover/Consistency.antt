-- ===== src/Failover/Consistency.antt =====
-- The counters of the stored outcomes and the events beside them.
-- The counters cover the events, and the events fit into the window.
use ai_agent_starter_kit.Failover.Priority.{RecoveryMetric}
use ai_agent_starter_kit.Failover.Metrics.{
  Event, StrategyBucket, Metrics, WindowSettings, new_bucket, read_bucket, record_outcome,
  reason_bucket, model_bucket, store_bucket, record_recovery_metric, empty_metric,
  read_recovery_metric,
}
use ai_agent_starter_kit.Failover.Outcomes.{count, count-append, count-prune-le, length-prune}
use ai_agent_starter_kit.Common.{
  ℕ, ◌≤◌, max, ◌≡◌, refl, inl, inr, Bool, true, false, not, ◌||◌, Option, none, some, List, [], ◌∷◌,
  ◌++◌, arith, if◌then◌else◌, Option-cases, or_else, length, is_empty, All, Text, codes, text_eq,
  elem, normalize,
}
use ai_agent_starter_kit.Common.Dict.{get, put, All-put, All-get}

abbrev pub IsConsistent : WindowSettings → StrategyBucket → Type 0
IsConsistent cfg b =
    (count true b.events ≤ b.success)
    × (count false b.events ≤ b.failure)
    × (length b.events ≤ max 1 cfg.window_size)

-- The same of every bucket.
abbrev pub AreConsistent : WindowSettings → Metrics → Type 0
AreConsistent cfg metrics = All (λ r. All (λ m. All (λ s. IsConsistent cfg s.1) m.1) r.1) metrics

read_bucket-IsConsistent :
    (cfg : WindowSettings) (now : ℕ) (b : StrategyBucket)
    → IsConsistent cfg b
    → IsConsistent cfg (read_bucket cfg now b).0
unfolding read_bucket
read_bucket-IsConsistent cfg now b h = ground (
  arith,
  h,
  count-prune-le cfg now true b.events,
  count-prune-le cfg now false b.events,
  length-prune cfg now b.events,
)

record_outcome-IsConsistent :
    (cfg : WindowSettings) (now : ℕ) (o : Bool) (b : StrategyBucket)
    → IsConsistent cfg b
    → IsConsistent cfg (record_outcome cfg now o b)
unfolding record_outcome count
record_outcome-IsConsistent cfg now o b h =
    let event : Event = record { is_success = o; ts = now } in
    let es : List Event = b.events ++ event ∷ [] in
    ground (
      arith,
      h,
      count-prune-le cfg now true es,
      count-prune-le cfg now false es,
      count-append true b.events (event ∷ []),
      count-append false b.events (event ∷ []),
      length-prune cfg now es,
    )

reason_bucket-AreConsistent :
    (cfg : WindowSettings) (metrics : Metrics) (r : Text)
    → AreConsistent cfg metrics
    → All (λ m. All (λ s. IsConsistent cfg s.1) m.1) (reason_bucket metrics r)
unfolding reason_bucket
reason_bucket-AreConsistent cfg metrics r h = elim (Option-cases (get metrics r)) [
  | inl e ↦ rw e tt
  | inr (d, e) ↦
      rw e (All-get (λ r. All (λ m. All (λ s. IsConsistent cfg s.1) m.1) r.1) metrics r d h e)
]

model_bucket-AreConsistent :
    (cfg : WindowSettings) (metrics : Metrics) (r m : Text)
    → AreConsistent cfg metrics
    → All (λ s. IsConsistent cfg s.1) (model_bucket metrics r m)
unfolding model_bucket
model_bucket-AreConsistent cfg metrics r m h =
    elim (Option-cases (get (reason_bucket metrics r) m)) [
      | inl e ↦ rw e tt
      | inr (d, e) ↦ rw e (
          All-get (λ m. All (λ s. IsConsistent cfg s.1) m.1) (reason_bucket metrics r) m d
            (reason_bucket-AreConsistent cfg metrics r h) e)
    ]

store_bucket-AreConsistent :
    (cfg : WindowSettings) (metrics : Metrics) (r m s : Text) (b : StrategyBucket)
    → AreConsistent cfg metrics
    → IsConsistent cfg b
    → AreConsistent cfg (store_bucket metrics r m s b)
unfolding store_bucket
store_bucket-AreConsistent cfg metrics r m s b h c =
    All-put (λ r. All (λ m. All (λ s. IsConsistent cfg s.1) m.1) r.1) metrics r
      (put (reason_bucket metrics r) m (put (model_bucket metrics r m) s b)) h
      (All-put (λ m. All (λ s. IsConsistent cfg s.1) m.1) (reason_bucket metrics r) m
        (put (model_bucket metrics r m) s b) (reason_bucket-AreConsistent cfg metrics r h)
        (All-put (λ s. IsConsistent cfg s.1) (model_bucket metrics r m) s b
          (model_bucket-AreConsistent cfg metrics r m h) c))

old_or_new-IsConsistent :
    (cfg : WindowSettings) (metrics : Metrics) (r m s : Text)
    → AreConsistent cfg metrics
    → IsConsistent cfg (or_else new_bucket (get (model_bucket metrics r m) s))
unfolding count
old_or_new-IsConsistent cfg metrics r m s h =
    elim (Option-cases (get (model_bucket metrics r m) s)) [
      | inl e ↦ rw e (omega arith, omega arith, omega arith)
      | inr (b, e) ↦ rw e (
          All-get (λ s. IsConsistent cfg s.1) (model_bucket metrics r m) s b
            (model_bucket-AreConsistent cfg metrics r m h) e)
    ]

either-AreConsistent :
    (cfg : WindowSettings) (c : Bool) (x y : Metrics)
    → AreConsistent cfg x
    → AreConsistent cfg y
    → AreConsistent cfg (if c then x else y)
either-AreConsistent cfg true x y hx hy = hx
either-AreConsistent cfg false x y hx hy = hy

record_metric-AreConsistent :
    (cfg : WindowSettings) (now : ℕ) (model_id reason strategy outcome : Text) (metrics : Metrics)
    → AreConsistent cfg metrics
    → AreConsistent cfg (record_recovery_metric cfg now model_id reason strategy outcome metrics)
unfolding record_recovery_metric
record_metric-AreConsistent cfg now model_id reason strategy outcome metrics h =
    let m = normalize model_id in
    let r = normalize reason in
    let s = normalize strategy in
    let o = normalize outcome in
    let old = or_else new_bucket (get (model_bucket metrics r m) s) in
    let new = record_outcome cfg now (text_eq o (codes "success")) old in
    either-AreConsistent cfg (not (elem o (codes "success" ∷ codes "failure" ∷ []))) metrics
      (if is_empty m || is_empty r || is_empty s then metrics else store_bucket metrics r m s new) h
      (either-AreConsistent cfg (is_empty m || is_empty r || is_empty s) metrics
        (store_bucket metrics r m s new) h
        (store_bucket-AreConsistent cfg metrics r m s new h (
          record_outcome-IsConsistent cfg now (text_eq o (codes "success")) old
            (old_or_new-IsConsistent cfg metrics r m s h))))

-- The bucket that a read leaves, in its place.
read_back-AreConsistent :
    (cfg : WindowSettings) (now : ℕ) (metrics : Metrics) (r m s : Text) (o : Option StrategyBucket)
    → get (model_bucket metrics r m) s ≡ o
    → AreConsistent cfg metrics
    → AreConsistent cfg
        (elim o as (λ _. Metrics × RecoveryMetric) [
          | none ↦ (metrics, empty_metric)
          | some b ↦
              (store_bucket metrics r m s (read_bucket cfg now b).0, (read_bucket cfg now b).1)
        ]).0
read_back-AreConsistent cfg now metrics r m s none e h = h
read_back-AreConsistent cfg now metrics r m s (some b) e h =
    store_bucket-AreConsistent cfg metrics r m s (read_bucket cfg now b).0 h (
      read_bucket-IsConsistent cfg now b (
        All-get (λ s. IsConsistent cfg s.1) (model_bucket metrics r m) s b
          (model_bucket-AreConsistent cfg metrics r m h) e))

read_metric-AreConsistent :
    (cfg : WindowSettings) (now : ℕ) (model_id reason strategy : Text) (metrics : Metrics)
    → AreConsistent cfg metrics
    → AreConsistent cfg (read_recovery_metric cfg now model_id reason strategy metrics).0
unfolding read_recovery_metric
read_metric-AreConsistent cfg now model_id reason strategy metrics h =
    read_back-AreConsistent cfg now metrics (normalize reason) (normalize model_id)
      (normalize strategy)
      (get (model_bucket metrics (normalize reason) (normalize model_id)) (normalize strategy)) refl
      h

-- One call of the two, with the time at which it is made.
pub data MetricCall : Type 0 where
  record_call : ℕ → Text → Text → Text → Text → MetricCall
  read_call : ℕ → Text → Text → Text → MetricCall

abbrev pub metric_run : WindowSettings → List MetricCall → Metrics → Metrics
metric_run cfg [] metrics = metrics
metric_run cfg (record_call now model_id reason strategy outcome ∷ calls) metrics =
    metric_run cfg calls (record_recovery_metric cfg now model_id reason strategy outcome metrics)
metric_run cfg (read_call now model_id reason strategy ∷ calls) metrics =
    metric_run cfg calls (read_recovery_metric cfg now model_id reason strategy metrics).0

-- Over any sequence of recorded and read outcomes, in every bucket the counters cover the events
-- with their outcome, and no more events are kept than the window holds, if this holds at the
-- beginning.
pub metric_run-AreConsistent :
    (cfg : WindowSettings) (calls : List MetricCall) (metrics : Metrics)
    → AreConsistent cfg metrics
    → AreConsistent cfg (metric_run cfg calls metrics)
metric_run-AreConsistent cfg [] metrics h = h
metric_run-AreConsistent cfg (record_call now model_id reason strategy outcome ∷ calls) metrics h =
    metric_run-AreConsistent cfg calls
      (record_recovery_metric cfg now model_id reason strategy outcome metrics)
      (record_metric-AreConsistent cfg now model_id reason strategy outcome metrics h)
metric_run-AreConsistent cfg (read_call now model_id reason strategy ∷ calls) metrics h =
    metric_run-AreConsistent cfg calls
      (read_recovery_metric cfg now model_id reason strategy metrics).0
      (read_metric-AreConsistent cfg now model_id reason strategy metrics h)
