-- ===== src/Failover/Outcomes.antt =====
-- What the stored outcomes of the recovery steps keep and what is read of them.
-- The events with one outcome.
use ai_agent_starter_kit.Failover.Metrics.{
  Event, StrategyBucket, WindowSettings, is_fresh, prune_metric_events, weighted_sum,
  lifetime_metric, read_bucket,
}
use ai_agent_starter_kit.Common.{
  ℕ, zero, suc, ◌+◌, ◌-◌, ◌≤◌, min, max, ◌≡◌, refl, Bool, true, false, List, [], ◌∷◌, ◌++◌, arith,
  ◌==◌, if◌then◌else◌, length, is_empty, drop, filter, length-drop,
}
use ai_agent_starter_kit.Common.Sort.{insert_by, sort_by, length-sort_by}

unfoldable pub count : Bool → List Event → ℕ
count b [] = 0
count b (e ∷ events) =
    let rest = count b events in
    if e.is_success then (if b then suc rest else rest) else (if b then rest else suc rest)

pub count-append : (b : Bool) (es fs : List Event) → count b (es ++ fs) ≡ count b es + count b fs
unfolding count
count-append b [] fs = omega arith
count-append b (e ∷ es) fs = ground (arith, count-append b es fs)

count-filter-le :
    (b : Bool) (p : Event → Bool) (es : List Event) → count b (filter p es) ≤ count b es
unfolding count
count-filter-le b p [] = omega arith
count-filter-le b p (e ∷ es) = ground (arith, count-filter-le b p es)

count-insert :
    (b : Bool) (e : Event) (es : List Event)
    → count b (insert_by (λ e. e.ts) e es) ≡ count b (e ∷ es)
unfolding count insert_by
count-insert b e [] = refl
count-insert b e (f ∷ es) = ground (arith, count-insert b e es)

count-sort : (b : Bool) (es : List Event) → count b (sort_by (λ e. e.ts) es) ≡ count b es
unfolding count sort_by
count-sort b [] = refl
count-sort b (e ∷ es) = ground (arith, count-sort b es, count-insert b e (sort_by (λ e. e.ts) es))

count-drop-le : (b : Bool) (n : ℕ) (es : List Event) → count b (drop n es) ≤ count b es
unfolding count
count-drop-le b zero es = omega arith
count-drop-le b (suc n) [] = omega arith
count-drop-le b (suc n) (e ∷ es) = ground (arith, count-drop-le b n es)

pub count-prune-le :
    (cfg : WindowSettings) (now : ℕ) (b : Bool) (es : List Event)
    → count b (prune_metric_events cfg now es) ≤ count b es
unfolding prune_metric_events
count-prune-le cfg now b es =
    let fresh : List Event = filter (is_fresh cfg now) es in
    let sorted : List Event = sort_by (λ e. e.ts) fresh in
    ground (
      arith,
      count-filter-le b (is_fresh cfg now) es,
      count-sort b fresh,
      count-drop-le b (length sorted - max 1 cfg.window_size) sorted,
    )

-- What is left is what is fresh, and of that as much as the window holds.
pub length-prune :
    (cfg : WindowSettings) (now : ℕ) (es : List Event)
    → length (prune_metric_events cfg now es)
      ≡ min (max 1 cfg.window_size) (length (filter (is_fresh cfg now) es))
unfolding prune_metric_events
length-prune cfg now es =
    let fresh : List Event = filter (is_fresh cfg now) es in
    let sorted : List Event = sort_by (λ e. e.ts) fresh in
    ground (
      arith,
      length-sort_by (λ e. e.ts) fresh,
      length-drop (length sorted - max 1 cfg.window_size) sorted,
    )

-- The samples that are read of a bucket: the fresh events, up to the size of the window; but if no
-- event is fresh, every outcome that was ever counted, however old.
pub read_samples_exact :
    (cfg : WindowSettings) (now : ℕ) (b : StrategyBucket)
    → (read_bucket cfg now b).1.samples ≡ (
        if length (filter (is_fresh cfg now) b.events) == 0
        then b.success + b.failure
        else min (max 1 cfg.window_size) (length (filter (is_fresh cfg now) b.events)))
unfolding read_bucket lifetime_metric
read_samples_exact cfg now b =
    by_pruned (prune_metric_events cfg now b.events) (length-prune cfg now b.events)
  where
    by_pruned :
        (pruned : List Event)
        → length pruned ≡ min (max 1 cfg.window_size) (length (filter (is_fresh cfg now) b.events))
        → (if is_empty pruned then lifetime_metric cfg now b else record {
          weighted_success = weighted_sum cfg now true pruned;
          weighted_failure = weighted_sum cfg now false pruned;
          samples = length pruned;
        }).samples
          ≡ (if length (filter (is_fresh cfg now) b.events) == 0
              then b.success + b.failure
              else min (max 1 cfg.window_size) (length (filter (is_fresh cfg now) b.events)))
    by_pruned [] h = ground (arith, h)
    by_pruned (e ∷ es) h = ground (arith, h)
