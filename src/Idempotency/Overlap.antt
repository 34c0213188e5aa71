-- ===== src/Idempotency/Overlap.antt =====
-- Two executions of a workflow that overlap.
use ai_agent_starter_kit.Idempotency.{
  Entry, Registry, is_expired, pop_all, drop_expired, ordered_keys, drop_overflow, prune, absent,
  conflict, replay, lookup,
}
use ai_agent_starter_kit.Idempotency.Manager.{Manager, get_registry, lookup_or_raise, begin_execute}
use ai_agent_starter_kit.Idempotency.Namespaces.{get_registry-lookup}
use ai_agent_starter_kit.Common.{
  ℕ, ◌-◌, ◌≡◌, refl, inl, inr, Bool, true, false, not, none, List, [], ◌∷◌, arith, if◌then◌else◌,
  Option-cases, length, is_empty, take, filter, Text, codes, text_eq,
}
use ai_agent_starter_kit.Common.Dict.{get, remove, get-remove}

get-pop_all :
    (ks : List Text) (d : Registry) (k : Text) → get d k ≡ none → get (pop_all ks d) k ≡ none
unfolding pop_all
get-pop_all [] d k h = h
get-pop_all (j ∷ ks) d k h = get-pop_all ks (remove d j) k (ground (arith, h, get-remove d j k))

get-filter-none :
    (p : Text × Entry → Bool) (d : Registry) (k : Text) → get d k ≡ none → get (filter p d) k ≡ none
unfolding get
get-filter-none p [] k h = refl
get-filter-none p ((j, e) ∷ d) k h = ground (arith, h, get-filter-none p d k)

-- Pruning brings no key in.
get-prune :
    (ttl most now : ℕ) (d : Registry) (k : Text)
    → get d k ≡ none
    → get (prune ttl most now d) k ≡ none
unfolding prune drop_expired drop_overflow
get-prune ttl most now d k h =
    let kept : Registry = drop_expired ttl now d in
    let first : get kept k ≡ none =
      ground (arith, h, get-filter-none (λ e. not (is_expired ttl now e.1)) d k) in
    ground (arith, first, get-pop_all (take (length kept - most) (ordered_keys kept)) kept k)

absent-get :
    (ttl most now : ℕ) (key print : Text) (d : Registry)
    → is_empty key ≡ false
    → (lookup ttl most now key print d).1 ≡ absent
    → get (prune ttl most now d) key ≡ none
unfolding lookup
absent-get ttl most now key print d k h = elim (Option-cases (get (prune ttl most now d) key)) [
  | inl e ↦ e
  | inr (found, e) ↦
      absurd (is_answered (text_eq found.fingerprint print) found (rw (k, e, lookup) at h))
]
  where
    is_answered :
        (same : Bool) (found : Entry)
        → (if same then replay found.payload else conflict) ≡ absent
        → ⊥
    is_answered true found h = ground arith
    is_answered false found h = ground arith

get-absent :
    (ttl most now : ℕ) (key print : Text) (d : Registry)
    → is_empty key ≡ false
    → get (prune ttl most now d) key ≡ none
    → (lookup ttl most now key print d).1 ≡ absent
unfolding lookup
get-absent ttl most now key print d k h = rw (k, h) refl

-- Of two executions of workflows with one key that is not empty, the first is let through. While it
-- waits for its steps and has not registered its response, the second is let through as well,
-- whatever its fingerprint.
pub overlap_executes_twice :
    (m : Manager) (now later : ℕ) (key print other : Text)
    → is_empty key ≡ false
    → (begin_execute now key print m).1 ≡ absent
    → (begin_execute later key other (begin_execute now key print m).0).1 ≡ absent
unfolding begin_execute lookup_or_raise
overlap_executes_twice m now later key print other k h =
    let d : Registry = get_registry m (codes "workflow_execute") in
    let pruned : Registry = prune m.ttl_seconds m.max_entries now d in
    let seen = get_registry-lookup now (codes "workflow_execute") key print m k in
    rw seen (
      get-absent m.ttl_seconds m.max_entries later key other pruned k (
        get-prune m.ttl_seconds m.max_entries later pruned key
          (absent-get m.ttl_seconds m.max_entries now key print d k h)))
