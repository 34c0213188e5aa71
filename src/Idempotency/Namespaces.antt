-- ===== src/Idempotency/Namespaces.antt =====
-- The namespaces of the manager do not see each other.
use ai_agent_starter_kit.Idempotency.{
  Registry, drop_expired, prune, conflict, replay, lookup, register,
}
use ai_agent_starter_kit.Idempotency.Bound.{prune-IsUnique}
use ai_agent_starter_kit.Idempotency.Pruned.{
  AreBefore, drop_expired-AreBefore, drop_overflow-AreBefore,
}
use ai_agent_starter_kit.Idempotency.History.{serve_all, register-serve_all-lookup}
use ai_agent_starter_kit.Idempotency.Manager.{
  Manager, namespace_key, get_registry, with_registry, lookup_or_raise, register_in,
}
use ai_agent_starter_kit.Common.{
  ℕ, ◌+◌, ◌≤◌, ◌<◌, ◌≡◌, refl, sym, ap, ◌∙◌, inl, inr, false, [], arith, if◌then◌else◌, Bool-cases,
  is_empty, Text, text_eq, text_eq_refl,
}
use ai_agent_starter_kit.Common.Dict.{get-put, IsUnique}

pub get_registry-with :
    (m : Manager) (a b : Text) (registry : Registry)
    → get_registry (with_registry m a registry) b
      ≡ (if text_eq (namespace_key a) (namespace_key b) then registry else get_registry m b)
unfolding get_registry
get_registry-with m a b registry =
    ground (arith, get-put m.namespaces (namespace_key a) (namespace_key b) registry)

-- A registry as `register` finds it: no key twice, every entry from before.
abbrev pub IsReady : ℕ → Registry → Type 0
IsReady now d = IsUnique d × AreBefore now d

-- The answer of the manager is that of the registry of the namespace.
pub lookup_or_raise-eq :
    (later : ℕ) (b key other : Text) (m : Manager)
    → (lookup_or_raise later b key other m).1
      ≡ (lookup m.ttl_seconds m.max_entries later key other (get_registry m b)).1
unfolding lookup_or_raise
lookup_or_raise-eq later b key other m = refl

-- A lookup after a registration under a key that is not empty: in the same namespace, however it is
-- spelled, it gets the stored value or a conflict by the fingerprint; in another namespace the same
-- as without the registration. The registration is later than the other entries of its namespace,
-- and its time to live is not over.
pub namespaces_exact :
    (m : Manager) (a b key print other value : Text) (now later : ℕ)
    → is_empty key ≡ false
    → IsReady now (get_registry m a)
    → now ≤ later
    → (0 < m.ttl_seconds → later ≤ now + m.ttl_seconds)
    → (lookup_or_raise later b key other (register_in now a key print value m)).1 ≡ (
        if text_eq (namespace_key a) (namespace_key b)
        then (if text_eq print other then replay value else conflict)
        else (lookup_or_raise later b key other m).1)
unfolding register_in
namespaces_exact m a b key print other value now later k r l t =
    let stored : Registry =
      register m.ttl_seconds m.max_entries now key print value (get_registry m a) in
    let found = get_registry-with m a b stored in
    elim (Bool-cases (text_eq (namespace_key a) (namespace_key b))) [
      | inl e ↦
          rw (e, register_in)
            (lookup_or_raise-eq later b key other (with_registry m a stored)
              ∙ ap (λ d. (lookup m.ttl_seconds m.max_entries later key other d).1) (rw e at found)
              ∙ (unfold serve_all in
                  register-serve_all-lookup m.ttl_seconds m.max_entries now later key print other
                    value (get_registry m a) [] k r.0 r.1 tt t (λ p. omega (arith, p))))
      | inr e ↦
          rw (e, register_in)
            (lookup_or_raise-eq later b key other (with_registry m a stored)
              ∙ ap (λ d. (lookup m.ttl_seconds m.max_entries later key other d).1) (rw e at found)
              ∙ sym (lookup_or_raise-eq later b key other m))
    ]

-- A registry keeps its entries from before when a lookup prunes it.
pub prune-IsReady :
    (ttl max_count now : ℕ) (d : Registry) → IsReady now d → IsReady now (prune ttl max_count now d)
prune-IsReady ttl max_count now d r = (
  prune-IsUnique ttl max_count now d r.0,
  unfold prune in
      drop_overflow-AreBefore max_count now (drop_expired ttl now d)
        (drop_expired-AreBefore ttl now d r.1),
)

pub get_registry-lookup :
    (now : ℕ) (a key print : Text) (m : Manager)
    → is_empty key ≡ false
    → get_registry (lookup_or_raise now a key print m).0 a
      ≡ prune m.ttl_seconds m.max_entries now (get_registry m a)
unfolding lookup_or_raise lookup
get_registry-lookup now a key print m k =
    rw
      (
        get_registry-with m a a
            (lookup m.ttl_seconds m.max_entries now key print (get_registry m a)).0,
        text_eq_refl (namespace_key a),
        k,
      )
      refl
