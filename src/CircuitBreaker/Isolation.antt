-- ===== src/CircuitBreaker/Isolation.antt =====
-- The breaker of one model under calls for others: an open or half-open circuit is never evicted.
use ai_agent_starter_kit.CircuitBreaker.{
  half_open, CircuitBreakerConfig, ModelCircuit, new_circuit, is_closed, allow_circuit, Circuits,
  delete_until_fits, is_idle, is_candidate, first_failure, evict_stale_circuits, make_room,
  ensure_circuit, Registry, update_circuit, allow_request,
}
use ai_agent_starter_kit.CircuitBreaker.Step.{
  Call, allow, model_of, step, run, step-eq-update, circuit_of, ensure-eq-circuit_of,
  delete_until_fits-IsUnique, step-IsUnique, allow_request-eq,
}
use ai_agent_starter_kit.Common.{
  ℕ, ◌≡◌, refl, ap, ◌∙◌, ◌≢◌, ◌⊎◌, inl, inr, Bool, true, false, ◌||◌, none, some, List, [], ◌∷◌,
  arith, Bool-cases, filter, All, Text, text_eq, text_eq_iff, elem,
}
use ai_agent_starter_kit.Common.Dict.{
  Dict, get, remove, keys, get-put, get-remove, get-put_self, IsUnique, elem-keys-filter,
}
use ai_agent_starter_kit.Common.Sort.{insert_by, sort_by}

module _ {ℓ} {V : Type ℓ} (key : Text × V → ℕ) where
  elem-keys-insert_by :
      (k : Text) (e : Text × V) (l : Dict V)
      → elem k (keys (insert_by key e l)) ≡ (text_eq k e.0 || elem k (keys l))
  unfolding insert_by elem
  elem-keys-insert_by k e [] = refl
  elem-keys-insert_by k e (x ∷ l) = ground (arith, elem-keys-insert_by k e l)

  elem-keys-sort_by : (k : Text) (l : Dict V) → elem k (keys (sort_by key l)) ≡ elem k (keys l)
  unfolding sort_by elem
  elem-keys-sort_by k [] = refl
  elem-keys-sort_by k (x ∷ l) =
      ground (arith, elem-keys-insert_by k x (sort_by key l), elem-keys-sort_by k l)

get-delete_until_fits :
    (k : Text) (d : Circuits) (mids : List Text)
    → elem k mids ≡ false
    → get (delete_until_fits d mids) k ≡ get d k
unfolding delete_until_fits elem
get-delete_until_fits k d [] h = refl
get-delete_until_fits k d (mid ∷ mids) h = ground (
  arith,
  get-remove d mid k,
  text_eq_iff k mid,
  text_eq_iff mid k,
  get-delete_until_fits k (remove d mid) mids,
)

-- A tracked circuit that is not closed.
abbrev pub IsTripped : Circuits → Text → ModelCircuit → Type 0
IsTripped d k c = (get d k ≡ some c) × (is_closed c.state ≡ false)

not-elem-filter :
    (p : Text × ModelCircuit → Bool) (d : Circuits) (k : Text) (c : ModelCircuit)
    → IsUnique d
    → get d k ≡ some c
    → p (k, c) ≡ false
    → elem k (keys (filter p d)) ≡ false
not-elem-filter p d k c u g n = elim (Bool-cases (elem k (keys (filter p d)))) [
  | inl e ↦ cc (elem-keys-filter p d k c u g e)
  | inr e ↦ e
]

get-evict :
    (d : Circuits) (k : Text) (c : ModelCircuit)
    → IsUnique d
    → IsTripped d k c
    → get (evict_stale_circuits d) k ≡ some c
unfolding evict_stale_circuits
get-evict d k c u h =
    let first = keys (filter is_idle d) in
    let d' = delete_until_fits d first in
    let g =
      get-delete_until_fits k d first (not-elem-filter is_idle d k c u h.0 (ground arith)) ∙ h.0 in
    let n = not-elem-filter is_candidate d' k c (delete_until_fits-IsUnique d first u) g h.1 in
    let m = elem-keys-sort_by first_failure k (filter is_candidate d') ∙ n in
    ground (
      arith,
      g,
      get-delete_until_fits k d' (keys (sort_by first_failure (filter is_candidate d'))) m,
    )

get-ensure :
    (d : Circuits) (id k : Text) (c : ModelCircuit)
    → IsUnique d
    → IsTripped d k c
    → get (ensure_circuit d id).0 k ≡ some c
unfolding ensure_circuit make_room
get-ensure d id k c u h =
    ground (arith, get-evict d k c u h, h, text_eq_iff id k, get-put (make_room d) id k new_circuit)

-- A call for one model leaves the open or half-open circuit of another model as it is, also where
-- it evicts entries.
pub get-step_other :
    (r : Registry) (call : Call) (k : Text) (c : ModelCircuit)
    → IsUnique r.circuits
    → IsTripped r.circuits k c
    → model_of call ≢ k
    → get (step r call).circuits k ≡ some c
get-step_other r call k c u h n = rw step-eq-update (
    unfold update_circuit in
    rw get-put (
      ground (arith, text_eq_iff (model_of call) k, get-ensure r.circuits (model_of call) k c u h)))

-- Calls for other models, and further requests for this one.
abbrev pub IsWaiting : Text → Call → Type 0
IsWaiting k call = (model_of call ≢ k) ⊎ ((now : ℕ) × (call ≡ allow now k))

probe_stays :
    (cfg : CircuitBreakerConfig) (now : ℕ) (k : Text) (c : ModelCircuit)
    → c.state ≡ half_open
    → c.half_open_probe_in_flight ≡ true
    → allow_circuit cfg now k c ≡ (c, false, none)
unfolding allow_circuit
probe_stays cfg now k c s p = ground arith

circuit_of-found :
    (r : Registry) (k : Text) (c : ModelCircuit) → get r.circuits k ≡ some c → circuit_of r k ≡ c
unfolding circuit_of
circuit_of-found r k c g = rw g

get-step_waiting :
    (r : Registry) (call : Call) (k : Text) (c : ModelCircuit)
    → IsUnique r.circuits
    → get r.circuits k ≡ some c
    → c.state ≡ half_open
    → c.half_open_probe_in_flight ≡ true
    → IsWaiting k call
    → get (step r call).circuits k ≡ some c
get-step_waiting r call k c u g s p (inl n) = get-step_other r call k c u (g, ground arith) n
get-step_waiting r call k c u g s p (inr (now, e)) = rw e (
    unfold step allow_request update_circuit in
    rw get-put_self (
      ap some (
        ap (λ x. (allow_circuit r.config now k x).0)
          (ensure-eq-circuit_of r k ∙ circuit_of-found r k c g)
        ∙ ap (λ x. x.0) (probe_stays r.config now k c s p))))

-- Once a probe is in flight, no further request for the model is let through, at any time and
-- whatever requests are made and whatever happens to other models, until an outcome, a release or
-- a reset of this model is recorded.
pub probe_exclusive :
    (r : Registry) (calls : List Call) (now : ℕ) (k : Text) (c : ModelCircuit)
    → IsUnique r.circuits
    → get r.circuits k ≡ some c
    → c.state ≡ half_open
    → c.half_open_probe_in_flight ≡ true
    → All (IsWaiting k) calls
    → ((allow_request (run r calls) now k).1 ≡ false) × (get (run r calls).circuits k ≡ some c)
unfolding run
probe_exclusive r [] now k c u g s p w = (
  (allow_request-eq r now k).0
      ∙ ap (λ x. (allow_circuit r.config now k x).1) (circuit_of-found r k c g)
      ∙ ap (λ x. x.1) (probe_stays r.config now k c s p),
  g,
)
probe_exclusive r (call ∷ calls) now k c u g s p w =
    probe_exclusive (step r call) calls now k c (step-IsUnique r call u)
      (get-step_waiting r call k c u g s p w.0) s p w.1
