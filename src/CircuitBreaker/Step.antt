-- ===== src/CircuitBreaker/Step.antt =====
-- The mutating methods of the registry as one step function over a log of calls.
use ai_agent_starter_kit.CircuitBreaker.{
  CircuitBreakerConfig, ModelCircuit, new_circuit, allow_circuit, success_circuit, failure_circuit,
  reset_circuit, release_circuit, Circuits, delete_until_fits, is_idle, is_candidate, first_failure,
  evict_stale_circuits, make_room, ensure_circuit, Registry, update_circuit, allow_request,
  record_success, record_failure, reset, release_probe,
}
use ai_agent_starter_kit.Common.{
  ℕ, ◌≡◌, refl, ap, inl, inr, List, [], ◌∷◌, arith, Option-cases, or_else, filter, All, Text,
}
use ai_agent_starter_kit.Common.Dict.{
  get, remove, keys, get-put_self, IsUnique, put-IsUnique, remove-IsUnique, All-put, All-remove,
  All-get,
}
use ai_agent_starter_kit.Common.Sort.{sort_by}

pub data Call : Type 0 where
  allow : ℕ → Text → Call
  success : Text → Call
  failure : ℕ → Text → Call
  clear : Text → Call
  release : Text → Call

abbrev pub model_of : Call → Text
model_of (allow now id) = id
model_of (success id) = id
model_of (failure now id) = id
model_of (clear id) = id
model_of (release id) = id

-- The registry after one call.
unfoldable pub step : Registry → Call → Registry
step r (allow now id) = (allow_request r now id).0
step r (success id) = (record_success r id).0
step r (failure now id) = (record_failure r now id).0
step r (clear id) = reset r id
step r (release id) = release_probe r id

unfoldable pub run : Registry → List Call → Registry
unfolding step
run r [] = r
run r (c ∷ cs) = run (step r c) cs

-- What a call does to the circuit of its model.
unfoldable pub on_circuit : CircuitBreakerConfig → Call → ModelCircuit → ModelCircuit
on_circuit cfg (allow now id) c = (allow_circuit cfg now id c).0
on_circuit cfg (success id) c = (success_circuit cfg id c).0
on_circuit cfg (failure now id) c = (failure_circuit cfg now id c).0
on_circuit cfg (clear id) c = reset_circuit c
on_circuit cfg (release id) c = release_circuit c

pub step-eq-update :
    (r : Registry) (call : Call)
    → step r call ≡ update_circuit r (model_of call) (on_circuit r.config call)
unfolding step on_circuit allow_request record_success record_failure reset release_probe
step-eq-update r (allow now id) = refl
step-eq-update r (success id) = refl
step-eq-update r (failure now id) = refl
step-eq-update r (clear id) = refl
step-eq-update r (release id) = refl

-- The circuit that a call on the model works with.
unfoldable pub circuit_of : Registry → Text → ModelCircuit
circuit_of r id = or_else new_circuit (get r.circuits id)

pub ensure-eq-circuit_of :
    (r : Registry) (id : Text) → (ensure_circuit r.circuits id).1 ≡ circuit_of r id
unfolding ensure_circuit circuit_of
ensure-eq-circuit_of r id = ground arith

-- A call stores the changed circuit of its model.
pub circuit_of-update :
    (r : Registry) (id : Text) (f : ModelCircuit → ModelCircuit)
    → circuit_of (update_circuit r id f) id ≡ f (circuit_of r id)
circuit_of-update r id f =
    unfold circuit_of update_circuit in rw get-put_self (ap f (ensure-eq-circuit_of r id))

pub circuit_of-step :
    (r : Registry) (call : Call)
    → circuit_of (step r call) (model_of call)
      ≡ on_circuit r.config call (circuit_of r (model_of call))
circuit_of-step r call = rw step-eq-update (circuit_of-update r (model_of call) _)

pub config-step : (r : Registry) (call : Call) → (step r call).config ≡ r.config
config-step r call = rw step-eq-update (unfold update_circuit in refl)

-- What holds of each entry and of a new one holds after an eviction and an insertion.
module _ {κ} (P : Text × ModelCircuit → Type κ) where
  delete_until_fits-All :
      (d : Circuits) (mids : List Text) → All P d → All P (delete_until_fits d mids)
  unfolding delete_until_fits
  delete_until_fits-All d [] h = h
  delete_until_fits-All d (mid ∷ mids) h =
      let h' = All-remove P d mid h in
      ground (arith, h', delete_until_fits-All (remove d mid) mids h')

  evict_stale_circuits-All : (d : Circuits) → All P d → All P (evict_stale_circuits d)
  unfolding evict_stale_circuits
  evict_stale_circuits-All d h =
      let first = keys (filter is_idle d) in
      let h' = delete_until_fits-All d first h in
      let d' = delete_until_fits d first in
      let second = keys (sort_by first_failure (filter is_candidate d')) in
      ground (arith, h', delete_until_fits-All d' second h')

  make_room-All : (d : Circuits) → All P d → All P (make_room d)
  unfolding make_room
  make_room-All d h = ground (arith, evict_stale_circuits-All d h)

  ensure_circuit-All :
      (d : Circuits) (id : Text) → All P d → P (id, new_circuit) → All P (ensure_circuit d id).0
  unfolding ensure_circuit
  ensure_circuit-All d id h p = elim (Option-cases (get d id)) [
    | inl e ↦ rw (e, ensure_circuit) (All-put P (make_room d) id new_circuit (make_room-All d h) p)
    | inr (c, e) ↦ rw (e, ensure_circuit) h
  ]

  pub update_circuit-All :
      (r : Registry) (id : Text) (f : ModelCircuit → ModelCircuit)
      → All P r.circuits
      → P (id, new_circuit)
      → P (id, f (circuit_of r id))
      → All P (update_circuit r id f).circuits
  update_circuit-All r id f h n p =
      unfold update_circuit in
      All-put P _ id _ (ensure_circuit-All r.circuits id h n) (rw ensure-eq-circuit_of p)

  pub circuit_of-All :
      (r : Registry) (id : Text) → All P r.circuits → P (id, new_circuit) → P (id, circuit_of r id)
  unfolding circuit_of
  circuit_of-All r id h n = elim (Option-cases (get r.circuits id)) [
    | inl e ↦ rw (e, circuit_of) n
    | inr (c, e) ↦ rw (e, circuit_of) (All-get P r.circuits id c h e)
  ]

pub delete_until_fits-IsUnique :
    (d : Circuits) (mids : List Text) → IsUnique d → IsUnique (delete_until_fits d mids)
unfolding delete_until_fits
delete_until_fits-IsUnique d [] h = h
delete_until_fits-IsUnique d (mid ∷ mids) h =
    let h' = remove-IsUnique d mid h in
    ground (arith, h', delete_until_fits-IsUnique (remove d mid) mids h')

evict_stale_circuits-IsUnique : (d : Circuits) → IsUnique d → IsUnique (evict_stale_circuits d)
unfolding evict_stale_circuits
evict_stale_circuits-IsUnique d h =
    let first = keys (filter is_idle d) in
    let h' = delete_until_fits-IsUnique d first h in
    let d' = delete_until_fits d first in
    let second = keys (sort_by first_failure (filter is_candidate d')) in
    ground (arith, h', delete_until_fits-IsUnique d' second h')

ensure_circuit-IsUnique : (d : Circuits) (id : Text) → IsUnique d → IsUnique (ensure_circuit d id).0
unfolding ensure_circuit make_room
ensure_circuit-IsUnique d id h = elim (Option-cases (get d id)) [
  | inl e ↦
      rw (e, ensure_circuit)
        (put-IsUnique (make_room d) id new_circuit
          (ground (arith, evict_stale_circuits-IsUnique d h)))
  | inr (c, e) ↦ rw (e, ensure_circuit) h
]

pub step-IsUnique :
    (r : Registry) (call : Call) → IsUnique r.circuits → IsUnique (step r call).circuits
step-IsUnique r call h = rw step-eq-update (
    unfold update_circuit in
    put-IsUnique _ (model_of call) _ (ensure_circuit-IsUnique r.circuits (model_of call) h))

-- The three results of `allow_request`, by the model's circuit.
pub allow_request-eq :
    (r : Registry) (now : ℕ) (id : Text)
    → ((allow_request r now id).1 ≡ (allow_circuit r.config now id (circuit_of r id)).1)
      × ((allow_request r now id).2 ≡ (allow_circuit r.config now id (circuit_of r id)).2)
      × (circuit_of (allow_request r now id).0 id
          ≡ (allow_circuit r.config now id (circuit_of r id)).0)
allow_request-eq r now id =
    unfold allow_request in
    (
      ap (λ c. (allow_circuit r.config now id c).1) (ensure-eq-circuit_of r id),
      ap (λ c. (allow_circuit r.config now id c).2) (ensure-eq-circuit_of r id),
      circuit_of-update r id (λ c. (allow_circuit r.config now id c).0),
    )
