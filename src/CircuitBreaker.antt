-- ===== src/CircuitBreaker.antt =====
-- backend/app/services/circuit_breaker.py: one breaker per model, in a registry.
-- Clock readings are naturals in one unit; a method takes the reading that it makes. The lock makes
-- each method one atomic step, so a method is a function from the registry to the new registry.
pub mod Step
pub mod Invariant
pub mod Window
pub mod Isolation
pub mod Bound
pub mod Recovery
mod Examples
use ai_agent_starter_kit.Common.{
  ℕ, ◌+◌, Bool, true, false, ◌&&◌, Option, none, some, List, [], ◌∷◌, ◌++◌, map, ltb, leb,
  if◌then◌else◌, length, is_empty, filter, Text,
}
use ai_agent_starter_kit.Common.Dict.{Dict, get, put, remove, keys}
use ai_agent_starter_kit.Common.Sort.{sort_by}

-- `opened` is OPEN of the source.
pub data CircuitState : Type 0 where
  closed opened half_open : CircuitState

pub record CircuitStateTransition : Type 0 where
  pub model_id : Text
  pub from_state : CircuitState
  pub to_state : CircuitState

pub record CircuitBreakerConfig : Type 0 where
  pub failure_threshold : ℕ
  pub failure_window_seconds : ℕ
  pub recovery_timeout_seconds : ℕ
  pub success_threshold : ℕ

-- `failure_timestamps` is the deque, its left end first.
pub record ModelCircuit : Type 0 where
  pub state : CircuitState
  pub failure_timestamps : List ℕ
  pub half_open_successes : ℕ
  pub opened_at_mono : ℕ
  pub half_open_probe_in_flight : Bool

abbrev pub new_circuit : ModelCircuit
new_circuit = record {
  state = closed;
  failure_timestamps = [];
  half_open_successes = 0;
  opened_at_mono = 0;
  half_open_probe_in_flight = false;
}

abbrev pub is_closed : CircuitState → Bool
is_closed closed = true
is_closed _ = false

abbrev pub max_tracked_models : ℕ
max_tracked_models = 64

-- `now - opened_at >= timeout`
unfoldable pub recovery_timeout_elapsed : CircuitBreakerConfig → ℕ → ModelCircuit → Bool
recovery_timeout_elapsed cfg now c = leb (c.opened_at_mono + cfg.recovery_timeout_seconds) now

-- `while stamps and stamps[0] < now - window: popleft()`
unfoldable pub evict_old_failures : CircuitBreakerConfig → ℕ → List ℕ → List ℕ
evict_old_failures cfg now [] = []
evict_old_failures cfg now (t ∷ ts) =
    let rest = evict_old_failures cfg now ts in
    if ltb (t + cfg.failure_window_seconds) now then rest else t ∷ ts

abbrev pub transition : Text → CircuitState → CircuitState → Option CircuitStateTransition
transition model_id from to =
    some (record { model_id = model_id; from_state = from; to_state = to })

-- The part of `allow_request` below the comment HALF_OPEN.
unfoldable pub take_probe :
    ModelCircuit
    → Option CircuitStateTransition
    → ModelCircuit × Bool × Option CircuitStateTransition
take_probe c t =
    if c.half_open_probe_in_flight
    then (c, false, t)
    else (record c { half_open_probe_in_flight = true }, true, t)

-- `allow_request`, on the model's circuit.
unfoldable pub allow_circuit :
    CircuitBreakerConfig
    → ℕ
    → Text
    → ModelCircuit
    → ModelCircuit × Bool × Option CircuitStateTransition
unfolding take_probe recovery_timeout_elapsed
allow_circuit cfg now model_id c = elim c.state [
  | closed ↦ (c, true, none)
  | opened ↦
      if recovery_timeout_elapsed cfg now c
      then take_probe
          (record c {
            state = half_open;
            half_open_successes = 0;
            half_open_probe_in_flight = false;
          })
          (transition model_id opened half_open)
      else (c, false, none)
  | half_open ↦ take_probe c none
]

-- `record_success`, on the model's circuit.
unfoldable pub success_circuit :
    CircuitBreakerConfig → Text → ModelCircuit → ModelCircuit × Option CircuitStateTransition
success_circuit cfg model_id c = elim c.state [
  | half_open ↦
      let c' = record c {
        half_open_successes = c.half_open_successes + 1;
        half_open_probe_in_flight = false;
      } in
      if leb cfg.success_threshold c'.half_open_successes
      then (
        record c' { state = closed; failure_timestamps = []; half_open_successes = 0 },
        transition model_id half_open closed,
      )
      else (c', none)
  | closed ↦ (c, none)
  | opened ↦ (c, none)
]

-- The part of `record_failure` below the comment CLOSED; an OPEN circuit comes here too.
unfoldable pub count_failure :
    CircuitBreakerConfig → ℕ → Text → ModelCircuit → ModelCircuit × Option CircuitStateTransition
unfolding evict_old_failures
count_failure cfg now model_id c =
    let stamps = evict_old_failures cfg now (c.failure_timestamps ++ now ∷ []) in
    if leb cfg.failure_threshold (length stamps)
    then (
      record c { failure_timestamps = stamps; state = opened; opened_at_mono = now },
      transition model_id closed opened,
    )
    else (record c { failure_timestamps = stamps }, none)

-- `record_failure`, on the model's circuit.
unfoldable pub failure_circuit :
    CircuitBreakerConfig → ℕ → Text → ModelCircuit → ModelCircuit × Option CircuitStateTransition
unfolding count_failure
failure_circuit cfg now model_id c = elim c.state [
  | half_open ↦ (
    record c {
      state = opened;
      opened_at_mono = now;
      half_open_successes = 0;
      half_open_probe_in_flight = false;
    },
    transition model_id half_open opened,
  )
  | closed ↦ count_failure cfg now model_id c
  | opened ↦ count_failure cfg now model_id c
]

-- `reset` and `release_probe`, on the model's circuit.
unfoldable pub reset_circuit : ModelCircuit → ModelCircuit
reset_circuit c = record c {
  state = closed;
  failure_timestamps = [];
  half_open_successes = 0;
  half_open_probe_in_flight = false;
}

unfoldable pub release_circuit : ModelCircuit → ModelCircuit
release_circuit c = elim c.state [
  | half_open ↦
      if c.half_open_probe_in_flight then record c { half_open_probe_in_flight = false } else c
  | closed ↦ c
  | opened ↦ c
]

abbrev pub Circuits : Type 0
Circuits = Dict ModelCircuit

-- `for mid in mids: del circuits[mid]; if len(circuits) < max: break`
unfoldable pub delete_until_fits : Circuits → List Text → Circuits
delete_until_fits d [] = d
delete_until_fits d (mid ∷ mids) =
    let d' = remove d mid in
    let rest = delete_until_fits d' mids in if ltb (length d') max_tracked_models then d' else rest

abbrev pub is_idle : Text × ModelCircuit → Bool
is_idle e = is_closed e.1.state && is_empty e.1.failure_timestamps

abbrev pub is_candidate : Text × ModelCircuit → Bool
is_candidate e = is_closed e.1.state

abbrev pub first_or_zero : List ℕ → ℕ
first_or_zero [] = 0
first_or_zero (t ∷ ts) = t

abbrev pub first_failure : Text × ModelCircuit → ℕ
first_failure e = first_or_zero e.1.failure_timestamps

-- `_evict_stale_circuits`
unfoldable pub evict_stale_circuits : Circuits → Circuits
unfolding delete_until_fits sort_by
evict_stale_circuits d =
    let d' = delete_until_fits d (keys (filter is_idle d)) in
    if leb max_tracked_models (length d')
    then delete_until_fits d' (keys (sort_by first_failure (filter is_candidate d')))
    else d'

-- The guard of `_ensure_circuit` in front of an insertion.
unfoldable pub make_room : Circuits → Circuits
unfolding evict_stale_circuits
make_room d = if leb max_tracked_models (length d) then evict_stale_circuits d else d

-- `_ensure_circuit`: the dictionary with an entry for the model, and the entry.
unfoldable pub ensure_circuit : Circuits → Text → Circuits × ModelCircuit
unfolding make_room get put
ensure_circuit d model_id = elim (get d model_id) [
  | some c ↦ (d, c)
  | none ↦ (put (make_room d) model_id new_circuit, new_circuit)
]

pub record Registry : Type 0 where
  pub config : CircuitBreakerConfig
  pub circuits : Circuits

-- The registry after a method has changed the circuit object that `_ensure_circuit` returned.
unfoldable pub update_circuit : Registry → Text → (ModelCircuit → ModelCircuit) → Registry
unfolding ensure_circuit
update_circuit r model_id f =
    let (d, c) = ensure_circuit r.circuits model_id in record r { circuits = put d model_id (f c) }

unfoldable pub allow_request : Registry → ℕ → Text → Registry × Bool × Option CircuitStateTransition
unfolding update_circuit allow_circuit
allow_request r now id =
    let (c', allowed, t) = allow_circuit r.config now id (ensure_circuit r.circuits id).1 in
    (update_circuit r id (λ c. (allow_circuit r.config now id c).0), allowed, t)

unfoldable pub record_success : Registry → Text → Registry × Option CircuitStateTransition
unfolding update_circuit success_circuit
record_success r id =
    let (c', t) = success_circuit r.config id (ensure_circuit r.circuits id).1 in
    (update_circuit r id (λ c. (success_circuit r.config id c).0), t)

unfoldable pub record_failure : Registry → ℕ → Text → Registry × Option CircuitStateTransition
unfolding update_circuit failure_circuit
record_failure r now id =
    let (c', t) = failure_circuit r.config now id (ensure_circuit r.circuits id).1 in
    (update_circuit r id (λ c. (failure_circuit r.config now id c).0), t)

unfoldable pub reset : Registry → Text → Registry
unfolding update_circuit reset_circuit
reset r id = update_circuit r id reset_circuit

unfoldable pub release_probe : Registry → Text → Registry
unfolding update_circuit release_circuit
release_probe r id = update_circuit r id release_circuit

unfoldable pub state_of : CircuitBreakerConfig → ℕ → ModelCircuit → CircuitState
unfolding recovery_timeout_elapsed
state_of cfg now c = elim c.state [
  | opened ↦ if recovery_timeout_elapsed cfg now c then half_open else opened
  | closed ↦ closed
  | half_open ↦ half_open
]

unfoldable pub get_state : Registry → ℕ → Text → CircuitState
unfolding state_of get
get_state r now id = elim (get r.circuits id) [ none ↦ closed | some c ↦ state_of r.config now c ]

-- `all_states`: one entry for each tracked model.
unfoldable pub all_states : Registry → ℕ → List (Text × CircuitState)
unfolding get_state
all_states r now = map (λ id. (id, get_state r now id)) (keys r.circuits)
