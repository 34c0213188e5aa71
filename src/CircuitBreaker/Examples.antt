-- ===== src/CircuitBreaker/Examples.antt =====
-- A registry with the default configuration, driven by hand, and the theorems at it.
use ai_agent_starter_kit.CircuitBreaker.{
  closed, opened, half_open, CircuitBreakerConfig, ModelCircuit, new_circuit, transition,
  failure_circuit, Registry, allow_request, record_failure,
}
use ai_agent_starter_kit.CircuitBreaker.Invariant.{
  AllValid, run-AllValid, is_admissible, allow_request_exact,
}
use ai_agent_starter_kit.CircuitBreaker.Isolation.{probe_exclusive}
use ai_agent_starter_kit.CircuitBreaker.Recovery.{rounds, open_recovers}
use ai_agent_starter_kit.CircuitBreaker.Step.{Call, allow, failure, run, circuit_of}
use ai_agent_starter_kit.CircuitBreaker.Window.{in_window, failure_opens_exactly}
use ai_agent_starter_kit.Common.{
  ◌+◌, ◌≡◌, refl, ◌≢◌, ◌⊎◌, inl, inr, true, false, none, some, List, [], ◌∷◌, ◌++◌, arith, leb,
  if◌then◌else◌, length, filter, Text, codes,
}
use ai_agent_starter_kit.Common.Dict.{get, contains}

abbrev default_config : CircuitBreakerConfig
default_config = record {
  failure_threshold = 5;
  failure_window_seconds = 60;
  recovery_timeout_seconds = 120;
  success_threshold = 2;
}

abbrev empty_registry : Registry
empty_registry = record { config = default_config; circuits = [] }

abbrev model : Text
model = codes "llama"

abbrev other : Text
other = codes "qwen"

abbrev five_failures : List Call
five_failures =
    failure 10 model
    ∷ failure 11 model
    ∷ failure 12 model
    ∷ failure 13 model
    ∷ failure 14 model
    ∷ []

abbrev tripped : ModelCircuit
tripped = record {
  state = opened;
  failure_timestamps = 10 ∷ 11 ∷ 12 ∷ 13 ∷ 14 ∷ [];
  half_open_successes = 0;
  opened_at_mono = 14;
  half_open_probe_in_flight = false;
}

abbrev probing : ModelCircuit
probing = record tripped { state = half_open; half_open_probe_in_flight = true }

five_failures_trip : get (run empty_registry five_failures).circuits model ≡ some tripped
unfolding run record_failure get
five_failures_trip = refl

tripped_blocks : (allow_request (run empty_registry five_failures) 100 model).1 ≡ false
unfolding run record_failure allow_request
tripped_blocks = refl

abbrev tripped_registry : Registry
tripped_registry = record empty_registry { circuits = (model, tripped) ∷ [] }

abbrev probing_registry : Registry
probing_registry = record empty_registry { circuits = (model, probing) ∷ [] }

model-ne-other : other ≢ model
model-ne-other e = ground arith

run-AllValid_example : AllValid (run empty_registry five_failures)
run-AllValid_example = run-AllValid empty_registry five_failures (omega arith) tt

allow_request_exact_example :
    let c = circuit_of tripped_registry model in
    let (r', allowed, t) = allow_request tripped_registry 134 model in
    (allowed ≡ is_admissible default_config 134 c)
    × (allowed ≡ true
        → (c.state ≡ closed) ⊎ ((circuit_of r' model).half_open_probe_in_flight ≡ true))
    × (allowed ≡ false → circuit_of r' model ≡ c)
allow_request_exact_example = allow_request_exact tripped_registry 134 model

abbrev meanwhile : List Call
meanwhile = allow 140 model ∷ failure 141 other ∷ allow 142 model ∷ []

probing_found : get probing_registry.circuits model ≡ some probing
unfolding get
probing_found = refl

probe_exclusive_example :
    ((allow_request (run probing_registry meanwhile) 150 model).1 ≡ false)
    × (get (run probing_registry meanwhile).circuits model ≡ some probing)
unfolding contains
probe_exclusive_example =
    probe_exclusive probing_registry meanwhile 150 model probing (refl, tt) probing_found refl refl
      (inr (140, refl), (inl model-ne-other, (inr (142, refl), tt)))

abbrev nearly : ModelCircuit
nearly = record new_circuit { failure_timestamps = 1 ∷ 70 ∷ 71 ∷ 72 ∷ [] }

failure_opens_exactly_example :
    let recent = filter (in_window default_config 75) nearly.failure_timestamps in
    let (c', t) = failure_circuit default_config 75 model nearly in
    (c'.failure_timestamps ≡ recent ++ 75 ∷ [])
    × (c'.state ≡ (if leb 5 (length recent + 1) then opened else closed))
    × (t ≡ (if leb 5 (length recent + 1) then transition model closed opened else none))
failure_opens_exactly_example =
    failure_opens_exactly default_config 75 model nearly refl (omega arith) (omega arith)

open_recovers_example :
    (circuit_of (run tripped_registry (rounds 2 134 model)) model).state ≡ closed
unfolding circuit_of get
open_recovers_example = open_recovers tripped_registry 134 model refl (omega arith) (omega arith)
