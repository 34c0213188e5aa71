-- ===== src/Fallback/Cancellation.antt =====
-- The probe of a half-open breaker whose task is cancelled.
use ai_agent_starter_kit.Fallback.{
  task_cancelled, Input, Machine, raised_cancelled, emit, emit_cb_state_change, with_breaker,
  finish_attempt, attempt_model, on_execute_attempt,
}
use ai_agent_starter_kit.Fallback.Probe.{emitted-HasCalled}
use ai_agent_starter_kit.CircuitBreaker.{half_open, ModelCircuit, Registry, allow_request}
use ai_agent_starter_kit.CircuitBreaker.Step.{Call, allow, step, run, step-IsUnique}
use ai_agent_starter_kit.CircuitBreaker.Isolation.{IsWaiting, probe_exclusive}
use ai_agent_starter_kit.Common.{
  ℕ, ◌≡◌, refl, ap, true, false, some, List, [], ◌∷◌, arith, or_else, All,
}
use ai_agent_starter_kit.Common.Dict.{get, IsUnique, fmap}

run-IsUnique :
    (r : Registry) (calls : List Call) → IsUnique r.circuits → IsUnique (run r calls).circuits
unfolding run
run-IsUnique r [] u = u
run-IsUnique r (call ∷ calls) u = run-IsUnique (step r call) calls (step-IsUnique r call u)

-- The registry in which a cancelled attempt leaves the machine.
abbrev pub registry_of : Machine → Registry → Registry
registry_of m r = or_else r m.circuit_breaker

attempt_model-cancelled :
    (input : Input) (m : Machine) (r : Registry)
    → m.circuit_breaker ≡ some r
    → input.outcome ≡ task_cancelled
    → let (m', ending) = attempt_model input m in
      (ending ≡ some raised_cancelled) × (m'.circuit_breaker ≡ some (run r input.meanwhile))
unfolding attempt_model finish_attempt with_breaker emit
attempt_model-cancelled input m r h o =
    rw o (refl, ground (arith, h, ap (fmap (λ r. run r input.meanwhile)) h))

on_execute_attempt-allowed :
    (input : Input) (m : Machine) (r : Registry)
    → m.circuit_breaker ≡ some r
    → let x = allow_request (run r input.before) input.started m.current_candidate_model in
      x.1 ≡ true
      → on_execute_attempt input m
        ≡ attempt_model input (emit_cb_state_change x.2 (record m { circuit_breaker = some x.0 }))
unfolding on_execute_attempt
on_execute_attempt-allowed input m r h a = rw (h, a) refl

-- When the task is cancelled while its attempt is the probe of a half-open breaker, the exception
-- goes on to the caller and the probe stays in flight: if meanwhile and later only requests for
-- this model and calls for other models are made, every further request for the model is rejected,
-- however much time passes.
pub cancelled_probe_blocks :
    (input : Input) (m : Machine) (r : Registry) (c : ModelCircuit) (later : List Call) (now : ℕ)
    → m.circuit_breaker ≡ some r
    → IsUnique r.circuits
    → input.outcome ≡ task_cancelled
    → (allow_request (run r input.before) input.started m.current_candidate_model).1 ≡ true
    → get
        (allow_request (run r input.before) input.started m.current_candidate_model).0.circuits
        m.current_candidate_model
      ≡ some c
    → c.state ≡ half_open
    → c.half_open_probe_in_flight ≡ true
    → All (IsWaiting m.current_candidate_model) input.meanwhile
    → All (IsWaiting m.current_candidate_model) later
    → let (m', ending) = on_execute_attempt input m in
      (ending ≡ some raised_cancelled)
      × ((allow_request (run (registry_of m' r) later) now m.current_candidate_model).1 ≡ false)
cancelled_probe_blocks input m r c later now h u o allowed g s p w l =
    let id = m.current_candidate_model in
    let x = allow_request (run r input.before) input.started id in
    let asked = emit_cb_state_change x.2 (record m { circuit_breaker = some x.0 }) in
    let e = attempt_model-cancelled input asked x.0 (emitted-HasCalled x.2 m x.0).0 o in
    let ux : IsUnique x.0.circuits =
      unfold step in
      step-IsUnique (run r input.before) (allow input.started id) (run-IsUnique r input.before u) in
    let during = probe_exclusive x.0 input.meanwhile now id c ux g s p w in
    let blocked =
      probe_exclusive (run x.0 input.meanwhile) later now id c (run-IsUnique x.0 input.meanwhile ux)
        during.1 s p l in
    rw (on_execute_attempt-allowed input m r h allowed) (e.0, rw (e.1) blocked.0)
