-- ===== src/Fallback/Probe.antt =====
-- The fallback machine and the probe of a half-open breaker: which endings of an attempt give it back.
use ai_agent_starter_kit.Fallback.{
  handle_failure, LlmError, AgentOutcome, reply, guardrail_violation, approval_cancelled,
  client_disconnected, llm_error, unexpected, task_cancelled, Input, FallbackAttemptState, Machine,
  emit, emit_cb_state_change, with_breaker, breaker_success, breaker_failure, breaker_release,
  finish_attempt, attempt_model, skip_model, on_execute_attempt,
}
use ai_agent_starter_kit.Fallback.Frames.{emit_cb_state_change-SameProgress}
use ai_agent_starter_kit.CircuitBreaker.{
  CircuitStateTransition, CircuitBreakerConfig, ModelCircuit, success_circuit, count_failure,
  failure_circuit, release_circuit, Registry, allow_request, record_success, record_failure,
}
use ai_agent_starter_kit.CircuitBreaker.Step.{
  Call, allow, success, failure, release, step, run, on_circuit, circuit_of, circuit_of-step,
  config-step, circuit_of-All,
}
use ai_agent_starter_kit.CircuitBreaker.Invariant.{
  IsValid, HasThresholds, new_circuit-IsValid, AllValid, step-AllValid, run-AllValid,
}
use ai_agent_starter_kit.Common.{
  ℕ, ◌≡◌, refl, ap, ◌∙◌, ◌≢◌, Bool, true, false, Option, none, some, List, [], ◌∷◌, arith,
  if◌then◌else◌, Text,
}
use ai_agent_starter_kit.Common.Dict.{fmap}

-- The machine has this registry, in which every tracked circuit is valid.
abbrev pub HasBreaker : Machine → Registry → Type 0
HasBreaker m r = (m.circuit_breaker ≡ some r) × HasThresholds r.config × AllValid r

-- Whether a probe is in flight for the model that is tried.
unfoldable pub probe_in_flight : Machine → Bool
unfolding circuit_of
probe_in_flight m = elim m.circuit_breaker [
  | none ↦ false
  | some r ↦ (circuit_of r m.current_candidate_model).half_open_probe_in_flight
]

config-run : (r : Registry) (calls : List Call) → (run r calls).config ≡ r.config
unfolding run
config-run r [] = refl
config-run r (call ∷ calls) = config-run (step r call) calls ∙ config-step r call

-- A valid circuit has no probe in flight after an outcome or a release.
no_probe :
    (cfg : CircuitBreakerConfig) (id : Text) (now : ℕ) (c : ModelCircuit)
    → IsValid cfg c
    → ((on_circuit cfg (success id) c).half_open_probe_in_flight ≡ false)
      × ((on_circuit cfg (failure now id) c).half_open_probe_in_flight ≡ false)
      × ((on_circuit cfg (release id) c).half_open_probe_in_flight ≡ false)
unfolding on_circuit success_circuit failure_circuit count_failure release_circuit
no_probe cfg id now c v = ground (arith, v.probe_half_open)

circuit_of-IsValid :
    (r : Registry) (id : Text)
    → HasThresholds r.config
    → AllValid r
    → IsValid r.config (circuit_of r id)
circuit_of-IsValid r id h v =
    circuit_of-All (λ e. IsValid r.config e.1) r id v (new_circuit-IsValid r.config h)

no_probe_after :
    (r : Registry) (id : Text) (now : ℕ)
    → HasThresholds r.config
    → AllValid r
    → ((circuit_of (step r (success id)) id).half_open_probe_in_flight ≡ false)
      × ((circuit_of (step r (failure now id)) id).half_open_probe_in_flight ≡ false)
      × ((circuit_of (step r (release id)) id).half_open_probe_in_flight ≡ false)
no_probe_after r id now h v =
    let n = no_probe r.config id now (circuit_of r id) (circuit_of-IsValid r id h v) in
    (
      rw (circuit_of-step r (success id)) n.0,
      rw (circuit_of-step r (failure now id)) n.1,
      rw (circuit_of-step r (release id)) n.2,
    )

-- The breaker of the machine after one call on the model that is tried.
abbrev pub HasCalled : Machine → Machine → Registry → Type 0
HasCalled m m' r =
    (m'.circuit_breaker ≡ some r) × (m'.current_candidate_model ≡ m.current_candidate_model)

pub emitted-HasCalled :
    (t : Option CircuitStateTransition) (m : Machine) (r : Registry)
    → HasCalled m (emit_cb_state_change t (record m { circuit_breaker = some r })) r
unfolding emit_cb_state_change emit
emitted-HasCalled none m r = (refl, refl)
emitted-HasCalled (some t) m r = (refl, refl)

breaker_success-HasCalled :
    (m : Machine) (r : Registry)
    → m.circuit_breaker ≡ some r
    → HasCalled m (breaker_success m) (step r (success m.current_candidate_model))
unfolding step breaker_success
breaker_success-HasCalled m r h = rw h (
    emitted-HasCalled (record_success r m.current_candidate_model).1 m
      (record_success r m.current_candidate_model).0)

breaker_failure-HasCalled :
    (now : ℕ) (m : Machine) (r : Registry)
    → m.circuit_breaker ≡ some r
    → HasCalled m (breaker_failure now m) (step r (failure now m.current_candidate_model))
unfolding step breaker_failure
breaker_failure-HasCalled now m r h = rw h (
    emitted-HasCalled (record_failure r now m.current_candidate_model).1 m
      (record_failure r now m.current_candidate_model).0)

breaker_release-HasCalled :
    (m : Machine) (r : Registry)
    → m.circuit_breaker ≡ some r
    → HasCalled m (breaker_release m) (step r (release m.current_candidate_model))
unfolding step
breaker_release-HasCalled m r h = unfold breaker_release with_breaker in (rw h refl, refl)

called-no_probe :
    (m m' : Machine) (r' : Registry)
    → HasCalled m m' r'
    → (circuit_of r' m.current_candidate_model).half_open_probe_in_flight ≡ false
    → probe_in_flight m' ≡ false
unfolding probe_in_flight
called-no_probe m m' r' h p = rw (h.0, h.1) p

finish_attempt-no_probe :
    (now : ℕ) (outcome : AgentOutcome) (m : Machine) (r : Registry)
    → HasBreaker m r
    → outcome ≢ task_cancelled
    → probe_in_flight (finish_attempt now outcome m).0 ≡ false
unfolding finish_attempt
finish_attempt-no_probe now outcome m r (h, thresholds, v) n = by_outcome outcome n
  where
    after :
        ((circuit_of
            (step r (success m.current_candidate_model))
            m.current_candidate_model).half_open_probe_in_flight
          ≡ false)
        × ((circuit_of
              (step r (failure now m.current_candidate_model))
              m.current_candidate_model).half_open_probe_in_flight
            ≡ false)
        × ((circuit_of
              (step r (release m.current_candidate_model))
              m.current_candidate_model).half_open_probe_in_flight
            ≡ false)
    after = no_probe_after r m.current_candidate_model now thresholds v

    released : probe_in_flight (breaker_release m) ≡ false
    released = called-no_probe m _ _ (breaker_release-HasCalled m r h) after.2

    failed :
        (e : LlmError)
        → probe_in_flight
            (record (breaker_failure now m) { current_exception = some e; state = handle_failure })
          ≡ false
    failed e = called-no_probe m _ _ (breaker_failure-HasCalled now m r h) after.1

    by_outcome :
        (o : AgentOutcome) → o ≢ task_cancelled → probe_in_flight (finish_attempt now o m).0 ≡ false
    by_outcome (reply text) n = called-no_probe m _ _ (breaker_success-HasCalled m r h) after.0
    by_outcome guardrail_violation n = released
    by_outcome approval_cancelled n = released
    by_outcome client_disconnected n = released
    by_outcome (llm_error e) n = failed e
    by_outcome (unexpected text) n = failed _
    by_outcome task_cancelled n = absurd (n refl)

-- The registry that an attempt finds when it ends.
attempt_breaker :
    (input : Input) (r : Registry) (id : Text)
    → HasThresholds r.config
    → AllValid r
    → let r' = run (allow_request (run r input.before) input.started id).0 input.meanwhile in
      HasThresholds r'.config × AllValid r'
unfolding step
attempt_breaker input r id h v =
    let a = run r input.before in
    let b = step a (allow input.started id) in
    let ha : HasThresholds a.config = rw (config-run r input.before) h in
    let hb : HasThresholds b.config = rw (config-step a (allow input.started id)) ha in
    let va = run-AllValid r input.before h v in
    let vb = step-AllValid a (allow input.started id) ha va in
    (rw (config-run b input.meanwhile) hb, run-AllValid b input.meanwhile hb vb)

attempt_model-no_probe :
    (input : Input) (m : Machine) (r : Registry)
    → m.circuit_breaker ≡ some r
    → HasThresholds (run r input.meanwhile).config × AllValid (run r input.meanwhile)
    → input.outcome ≢ task_cancelled
    → probe_in_flight (attempt_model input m).0 ≡ false
unfolding attempt_model with_breaker emit
attempt_model-no_probe input m r h v n =
    finish_attempt-no_probe input.finished input.outcome _ (run r input.meanwhile)
      (ground (arith, h, ap (fmap (λ r. run r input.meanwhile)) h), v.0, v.1) n

-- On a machine whose breaker has valid circuits and thresholds above 0: when an attempt was made
-- and its task was not cancelled, no probe is in flight for its model afterwards, however the
-- agent ended and whatever other requests did to the breakers before it and during it.
pub probe_given_back :
    (input : Input) (m : Machine) (r : Registry)
    → HasBreaker m r
    → input.outcome ≢ task_cancelled
    → let m' = (on_execute_attempt input m).0 in
      m'.attempt.attempts ≢ m.attempt.attempts → probe_in_flight m' ≡ false
unfolding on_execute_attempt
probe_given_back input m r (h, t, v) n = rw h (
    by_answer (x.1) (emit_cb_state_change x.2 (record m { circuit_breaker = some x.0 }))
      (emitted-HasCalled x.2 m x.0).0
      (emit_cb_state_change-SameProgress x.2 (record m { circuit_breaker = some x.0 })).3)
  where
    x : Registry × Bool × Option CircuitStateTransition
    x = allow_request (run r input.before) input.started m.current_candidate_model

    by_answer :
        (allowed : Bool) (asked : Machine)
        → asked.circuit_breaker ≡ some x.0
        → asked.attempt ≡ m.attempt
        → let m' = (if allowed then attempt_model input asked else (skip_model asked, none)).0 in
          m'.attempt.attempts ≢ m.attempt.attempts → probe_in_flight m' ≡ false
    by_answer true asked b a = λ _.
        attempt_model-no_probe input asked x.0 b
          (attempt_breaker input r m.current_candidate_model t v) n
    by_answer false asked b a =
        λ c. absurd (c (unfold skip_model emit in ap (λ (y : FallbackAttemptState). y.attempts) a))
