-- ===== src/CircuitBreaker/Invariant.antt =====
-- What holds of every tracked circuit between two calls, and when a request is let through.
use ai_agent_starter_kit.CircuitBreaker.{
  closed, opened, half_open, CircuitBreakerConfig, ModelCircuit, new_circuit, allow_circuit,
  success_circuit, failure_circuit, reset_circuit, release_circuit, Registry, allow_request,
  state_of, get_state,
}
use ai_agent_starter_kit.CircuitBreaker.Step.{
  Call, allow, success, failure, clear, release, model_of, step, run, on_circuit, step-eq-update,
  circuit_of, config-step, update_circuit-All, circuit_of-All, allow_request-eq,
}
use ai_agent_starter_kit.Common.{
  ℕ, ◌+◌, ◌<◌, ◌≡◌, sym, ap, ◌∙◌, ◌⊎◌, Bool, true, false, not, List, [], ◌∷◌, arith, leb, length,
  All, Text,
}

pub record IsValid (cfg : CircuitBreakerConfig) (c : ModelCircuit) : Type 0 where
  pub probe_half_open : c.half_open_probe_in_flight ≡ true → c.state ≡ half_open
  pub successes_half_open : 0 < c.half_open_successes → c.state ≡ half_open
  pub below_success : c.half_open_successes < cfg.success_threshold
  pub below_failure : c.state ≡ closed → length c.failure_timestamps < cfg.failure_threshold

-- The thresholds that the invariant needs; the defaults are 5 and 2.
abbrev pub HasThresholds : CircuitBreakerConfig → Type 0
HasThresholds cfg = (0 < cfg.failure_threshold) × (0 < cfg.success_threshold)

pub new_circuit-IsValid : (cfg : CircuitBreakerConfig) → HasThresholds cfg → IsValid cfg new_circuit
new_circuit-IsValid cfg h = ground arith

on_circuit-IsValid :
    (cfg : CircuitBreakerConfig) (call : Call) (c : ModelCircuit)
    → HasThresholds cfg
    → IsValid cfg c
    → IsValid cfg (on_circuit cfg call c)
unfolding on_circuit allow_circuit success_circuit failure_circuit reset_circuit release_circuit
on_circuit-IsValid cfg (allow now id) c h v = ground arith
on_circuit-IsValid cfg (success id) c h v = ground arith
on_circuit-IsValid cfg (failure now id) c h v = ground arith
on_circuit-IsValid cfg (clear id) c h v = ground arith
on_circuit-IsValid cfg (release id) c h v = ground arith

abbrev pub AllValid : Registry → Type 0
AllValid r = All (λ e. IsValid r.config e.1) r.circuits

pub step-AllValid :
    (r : Registry) (call : Call) → HasThresholds r.config → AllValid r → AllValid (step r call)
step-AllValid r call h v = rw config-step (
    rw step-eq-update (
      update_circuit-All (λ e. IsValid r.config e.1) r (model_of call) (on_circuit r.config call) v
        (new_circuit-IsValid r.config h)
        (on_circuit-IsValid r.config call (circuit_of r (model_of call)) h (
          circuit_of-All (λ e. IsValid r.config e.1) r (model_of call) v
            (new_circuit-IsValid r.config h)))))

-- Whatever calls are made, in whatever order, on a registry whose circuits are valid, every
-- tracked circuit stays valid: a probe or a success count stands only in a half-open circuit, the
-- success count is below its threshold, and a closed circuit holds fewer failures than its
-- threshold.
pub run-AllValid :
    (r : Registry) (calls : List Call)
    → HasThresholds r.config
    → AllValid r
    → AllValid (run r calls)
unfolding run
run-AllValid r [] h v = v
run-AllValid r (c ∷ cs) h v = run-AllValid (step r c) cs (rw config-step h) (step-AllValid r c h v)

-- The requests that the documentation of the class lets through.
unfoldable pub is_admissible : CircuitBreakerConfig → ℕ → ModelCircuit → Bool
is_admissible cfg now c = elim c.state [
  | closed ↦ true
  | opened ↦ leb (c.opened_at_mono + cfg.recovery_timeout_seconds) now
  | half_open ↦ not c.half_open_probe_in_flight
]

allow_circuit_exact :
    (cfg : CircuitBreakerConfig) (now : ℕ) (id : Text) (c : ModelCircuit)
    → let (c', allowed, t) = allow_circuit cfg now id c in
      (allowed ≡ is_admissible cfg now c)
      × (allowed ≡ true → (c.state ≡ closed) ⊎ (c'.half_open_probe_in_flight ≡ true))
      × (allowed ≡ false → c' ≡ c)
      × (c'.state ≡ state_of cfg now c)
unfolding allow_circuit is_admissible state_of
allow_circuit_exact cfg now id c = ground arith

-- A request is allowed exactly when the model's circuit is closed, or is open and its recovery
-- timeout has passed, or is half-open with no probe in flight; in the last two cases a probe is in
-- flight afterwards, and a refused request leaves the model's circuit as it was.
pub allow_request_exact :
    (r : Registry) (now : ℕ) (id : Text)
    → let c = circuit_of r id in
      let (r', allowed, t) = allow_request r now id in
      (allowed ≡ is_admissible r.config now c)
      × (allowed ≡ true
          → (c.state ≡ closed) ⊎ ((circuit_of r' id).half_open_probe_in_flight ≡ true))
      × (allowed ≡ false → circuit_of r' id ≡ c)
allow_request_exact r now id =
    let e = allow_request-eq r now id in
    let x = allow_circuit_exact r.config now id (circuit_of r id) in
    (e.0 ∙ x.0, ground (arith, e, x), ground (arith, e, x))

get_state-eq-state_of :
    (r : Registry) (now : ℕ) (id : Text)
    → get_state r now id ≡ state_of r.config now (circuit_of r id)
unfolding get_state state_of circuit_of
get_state-eq-state_of r now id = ground arith

-- For every model, tracked or not, `get_state` reads the state in which the next request would leave the circuit.
pub get_state-eq-allow :
    (r : Registry) (now : ℕ) (id : Text)
    → get_state r now id ≡ (circuit_of (allow_request r now id).0 id).state
get_state-eq-allow r now id =
    get_state-eq-state_of r now id
    ∙ sym (allow_circuit_exact r.config now id (circuit_of r id)).3
    ∙ ap (λ (c : ModelCircuit). c.state) (sym (allow_request-eq r now id).2)
