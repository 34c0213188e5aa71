-- ===== src/CircuitBreaker/Recovery.antt =====
-- The way back from OPEN to CLOSED.
use ai_agent_starter_kit.CircuitBreaker.{
  closed, opened, half_open, CircuitBreakerConfig, ModelCircuit, allow_circuit, success_circuit,
  Registry,
}
use ai_agent_starter_kit.CircuitBreaker.Step.{
  Call, allow, success, step, run, on_circuit, circuit_of, circuit_of-step, config-step,
}
use ai_agent_starter_kit.Common.{
  ℕ, zero, suc, ◌+◌, ◌≤◌, ◌<◌, ◌≡◌, refl, ap, ◌∙◌, true, false, List, [], ◌∷◌, arith, leb, Text,
}

-- So many requests for a model at one time, each with a successful outcome.
abbrev pub rounds : ℕ → ℕ → Text → List Call
rounds zero now id = []
rounds (suc k) now id = allow now id ∷ success id ∷ rounds k now id

-- One request and its success, on a half-open circuit with no probe in flight.
round_circuit :
    (cfg : CircuitBreakerConfig) (now : ℕ) (id : Text) (c : ModelCircuit)
    → c.state ≡ half_open
    → c.half_open_probe_in_flight ≡ false
    → let c' = on_circuit cfg (success id) (on_circuit cfg (allow now id) c) in
      (leb cfg.success_threshold (c.half_open_successes + 1) ≡ true → c'.state ≡ closed)
      × (leb cfg.success_threshold (c.half_open_successes + 1) ≡ false
          → (c'.state ≡ half_open)
            × (c'.half_open_probe_in_flight ≡ false)
            × (c'.half_open_successes ≡ c.half_open_successes + 1))
unfolding on_circuit allow_circuit success_circuit
round_circuit cfg now id c s p = ground arith

circuit_of-round :
    (r : Registry) (now : ℕ) (id : Text)
    → circuit_of (step (step r (allow now id)) (success id)) id
      ≡ on_circuit r.config (success id) (on_circuit r.config (allow now id) (circuit_of r id))
circuit_of-round r now id =
    circuit_of-step (step r (allow now id)) (success id)
    ∙ ap (λ cfg. on_circuit cfg (success id) (circuit_of (step r (allow now id)) id))
        (config-step r (allow now id))
    ∙ ap (on_circuit r.config (success id)) (circuit_of-step r (allow now id))

-- From half-open, the missing successes close the circuit.
half_open_recovers :
    (k : ℕ) (r : Registry) (now : ℕ) (id : Text)
    → (circuit_of r id).state ≡ half_open
    → (circuit_of r id).half_open_probe_in_flight ≡ false
    → (circuit_of r id).half_open_successes + suc k ≡ r.config.success_threshold
    → (circuit_of (run r (rounds (suc k) now id)) id).state ≡ closed
unfolding run
half_open_recovers zero r now id s p e =
    ap (λ (c : ModelCircuit). c.state) (circuit_of-round r now id)
    ∙ (round_circuit r.config now id (circuit_of r id) s p).0 (ground arith)
half_open_recovers (suc k) r now id s p e =
    let r' = step (step r (allow now id)) (success id) in
    let next = (round_circuit r.config now id (circuit_of r id) s p).1 (ground arith) in
    let q = circuit_of-round r now id in
    let cfg = config-step (step r (allow now id)) (success id) ∙ config-step r (allow now id) in
    half_open_recovers k r' now id (rw q next.0) (rw q next.1)
      (rw (q, cfg) (rw (next.2) (omega arith)))

-- What a first request does to an open circuit whose timeout has passed, seen through its success.
reopened_round :
    (cfg : CircuitBreakerConfig) (now : ℕ) (id : Text) (c : ModelCircuit)
    → c.state ≡ opened
    → c.opened_at_mono + cfg.recovery_timeout_seconds ≤ now
    → let c' = on_circuit cfg (success id) (on_circuit cfg (allow now id) c) in
      (leb cfg.success_threshold 1 ≡ true → c'.state ≡ closed)
      × (leb cfg.success_threshold 1 ≡ false
          → (c'.state ≡ half_open)
            × (c'.half_open_probe_in_flight ≡ false)
            × (c'.half_open_successes ≡ 1))
unfolding on_circuit allow_circuit success_circuit
reopened_round cfg now id c s h = ground arith

-- An open circuit whose recovery timeout has passed is closed again by as many successful requests
-- as the success threshold says, whatever else the registry holds.
pub open_recovers :
    (r : Registry) (now : ℕ) (id : Text)
    → (circuit_of r id).state ≡ opened
    → (circuit_of r id).opened_at_mono + r.config.recovery_timeout_seconds ≤ now
    → 0 < r.config.success_threshold
    → (circuit_of (run r (rounds r.config.success_threshold now id)) id).state ≡ closed
open_recovers r now id s h t = go r.config.success_threshold refl t
  where
    r' : Registry
    r' = step (step r (allow now id)) (success id)

    q :
        circuit_of r' id
        ≡ on_circuit r.config (success id) (on_circuit r.config (allow now id) (circuit_of r id))
    q = circuit_of-round r now id

    cfg : r'.config ≡ r.config
    cfg = config-step (step r (allow now id)) (success id) ∙ config-step r (allow now id)

    go :
        (n : ℕ)
        → n ≡ r.config.success_threshold
        → 0 < n
        → (circuit_of (run r (rounds n now id)) id).state ≡ closed
    go zero e p = absurd (omega arith)
    go (suc zero) e p =
        unfold run in
        ap (λ (c : ModelCircuit). c.state) q
        ∙ (reopened_round r.config now id (circuit_of r id) s h).0 (ground arith)
    go (suc (suc k)) e p =
        let next = (reopened_round r.config now id (circuit_of r id) s h).1 (ground arith) in
        unfold run in
        half_open_recovers k r' now id (rw q next.0) (rw q next.1)
          (rw (q, cfg) (rw (next.2) (omega arith)))
