-- ===== src/CircuitBreaker/Window.antt =====
-- The failure window of `record_failure`.
use ai_agent_starter_kit.CircuitBreaker.{
  closed, opened, CircuitBreakerConfig, ModelCircuit, evict_old_failures, transition,
  failure_circuit,
}
use ai_agent_starter_kit.Common.{
  ℕ, ◌+◌, ◌≤◌, ◌≡◌, refl, ◌∙◌, Bool, true, none, List, [], ◌∷◌, ◌++◌, arith, leb, if◌then◌else◌,
  length, filter, length-append, All, All-append, Text,
}

-- The stamps of a deque that is filled at the right by a clock that does not run back.
abbrev pub IsAscending : List ℕ → Type 0
IsAscending [] = Unit
IsAscending (t ∷ ts) = All (λ u. t ≤ u) ts × IsAscending ts

abbrev pub in_window : CircuitBreakerConfig → ℕ → ℕ → Bool
in_window cfg now t = leb now (t + cfg.failure_window_seconds)

filter-All-in_window :
    (cfg : CircuitBreakerConfig) (now t : ℕ) (ts : List ℕ)
    → in_window cfg now t ≡ true
    → All (λ u. t ≤ u) ts
    → filter (in_window cfg now) ts ≡ ts
filter-All-in_window cfg now t [] h a = refl
filter-All-in_window cfg now t (u ∷ us) h a =
    ground (arith, filter-All-in_window cfg now t us h a.1)

-- On ascending stamps, popping old stamps from the left keeps exactly the stamps in the window.
pub evict_old_failures-eq-filter :
    (cfg : CircuitBreakerConfig) (now : ℕ) (ts : List ℕ)
    → IsAscending ts
    → evict_old_failures cfg now ts ≡ filter (in_window cfg now) ts
unfolding evict_old_failures
evict_old_failures-eq-filter cfg now [] h = refl
evict_old_failures-eq-filter cfg now (t ∷ ts) h =
    ground (arith, evict_old_failures-eq-filter cfg now ts h.1, filter-All-in_window cfg now t ts)

append-IsAscending :
    (ts : List ℕ) (now : ℕ) → IsAscending ts → All (λ t. t ≤ now) ts → IsAscending (ts ++ now ∷ [])
append-IsAscending [] now h a = (tt, tt)
append-IsAscending (t ∷ ts) now h a =
    (All-append (λ u. t ≤ u) ts (now ∷ []) h.0 (a.0, tt), append-IsAscending ts now h.1 a.1)

filter-append-now :
    (cfg : CircuitBreakerConfig) (now : ℕ) (ts : List ℕ)
    → filter (in_window cfg now) (ts ++ now ∷ []) ≡ filter (in_window cfg now) ts ++ now ∷ []
filter-append-now cfg now [] = ground arith
filter-append-now cfg now (t ∷ ts) = ground (arith, filter-append-now cfg now ts)

-- The stamps that `record_failure` keeps.
kept_stamps :
    (cfg : CircuitBreakerConfig) (now : ℕ) (ts : List ℕ)
    → IsAscending ts
    → All (λ t. t ≤ now) ts
    → evict_old_failures cfg now (ts ++ now ∷ []) ≡ filter (in_window cfg now) ts ++ now ∷ []
kept_stamps cfg now ts h a =
    evict_old_failures-eq-filter cfg now (ts ++ now ∷ []) (append-IsAscending ts now h a)
    ∙ filter-append-now cfg now ts

-- A failure of a closed circuit whose stamps ascend up to the clock opens the circuit exactly when
-- the stamps in the window, this failure included, reach the threshold; the circuit then keeps
-- those stamps, and the transition that is reported is the one from CLOSED to OPEN or none.
pub failure_opens_exactly :
    (cfg : CircuitBreakerConfig) (now : ℕ) (id : Text) (c : ModelCircuit)
    → c.state ≡ closed
    → IsAscending c.failure_timestamps
    → All (λ t. t ≤ now) c.failure_timestamps
    → let recent = filter (in_window cfg now) c.failure_timestamps in
      let (c', t) = failure_circuit cfg now id c in
      (c'.failure_timestamps ≡ recent ++ now ∷ [])
      × (c'.state ≡ (if leb cfg.failure_threshold (length recent + 1) then opened else closed))
      × (t ≡ (
          if leb cfg.failure_threshold (length recent + 1)
          then transition id closed opened
          else none))
unfolding failure_circuit
failure_opens_exactly cfg now id c s h a =
    let e = kept_stamps cfg now c.failure_timestamps h a in
    let l = length-append {0} (filter (in_window cfg now) c.failure_timestamps) (now ∷ []) in
    (ground (arith, e, l), ground (arith, e, l), ground (arith, e, l))

-- A failure that is recorded while the circuit is already open, and that finds enough recent
-- failures, restarts the recovery timeout and is reported as a transition from CLOSED to OPEN.
pub late_failure_misreported :
    (cfg : CircuitBreakerConfig) (now : ℕ) (id : Text) (c : ModelCircuit)
    → c.state ≡ opened
    → IsAscending c.failure_timestamps
    → All (λ t. t ≤ now) c.failure_timestamps
    → cfg.failure_threshold ≤ length (filter (in_window cfg now) c.failure_timestamps) + 1
    → let (c', t) = failure_circuit cfg now id c in
      (c'.state ≡ opened) × (c'.opened_at_mono ≡ now) × (t ≡ transition id closed opened)
unfolding failure_circuit
late_failure_misreported cfg now id c s h a n =
    let e = kept_stamps cfg now c.failure_timestamps h a in
    let l = length-append {0} (filter (in_window cfg now) c.failure_timestamps) (now ∷ []) in
    ground (arith, e, l)
