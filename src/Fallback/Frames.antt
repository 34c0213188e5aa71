-- ===== src/Fallback/Frames.antt =====
-- What the handlers of the fallback machine leave alone, and the case split of the two large ones.
-- The models, where the machine stands in them, and the attempt are the same.
use ai_agent_starter_kit.Fallback.{
  LlmError, Input, FallbackAttemptState, Machine, Ending, failed_assertion, emit,
  emit_cb_state_change, breaker_success, breaker_failure, attempt_model, skip_model,
  on_execute_attempt, record_recovery_outcome,
}
use ai_agent_starter_kit.Fallback.Failure.{
  FallbackRuntimeConfig, note_reason, resolve_recovery, note_strategy, count_applied,
  take_resolution, follow_resolution, emit_resolution, note_failure, on_handle_failure,
}
use ai_agent_starter_kit.CircuitBreaker.{
  CircuitStateTransition, Registry, allow_request, record_success, record_failure,
}
use ai_agent_starter_kit.CircuitBreaker.Step.{run}
use ai_agent_starter_kit.Recovery.{
  Applied, nothing, overflow_retry, compaction_recovery, truncation_recovery, prompt_compaction,
  payload_truncation, RecoveryStrategyResolution,
}
use ai_agent_starter_kit.Common.{
  ℕ, ◌≡◌, refl, Bool, true, false, Option, none, some, arith, if◌then◌else◌, is_some, Text,
}

abbrev pub SameProgress : Machine → Machine → Type 0
SameProgress m m' =
    (m'.models ≡ m.models)
    × (m'.current_model_index ≡ m.current_model_index)
    × (m'.transform_retry_pending ≡ m.transform_retry_pending)
    × (m'.attempt ≡ m.attempt)

pub emit_cb_state_change-SameProgress :
    (t : Option CircuitStateTransition) (m : Machine) → SameProgress m (emit_cb_state_change t m)
unfolding emit_cb_state_change emit
emit_cb_state_change-SameProgress none m = (refl, refl, refl, refl)
emit_cb_state_change-SameProgress (some t) m = (refl, refl, refl, refl)

pub breaker_success-SameProgress : (m : Machine) → SameProgress m (breaker_success m)
unfolding breaker_success
breaker_success-SameProgress m = of_breaker m.circuit_breaker
  where
    of_breaker :
        (o : Option Registry)
        → SameProgress m (elim o as (λ _. Machine) [
          | none ↦ m
          | some r ↦
              let (r', t) = record_success r m.current_candidate_model in
              emit_cb_state_change t (record m { circuit_breaker = some r' })
        ])
    of_breaker none = (refl, refl, refl, refl)
    of_breaker (some r) =
        let x = record_success r m.current_candidate_model in
        emit_cb_state_change-SameProgress x.1 (record m { circuit_breaker = some x.0 })

pub breaker_failure-SameProgress : (now : ℕ) (m : Machine) → SameProgress m (breaker_failure now m)
unfolding breaker_failure
breaker_failure-SameProgress now m = of_breaker m.circuit_breaker
  where
    of_breaker :
        (o : Option Registry)
        → SameProgress m (elim o as (λ _. Machine) [
          | none ↦ m
          | some r ↦
              let (r', t) = record_failure r now m.current_candidate_model in
              emit_cb_state_change t (record m { circuit_breaker = some r' })
        ])
    of_breaker none = (refl, refl, refl, refl)
    of_breaker (some r) =
        let x = record_failure r now m.current_candidate_model in
        emit_cb_state_change-SameProgress x.1 (record m { circuit_breaker = some x.0 })

-- What the resolution leaves of the attempt.
abbrev pub SameCounts : FallbackAttemptState → FallbackAttemptState → Type 0
SameCounts a b =
    (b.attempts ≡ a.attempts) × (b.max_attempts ≡ a.max_attempts) × (b.last_error ≡ a.last_error)

note_strategy-SameCounts :
    (model : Text) (r : RecoveryStrategyResolution) (a : FallbackAttemptState)
    → SameCounts a (note_strategy model r a)
unfolding note_strategy
note_strategy-SameCounts model r a = ground arith

count_applied-SameCounts :
    (applied : Applied) (a : FallbackAttemptState) → SameCounts a (count_applied applied a)
unfolding count_applied
count_applied-SameCounts nothing a = (refl, refl, refl)
count_applied-SameCounts overflow_retry a = (refl, refl, refl)
count_applied-SameCounts compaction_recovery a = (refl, refl, refl)
count_applied-SameCounts truncation_recovery a = (refl, refl, refl)
count_applied-SameCounts prompt_compaction a = (refl, refl, refl)
count_applied-SameCounts payload_truncation a = (refl, refl, refl)

take_resolution-SameCounts :
    (model : Text) (r : RecoveryStrategyResolution) (a : FallbackAttemptState)
    → SameCounts a (take_resolution model r a)
unfolding take_resolution
take_resolution-SameCounts model r a =
    ground (arith, count_applied-SameCounts r.applied, note_strategy-SameCounts model r)

emit_resolution-SameProgress :
    (r : RecoveryStrategyResolution) (m : Machine) → SameProgress m (emit_resolution r m)
unfolding emit_resolution emit
emit_resolution-SameProgress r m = ground arith

-- The handler of an attempt tries the model or skips it, after calls that only change the breakers.
pub on_execute_attempt-cases :
    (P : Machine × Option Ending → Type 0) (input : Input) (m : Machine)
    → ((asked : Machine) → SameProgress m asked → P (attempt_model input asked))
    → ((asked : Machine) → SameProgress m asked → P (skip_model asked, none))
    → P (on_execute_attempt input m)
unfolding on_execute_attempt
on_execute_attempt-cases P input m tried skipped = of_breaker m.circuit_breaker
  where
    of_answer :
        (allowed : Bool) (asked : Machine)
        → SameProgress m asked
        → P (if allowed then attempt_model input asked else (skip_model asked, none))
    of_answer true asked s = tried asked s
    of_answer false asked s = skipped asked s

    of_breaker :
        (o : Option Registry)
        → P (elim o as (λ _. Machine × Option Ending) [
          | none ↦ attempt_model input m
          | some r ↦
              let (r', allowed, t) =
                allow_request (run r input.before) input.started m.current_candidate_model in
              let asked = emit_cb_state_change t (record m { circuit_breaker = some r' }) in
              if allowed then attempt_model input asked else (skip_model asked, none)
        ])
    of_breaker none = tried m (refl, refl, refl, refl)
    of_breaker (some r) =
        let x = allow_request (run r input.before) input.started m.current_candidate_model in
        of_answer x.1 (emit_cb_state_change x.2 (record m { circuit_breaker = some x.0 }))
          (emit_cb_state_change-SameProgress x.2 (record m { circuit_breaker = some x.0 }))

-- The machine in which a resolution is followed: the failure is noted and the resolution taken.
abbrev pub HasNoted : LlmError → Machine → Machine → Type 0
HasNoted e m m' =
    (m'.models ≡ m.models)
    × (m'.current_model_index ≡ m.current_model_index)
    × (m'.transform_retry_pending ≡ m.transform_retry_pending)
    × (m'.attempt.attempts ≡ m.attempt.attempts)
    × (m'.attempt.max_attempts ≡ m.attempt.max_attempts)
    × (m'.attempt.last_error ≡ some e)

note_failure-HasNoted : (e : LlmError) (m : Machine) → HasNoted e m (note_failure e m)
unfolding note_failure record_recovery_outcome note_reason
note_failure-HasNoted e m = ground arith

-- The handler of a failure follows a resolution, once the exception is there.
pub on_handle_failure-cases :
    (P : Machine × Option Ending → Type 0) (cfg : FallbackRuntimeConfig) (m : Machine)
    → is_some m.current_exception ≡ true
    → ((e : LlmError) (r : RecoveryStrategyResolution) (m' : Machine)
        → HasNoted e m m'
        → P (follow_resolution cfg r m', none))
    → P (on_handle_failure cfg m)
unfolding on_handle_failure
on_handle_failure-cases P cfg m x followed = of_exception m.current_exception x
  where
    noted_resolution :
        (e : LlmError) (r : RecoveryStrategyResolution) (noted : Machine)
        → HasNoted e m noted
        → P (
          follow_resolution cfg r (
              emit_resolution r (record noted {
                attempt = take_resolution noted.current_candidate_model r noted.attempt;
              })),
          none,
        )
    noted_resolution e r noted n =
        let taken : Machine = record noted {
          attempt = take_resolution noted.current_candidate_model r noted.attempt;
        } in
        let c = take_resolution-SameCounts noted.current_candidate_model r noted.attempt in
        followed e r (emit_resolution r taken)
          (ground (arith, emit_resolution-SameProgress r taken, c, n))

    of_exception :
        (o : Option LlmError)
        → is_some o ≡ true
        → P (elim o as (λ _. Machine × Option Ending) [
          | none ↦ (m, some failed_assertion)
          | some e ↦
              let noted = note_failure e m in
              let r = resolve_recovery cfg noted in
              let taken : Machine = record noted {
                attempt = take_resolution noted.current_candidate_model r noted.attempt;
              } in
              (follow_resolution cfg r (emit_resolution r taken), none)
        ])
    of_exception none x = absurd (ground (arith, x))
    of_exception (some e) x =
        noted_resolution e (resolve_recovery cfg (note_failure e m)) (note_failure e m)
          (note_failure-HasNoted e m)
