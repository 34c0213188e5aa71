-- ===== src/Fallback/Invariant.antt =====
-- What holds of the fallback machine in each of its states.
use ai_agent_starter_kit.Fallback.{
  FallbackState, init, select_model, execute_attempt, handle_success, handle_failure,
  finalize_failure, Machine, Ending, returned, raised_llm_error, failed_assertion, routing_failed,
}
use ai_agent_starter_kit.Common.{
  ℕ, ◌+◌, ◌*◌, ◌≤◌, ◌<◌, ◌≡◌, true, Option, none, some, ltb, if◌then◌else◌, is_some, length,
}

abbrev pub total_attempts : Machine → ℕ
total_attempts m = m.attempt.attempts

-- A second attempt on a model is only made after a first one that has changed the message.
abbrev pub retries : Machine → ℕ
retries m = if m.transform_retry_pending then 1 else 0

-- The attempts are within the limit of the settings, within twice the models that were left and the
-- retry that is pending, and within twice the models.
abbrev pub IsWithin : Machine → Type 0
IsWithin m =
    (total_attempts m ≤ m.attempt.max_attempts)
    × (total_attempts m ≤ 2 * m.current_model_index + retries m)
    × (total_attempts m ≤ 2 * length m.models)

-- An error is kept exactly when an attempt was made.
abbrev pub KeepsError : Machine → Type 0
KeepsError m = is_some m.attempt.last_error ≡ ltb 0 (total_attempts m)

-- There is an attempt left, and a model for it.
abbrev pub CanTry : Machine → Type 0
CanTry m = (total_attempts m < m.attempt.max_attempts) × (m.current_model_index < length m.models)

-- The attempt that was made on the model.
abbrev pub IsTried : Machine → Type 0
IsTried m =
    (0 < total_attempts m)
    × (total_attempts m ≤ m.attempt.max_attempts)
    × (m.current_model_index < length m.models)
    × (total_attempts m ≤ 2 * m.current_model_index + retries m + 1)

-- The invariant, by state.
abbrev pub IsConsistentIn : FallbackState → Machine → Type 0
IsConsistentIn init m = IsWithin m × KeepsError m × CanTry m
IsConsistentIn select_model m = IsWithin m × KeepsError m
IsConsistentIn execute_attempt m = IsWithin m × KeepsError m × CanTry m
IsConsistentIn handle_success m = IsTried m
IsConsistentIn handle_failure m = IsTried m × (is_some m.current_exception ≡ true)
IsConsistentIn finalize_failure m =
    KeepsError m
    × (total_attempts m ≤ m.attempt.max_attempts)
    × (total_attempts m ≤ 2 * length m.models)

abbrev pub IsConsistent : Machine → Type 0
IsConsistent m = IsConsistentIn m.state m

-- What is true of the machine when the loop is left: an attempt was made, unless no model could be asked;
-- the text is the one of the agent; and the error is the last one of an attempt, if there was one.
abbrev pub IsTrueEnding : Ending → Machine → Type 0
IsTrueEnding (returned text) m = (0 < total_attempts m) × (text ≡ m.current_result)
IsTrueEnding (raised_llm_error e) m =
    (0 < total_attempts m → m.attempt.last_error ≡ some e)
    × (total_attempts m ≡ 0 → e ≡ routing_failed)
IsTrueEnding failed_assertion m = ⊥
IsTrueEnding _ m = 0 < total_attempts m

abbrev pub IsGoodEnd : Ending → Machine → Type 0
IsGoodEnd e m =
    (total_attempts m ≤ m.attempt.max_attempts)
    × (total_attempts m ≤ 2 * length m.models)
    × IsTrueEnding e m

-- The machine goes on and is consistent, or the loop is left in a good way.
abbrev pub GoesWell : Machine × Option Ending → Type 0
GoesWell (m, none) = IsConsistent m
GoesWell (m, some e) = IsGoodEnd e m
