-- ===== src/Fallback/Termination.antt =====
-- The loop of the fallback machine ends: each step takes it closer to the end, by the attempts and the
-- models that are left and by its state.
use ai_agent_starter_kit.Fallback.{
  FallbackState, init, select_model, execute_attempt, handle_success, handle_failure,
  finalize_failure, Machine, Ending,
}
use ai_agent_starter_kit.Fallback.Invariant.{total_attempts, IsTrueEnding}
use ai_agent_starter_kit.Common.{ℕ, ◌+◌, ◌-◌, ◌*◌, ◌≤◌, ◌<◌, Option, none, some, List, length, Text}

abbrev distance : Machine → ℕ
distance m = (m.attempt.max_attempts - total_attempts m) + (length m.models - m.current_model_index)

abbrev weight_in : FallbackState → Machine → ℕ
weight_in init m = 3 * distance m + 3
weight_in select_model m = 3 * distance m + 2
weight_in execute_attempt m = 3 * distance m + 1
weight_in handle_success m = 3 * distance m + 1
weight_in handle_failure m = 3 * distance m + 3
weight_in finalize_failure m = 3 * distance m + 1

abbrev weight : Machine → ℕ
weight m = weight_in m.state m

-- A step that goes on comes below the bound.
abbrev ComesBelow : ℕ → Machine × Option Ending → Type 0
ComesBelow n (m, none) = weight m < n
ComesBelow n (m, some _) = Unit

-- The loop has ended in a good way, with these models and this limit of attempts.
abbrev pub HasEnded : List Text → ℕ → Option (Machine × Ending) → Type 0
HasEnded models limit none = ⊥
HasEnded models limit (some (m, e)) =
    (total_attempts m ≤ limit) × (total_attempts m ≤ 2 * length models) × IsTrueEnding e m
