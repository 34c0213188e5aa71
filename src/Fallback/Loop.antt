-- ===== src/Fallback/Loop.antt =====
-- The loop of `FallbackStateMachine.run`: a step for each state, and the steps on fuel. The function from
-- numbers gives what happens around the attempts, a step reads the next one.
use ai_agent_starter_kit.Fallback.{
  init, select_model, execute_attempt, handle_success, handle_failure, finalize_failure, Input,
  Machine, Ending, on_select_model, on_execute_attempt, on_handle_success, on_finalize_failure,
}
use ai_agent_starter_kit.Fallback.Failure.{FallbackRuntimeConfig, on_handle_failure}
use ai_agent_starter_kit.Common.{ℕ, zero, suc, Option, none, some}

unfoldable pub step_machine : FallbackRuntimeConfig → Input → Machine → Machine × Option Ending
unfolding on_select_model on_execute_attempt on_handle_success on_handle_failure on_finalize_failure
step_machine cfg input m = elim m.state [
  | init ↦ (record m { state = select_model }, none)
  | select_model ↦ (on_select_model m, none)
  | execute_attempt ↦ on_execute_attempt input m
  | handle_success ↦ on_handle_success m
  | handle_failure ↦ on_handle_failure cfg m
  | finalize_failure ↦ (m, some (on_finalize_failure m))
]

unfoldable pub run_machine :
    FallbackRuntimeConfig → ℕ → (ℕ → Input) → Machine → Option (Machine × Ending)
unfolding step_machine
run_machine cfg zero inputs m = none
run_machine cfg (suc fuel) inputs m =
    let (m', ending) = step_machine cfg (inputs 0) m in
    elim ending [ some e ↦ some (m', e) | none ↦ run_machine cfg fuel (λ n. inputs (suc n)) m' ]
