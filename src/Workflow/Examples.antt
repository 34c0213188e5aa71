-- ===== src/Workflow/Examples.antt =====
-- A workflow of three steps: a condition, and an agent step behind its true branch.
use ai_agent_starter_kit.Workflow.{
  agent, condition, delay, WorkflowStepDef, WorkflowGraphDef, value, WorkflowStatus, completed,
  WorkflowExecutionState, SubrunInfo, run_raised, run_timed_out, polled, no_services, World,
  terminal_statuses, success, error_result, timeout_result, execute_agent_step, execute,
}
use ai_agent_starter_kit.Workflow.Ending.{IsRanked, HasEnded, workflow_ends}
use ai_agent_starter_kit.Workflow.Subruns.{IsPending, text_of, agent_step_exact}
use ai_agent_starter_kit.Common.{
  ℕ, ◌≡◌, refl, inl, true, Option, none, some, List, [], ◌∷◌, ◌++◌, arith, if◌then◌else◌, length,
  All, Text, codes, text_eq, elem,
}

abbrev check_step : WorkflowStepDef
check_step = record {
  id = codes "check";
  type = condition;
  connector_id = none;
  on_true = some (codes "ask");
  on_false = some (codes "wait");
  next_step = none;
  timeout_seconds = 120;
}

abbrev ask_step : WorkflowStepDef
ask_step = record check_step {
  id = codes "ask";
  type = agent;
  on_true = none;
  on_false = none;
  next_step = some (codes "wait");
}

abbrev wait_step : WorkflowStepDef
wait_step = record check_step {
  id = codes "wait";
  type = delay;
  on_true = none;
  on_false = none;
  timeout_seconds = 5;
}

abbrev three_steps : WorkflowGraphDef
three_steps = record {
  steps = check_step ∷ ask_step ∷ wait_step ∷ [];
  entry_step_id = codes "check";
}

abbrev failed_info : SubrunInfo
failed_info = record {
  status = codes "failed";
  result_text = none;
  final_text = some (codes "no answer");
}

abbrev running_info : SubrunInfo
running_info = record { status = codes "running"; result_text = none; final_text = none }

-- The subrun of the agent step fails.
abbrev failing_world : World
failing_world = record {
  run_agent = λ n s state. polled (none ∷ some running_info ∷ some failed_info ∷ []);
  call_connector = λ n s state. no_services;
  resolve_transform = λ s context. inl none;
  evaluate_condition = λ s context. inl true;
}

abbrev status_of : Option WorkflowExecutionState → Option (WorkflowStatus × ℕ)
status_of none = none
status_of (some state) = some (state.status, length state.step_results)

failed_subrun_completes :
    status_of (execute failing_world three_steps 4 (codes "hi") none) ≡ some (completed, 3)
unfolding execute
failed_subrun_completes = refl

-- The steps that are left behind each step.
abbrev steps_left : Text → ℕ
steps_left id = if text_eq id (codes "check") then 2 else if text_eq id (codes "ask") then 1 else 0

three_steps-IsRanked : IsRanked three_steps.steps steps_left
unfolding text_eq
three_steps-IsRanked = ground arith

workflow_ends_example : HasEnded three_steps (execute failing_world three_steps 4 (codes "hi") none)
workflow_ends_example =
    workflow_ends failing_world three_steps steps_left 4 (codes "hi") none three_steps-IsRanked
      (unfold text_eq in omega arith) tt

agent_step_exact_example :
    ((earlier later : List (Option SubrunInfo)) (info : SubrunInfo)
      → All IsPending earlier
      → elem info.status terminal_statuses ≡ true
      → execute_agent_step ask_step (polled (earlier ++ some info ∷ later))
        ≡ success ask_step (value (text_of info)))
    × ((polls : List (Option SubrunInfo))
        → All IsPending polls
        → execute_agent_step ask_step (polled polls) ≡ timeout_result ask_step)
    × ((message : Text)
        → execute_agent_step ask_step (run_raised message) ≡ error_result ask_step message)
    × (execute_agent_step ask_step run_timed_out ≡ timeout_result ask_step)
agent_step_exact_example = agent_step_exact ask_step
