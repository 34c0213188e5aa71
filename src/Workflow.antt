-- ===== src/Workflow.antt =====
-- backend/app/orchestrator/workflow_models.py and workflow_engine.py: a graph of steps is executed one step
-- after the other, each with the results of the steps before it. What lies outside of the engine is a
-- `World` of functions that are also given the number of the visit: the subrun lane, the connectors and
-- the templates and conditions of workflow_transforms.py. The events and durations are left out.
pub mod Ending
pub mod Subruns
mod Examples
use ai_agent_starter_kit.Common.{
  ℕ, zero, suc, ◌⊎◌, inl, inr, Bool, true, false, not, Option, none, some, List, [], ◌∷◌,
  if◌then◌else◌, or_else, is_empty, Text, codes, text_eq, elem, or_default,
}
use ai_agent_starter_kit.Common.Dict.{Dict, put, fmap}

pub data StepType : Type 0 where
  agent connector transform condition delay : StepType

-- `WorkflowStepDef`, with the fields that the engine itself reads.
pub record WorkflowStepDef : Type 0 where
  pub id : Text
  pub type : StepType
  pub connector_id : Option Text
  pub on_true : Option Text
  pub on_false : Option Text
  pub next_step : Option Text
  pub timeout_seconds : ℕ

pub record WorkflowGraphDef : Type 0 where
  pub steps : List WorkflowStepDef
  pub entry_step_id : Text

-- `get_step`: the first step with the id.
unfoldable pub get_step : List WorkflowStepDef → Text → Option WorkflowStepDef
unfolding text_eq
get_step [] step_id = none
get_step (s ∷ steps) step_id =
    let rest = get_step steps step_id in if text_eq s.id step_id then some s else rest

pub data StepStatus : Type 0 where
  succeeded failed_with_error timed_out : StepStatus

-- What a step leaves: a value, as its text, the branch of a condition, or the length of a delay.
pub data Output : Type 0 where
  value : Text → Output
  branch : Bool → Output
  delayed_seconds : ℕ → Output

pub record StepResult : Type 0 where
  pub step_id : Text
  pub status : StepStatus
  pub output : Option Output
  pub error : Option Text

pub data WorkflowStatus : Type 0 where
  running completed failed : WorkflowStatus

pub record WorkflowExecutionState : Type 0 where
  pub current_step_id : Option Text
  pub step_results : Dict StepResult
  pub status : WorkflowStatus
  pub context : Dict Output

-- What `get_info` says of a subrun: its status and the two texts of its handover.
pub record SubrunInfo : Type 0 where
  pub status : Text
  pub result_text : Option Text
  pub final_text : Option Text

-- The subrun of a step: the message or the spawn raises an exception, of which a TimeoutError is
-- handled apart, or these are the answers of `get_info` up to the deadline.
pub data AgentRun : Type 0 where
  run_raised : Text → AgentRun
  run_timed_out : AgentRun
  polled : List (Option SubrunInfo) → AgentRun

-- The call of a connector; its result may be None.
pub data ConnectorCall : Type 0 where
  no_services not_found : ConnectorCall
  called : Option Text → ConnectorCall
  call_timed_out : ConnectorCall
  call_raised : Text → ConnectorCall

pub record World : Type 0 where
  pub run_agent : ℕ → WorkflowStepDef → WorkflowExecutionState → AgentRun
  pub call_connector : ℕ → WorkflowStepDef → WorkflowExecutionState → ConnectorCall
  pub resolve_transform : WorkflowStepDef → Dict Output → Option Text ⊎ Text
  pub evaluate_condition : WorkflowStepDef → Dict Output → Bool ⊎ Text

abbrev pub terminal_statuses : List Text
terminal_statuses = codes "completed" ∷ codes "failed" ∷ codes "timed_out" ∷ codes "cancelled" ∷ []

abbrev pub success : WorkflowStepDef → Output → StepResult
success s out = record { step_id = s.id; status = succeeded; output = some out; error = none }

-- A success whose value may be None.
abbrev pub result_or_none : WorkflowStepDef → Option Text → StepResult
result_or_none s result = record {
  step_id = s.id;
  status = succeeded;
  output = fmap value result;
  error = none;
}

abbrev pub error_result : WorkflowStepDef → Text → StepResult
error_result s message = record {
  step_id = s.id;
  status = failed_with_error;
  output = none;
  error = some message;
}

abbrev pub timeout_result : WorkflowStepDef → StepResult
timeout_result s = record {
  step_id = s.id;
  status = timed_out;
  output = none;
  error = some (codes "Step timed out");
}

-- `_await_subrun`: the text of the first terminal answer; none is the timeout.
unfoldable pub await_subrun : List (Option SubrunInfo) → Option Text
unfolding elem or_default
await_subrun [] = none
await_subrun (none ∷ polls) = await_subrun polls
await_subrun (some info ∷ polls) =
    let rest = await_subrun polls in
    if elem info.status terminal_statuses
    then some (or_default (or_default [] info.final_text) info.result_text)
    else rest

-- `_execute_agent_step`, with its exceptions as results.
unfoldable pub execute_agent_step : WorkflowStepDef → AgentRun → StepResult
unfolding await_subrun
execute_agent_step s (run_raised message) = error_result s message
execute_agent_step s run_timed_out = timeout_result s
execute_agent_step s (polled polls) = elim (await_subrun polls) [
  | none ↦ timeout_result s
  | some text ↦ success s (value text)
]

-- The result of the call itself.
abbrev pub connector_result : WorkflowStepDef → ConnectorCall → StepResult
connector_result s no_services = error_result s (codes "Connector services not configured")
connector_result s not_found = error_result s (codes "Connector not found")
connector_result s (called result) = result_or_none s result
connector_result s call_timed_out = timeout_result s
connector_result s (call_raised message) = error_result s message

-- `_execute_connector_step`
unfoldable pub execute_connector_step : WorkflowStepDef → ConnectorCall → StepResult
execute_connector_step s no_services = connector_result s no_services
execute_connector_step s call =
    if is_empty (or_else [] s.connector_id)
    then error_result s (codes "No connector_id specified")
    else connector_result s call

-- `_execute_transform_step`, where an exception is its message, and JSON's null is None.
unfoldable pub execute_transform_step : WorkflowStepDef → Option Text ⊎ Text → StepResult
execute_transform_step s (inl result) = result_or_none s result
execute_transform_step s (inr message) = error_result s message

unfoldable pub execute_condition_step : WorkflowStepDef → Bool ⊎ Text → StepResult
execute_condition_step s (inl result) = success s (branch result)
execute_condition_step s (inr message) = error_result s message

-- `_execute_step`
unfoldable pub execute_step : World → ℕ → WorkflowStepDef → WorkflowExecutionState → StepResult
unfolding execute_agent_step execute_connector_step execute_transform_step execute_condition_step
execute_step world n s state = elim s.type [
  | agent ↦ execute_agent_step s (world.run_agent n s state)
  | connector ↦ execute_connector_step s (world.call_connector n s state)
  | transform ↦ execute_transform_step s (world.resolve_transform s state.context)
  | condition ↦ execute_condition_step s (world.evaluate_condition s state.context)
  | delay ↦ success s (delayed_seconds s.timeout_seconds)
]

-- `output.get("branch", "false") == "true"`
abbrev pub took_true_branch : Option Output → Bool
took_true_branch (some (branch result)) = result
took_true_branch _ = false

abbrev pub is_success : StepStatus → Bool
is_success succeeded = true
is_success _ = false

abbrev pub is_error : StepStatus → Bool
is_error failed_with_error = true
is_error _ = false

-- `_resolve_next_step`
unfoldable pub resolve_next_step : WorkflowStepDef → StepResult → Option Text
resolve_next_step s result = elim s.type [
  | condition ↦
      if is_success result.status
      then (if took_true_branch result.output then s.on_true else s.on_false)
      else s.next_step
  | _ ↦ s.next_step
]

-- The result of a step is stored, and its output, if there is one, becomes part of the context.
unfoldable pub store_result :
    WorkflowStepDef → StepResult → WorkflowExecutionState → WorkflowExecutionState
unfolding put
store_result s result state = record state {
  step_results = put state.step_results s.id result;
  context = elim result.output [ none ↦ state.context | some out ↦ put state.context s.id out ];
}

-- The state that `execute` starts with: a new one, or an earlier one with the context reset.
abbrev pub start_state : Text → Option WorkflowExecutionState → WorkflowExecutionState
start_state message none = record {
  current_step_id = none;
  step_results = [];
  status = running;
  context = (codes "input", value message) ∷ [];
}
start_state message (some state) = record state {
  status = running;
  context = (codes "input", value message) ∷ [];
}

-- The end of `execute`.
abbrev pub conclude : WorkflowExecutionState → WorkflowExecutionState
conclude state = elim state.status [
  | running ↦ record state { status = completed; current_step_id = none }
  | _ ↦ record state { current_step_id = none }
]

-- The loop of `execute`, on fuel, with the number of the visit; none is a loop that is still going.
unfoldable pub execute_loop :
    World
    → List WorkflowStepDef
    → ℕ
    → ℕ
    → Option Text
    → WorkflowExecutionState
    → Option WorkflowExecutionState
unfolding get_step execute_step store_result resolve_next_step
execute_loop world steps fuel n none state = some (conclude state)
execute_loop world steps zero n (some id) state = none
execute_loop world steps (suc fuel) n (some id) state = elim (get_step steps id) [
  | none ↦ some (conclude (record state { status = failed }))
  | some s ↦
      let entered = record state { current_step_id = some id } in
      let result = execute_step world n s entered in
      let stored = store_result s result entered in
      if is_error result.status
      then some (conclude (record stored { status = failed }))
      else execute_loop world steps fuel (suc n) (resolve_next_step s result) stored
]

-- `execute`
unfoldable pub execute :
    World
    → WorkflowGraphDef
    → ℕ
    → Text
    → Option WorkflowExecutionState
    → Option WorkflowExecutionState
unfolding execute_loop
execute world graph fuel initial_message existing_state =
    execute_loop world graph.steps fuel 0 (some graph.entry_step_id)
      (start_state initial_message existing_state)
