-- ===== src/Lib.antt =====
-- The backend of the agent starter kit runs agents for chat sessions: a request becomes a run, the run
-- waits for the lane of its session, talks to a model through a pipeline that falls back to other
-- models, calls tools that the user may have to approve, and may spawn subruns whose results are
-- announced to their parent. This library models the parts of the backend that keep state between
-- these steps or decide about them. Each component is one module with child modules for its proofs
-- and a child `Examples` with concrete inputs. A component uses `Common` and no other component, except
-- that Fallback puts CircuitBreaker, Failover and Recovery together.
--
-- The parts, with the files they are translated from (below backend/app):
-- - CircuitBreaker: services/circuit_breaker.py. `Registry` is the dictionary of `_ModelCircuit`s of
--   `CircuitBreakerRegistry`; `allow_request`, `record_success`, `record_failure`, `reset`,
--   `release_probe`, `get_state` and `all_states` are its methods, with the reading of the monotonic
--   clock as an argument. The functions that end in `_circuit` are the bodies for one circuit.
-- - Subrun: orchestrator/subrun_lane.py. `Lane` holds the specifications, statuses, announcement
--   states and tasks of the subruns of `SubrunLane`; `spawn`, `start_run`, `finish_run`,
--   `prune_retained_statuses`, `evaluate_visibility` and `emit_announce_with_retry` are its methods.
--   The walk over child sessions runs on fuel, which is shown to be enough.
-- - RunState: orchestrator/run_state_machine.py and the function
--   `_append_derived_stage_and_run_state_events` of handlers/run_handlers.py, which applies it.
--   States and stages are texts as in the source; `RunState.Contract` has the abstract states.
-- - Approval: services/policy_approval_service.py. `create`, `decide`, the timeout of
--   `wait_for_decision` (`expire`), `is_preapproved` and `clear_session_overrides`; ids are arguments.
-- - Inbox: services/session_inbox_service.py, all methods of `SessionInboxService`.
-- - Recovery: orchestrator/recovery_strategy.py, `RecoveryStrategyResolver.resolve` with the hooks of
--   the pipeline runner as a record of functions.
-- - Failover: the part of orchestrator/pipeline_runner.py that says what a failure is and what is to be
--   done about it: `classify_failover_reason`, `resolve_recovery_branch`, the shortened messages, and in
--   Failover/Priority.antt the order of the recovery steps with its four adjustments. Scores are natural
--   numbers, and the reading of the stored outcomes is a function of the settings; Failover/Metrics.antt
--   has the store that the program reads there, with its window of recent events.
-- - Fallback: orchestrator/fallback_state_machine.py. `Machine` has the attributes of
--   `FallbackStateMachine`, an `on_` function is the branch of its loop for one state, `step_machine`
--   chooses among them, and `run_machine` is the loop on fuel: three steps for each attempt allowed and
--   each model, and four more, are shown to be enough. How `agent.run` ends, and the calls that other
--   requests make on the shared breakers before and during an attempt, are the inputs of the steps.
-- - RateLimiter: services/rate_limiter.py, `RateLimiter` with its buckets; tokens are counted in parts so
--   that the rate is a whole number for each tick of the clock.
-- - Workflow: orchestrator/workflow_models.py and orchestrator/workflow_engine.py. `execute` is the method
--   of `WorkflowEngine`, its loop on fuel; more fuel than the rank of the entry of a graph without a
--   cycle is shown to be enough. What a step does outside of the engine is a function of a `World`.
-- - MessageBus: multi_agency/agent_message_bus.py. `enqueue` and `dequeue` are the methods of a mailbox, the
--   other operations those of `AgentMessageBus`; `request` is split where it waits for the reply.
-- - Idempotency: services/idempotency_service.py, the registry of the answered requests: `prune`, `lookup`
--   and `register`, the last one `idempotency_register`; Idempotency/Manager.antt has the namespaces of
--   services/idempotency_manager.py, and the use that handlers/run_handlers.py makes of them
--   (`run_start`) and handlers/workflow_handlers.py (`begin_execute` and `finish_execute`, the parts of
--   an execution before and after its waits).
-- - ToolArgs: services/tool_arg_validator.py and `_evaluate_action` of agent.py. A validator is a list of
--   `Rule`s in ToolArgs/Tools, one for each argument that the method of `ToolArgValidator` checks and in its
--   order; `slot` is what the helpers of the class make of what stands under the name, and `run` stores
--   that and goes on. The source stores some arguments after all the checks of a tool: no check reads
--   another argument, and a stored argument keeps its place in the dictionary.
-- - ToolRetry: services/tool_retry_strategy.py, `ToolRetryStrategy`, with the classification of errors
--   (services/error_taxonomy.py) as a parameter.
-- - LoopDetector: services/tool_loop_detector.py, `ToolLoopDetector.check` with its three tests;
--   the history has the last call first.
-- - SessionLane: orchestrator/session_lane_manager.py. The tasks inside `acquire` are part of the
--   state, and an `Action` is what one of them does between two waits.
--
-- In the program the run handlers put a message into the inbox or take the session's lane, the run
-- emits lifecycle events from which the run state is derived, the pipeline runner asks the circuit
-- breaker before each model and the resolver after each failure, the tool execution asks for
-- approvals, and the subrun lane starts runs of its own. The models of Fallback, CircuitBreaker,
-- Recovery and Failover are composed as the code composes them; the others meet at texts (session, run
-- and model ids) only, as the components of the program do.
--
-- Conventions: `Text` is the list of code points of a Python string; `strip` and `lower` are written
-- out in Common/Strings.antt, `lower` for ASCII letters only, as is the `upper` of ToolArgs. A
-- Python dictionary is an association list in insertion order (Common/Dict.antt). Times are natural
-- numbers of one unit. A method under a lock is one step. Exceptions are results of their own.
-- Logging is left out.
--
-- Not modelled: the HTTP and websocket layer, the model clients, the tools and their sandboxes, the
-- stores on disk, the prompts and the configuration, which are input and output or calls of
-- libraries; the templates and conditions of workflows; of the program's own logic, the run of the
-- pipeline runner and its routing, the execution of tools and its budgets, the consensus and the
-- supervisor of the agents, the plan and task graphs, and the isolation of agents; of the modelled
-- files, the writing of the recovery outcomes to their file, the health tracker and the delay before
-- a retry of the fallback machine, the global rate limiters, the registry file and the holds and
-- kills of the subrun lane, and the rule file of the approvals.
pub mod Common
pub mod CircuitBreaker
pub mod Subrun
pub mod RunState
pub mod Approval
pub mod Inbox
pub mod Recovery
pub mod SessionLane
pub mod ToolRetry
pub mod LoopDetector
pub mod Failover
pub mod Fallback
pub mod RateLimiter
pub mod Workflow
pub mod MessageBus
pub mod Idempotency
pub mod ToolArgs
