-- ===== src/Workflow/Subruns.antt =====
-- What an agent step makes of its subrun.
use ai_agent_starter_kit.Workflow.{
  WorkflowStepDef, value, SubrunInfo, run_raised, run_timed_out, polled, terminal_statuses, success,
  error_result, timeout_result, await_subrun, execute_agent_step,
}
use ai_agent_starter_kit.Common.{
  ◌≡◌, refl, ◌∙◌, true, false, Option, none, some, List, [], ◌∷◌, ◌++◌, All, Text, elem, or_default,
}

-- An answer about a subrun that has not ended.
abbrev pub IsPending : Option SubrunInfo → Type 0
IsPending none = Unit
IsPending (some info) = elem info.status terminal_statuses ≡ false

await_subrun-pending :
    (earlier polls : List (Option SubrunInfo))
    → All IsPending earlier
    → await_subrun (earlier ++ polls) ≡ await_subrun polls
unfolding await_subrun
await_subrun-pending [] polls h = refl
await_subrun-pending (none ∷ earlier) polls h = await_subrun-pending earlier polls h.1
await_subrun-pending (some info ∷ earlier) polls h =
    rw (h.0) (await_subrun-pending earlier polls h.1)

abbrev pub text_of : SubrunInfo → Text
text_of info = or_default (or_default [] info.final_text) info.result_text

await_subrun-ended :
    (earlier later : List (Option SubrunInfo)) (info : SubrunInfo)
    → All IsPending earlier
    → elem info.status terminal_statuses ≡ true
    → await_subrun (earlier ++ some info ∷ later) ≡ some (text_of info)
await_subrun-ended earlier later info h t =
    await_subrun-pending earlier (some info ∷ later) h ∙ (unfold await_subrun in rw t refl)

await_subrun-never :
    (polls : List (Option SubrunInfo)) → All IsPending polls → await_subrun polls ≡ none
unfolding await_subrun
await_subrun-never [] h = refl
await_subrun-never (none ∷ polls) h = await_subrun-never polls h.1
await_subrun-never (some info ∷ polls) h = rw (h.0) (await_subrun-never polls h.1)

-- An agent step is a success with the text of the handover as soon as its subrun is seen to have
-- ended, with whatever terminal status: a subrun that failed, timed out or was cancelled makes a
-- success as well. If the subrun is not seen to end before the deadline, the step times out, and
-- if an exception is raised, the step is an error with its message, except that it times out if the
-- spawn of the subrun raises a timeout.
pub agent_step_exact :
    (s : WorkflowStepDef)
    → ((earlier later : List (Option SubrunInfo)) (info : SubrunInfo)
        → All IsPending earlier
        → elem info.status terminal_statuses ≡ true
        → execute_agent_step s (polled (earlier ++ some info ∷ later))
          ≡ success s (value (text_of info)))
      × ((polls : List (Option SubrunInfo))
          → All IsPending polls
          → execute_agent_step s (polled polls) ≡ timeout_result s)
      × ((message : Text) → execute_agent_step s (run_raised message) ≡ error_result s message)
      × (execute_agent_step s run_timed_out ≡ timeout_result s)
unfolding execute_agent_step
agent_step_exact s = (
  λ earlier later info h t. rw (execute_agent_step, await_subrun-ended earlier later info h t) refl,
  λ polls h. rw (execute_agent_step, await_subrun-never polls h) refl,
  λ message. refl,
  refl,
)
