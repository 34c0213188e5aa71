-- ===== src/RunState/Examples.antt =====
-- A run through its stages, and the theorems at it.
use ai_agent_starter_kit.RunState.{resolve_run_state_from_stage, RunMeta, run_lifecycle}
use ai_agent_starter_kit.RunState.Contract.{IsKnown, resolve-IsKnown}
use ai_agent_starter_kit.Common.{◌≡◌, refl, false, none, some, List, [], ◌∷◌, Text, codes}

abbrev fresh : RunMeta
fresh = record { run_state = none; last_stage = none; events = []; hard_failed = false }

abbrev planned : RunMeta
planned = record fresh { run_state = some (codes "planning") }

abbrev stages : List Text
stages = codes "tool_selected" ∷ codes "reflection_failed" ∷ codes "request_completed" ∷ []

-- The failure of a reflection, which the run survives, leaves the stored state `failed`.
survivor_failed : (run_lifecycle false stages planned).run_state ≡ some (codes "failed")
unfolding run_lifecycle
survivor_failed = refl

ordinary_run :
    (run_lifecycle false
      (codes "request_received"
        ∷ codes "run_started"
        ∷ codes "tool_selected"
        ∷ codes "streaming_started"
        ∷ codes "request_completed"
        ∷ [])
      fresh).run_state
    ≡ some (codes "completed")
unfolding run_lifecycle
ordinary_run = refl

resolve-IsKnown_example : IsKnown (resolve_run_state_from_stage (codes "Tool_Selected"))
resolve-IsKnown_example = resolve-IsKnown (codes "Tool_Selected")
