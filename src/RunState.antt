-- ===== src/RunState.antt =====
-- backend/app/orchestrator/run_state_machine.py, and its use by the lifecycle events of a run in
-- backend/app/handlers/run_handlers.py. States and stages are the texts of the source; `State` is
-- the abstract view.
pub mod Contract
pub mod Lifecycle
mod Examples
use ai_agent_starter_kit.Common.{
  ℕ, suc, Bool, true, false, not, ◌||◌, Option, none, some, List, [], ◌∷◌, ◌++◌, leb, if◌then◌else◌,
  is_empty, Text, codes, text_eq, elem, strip, starts_with, ends_with, normalize, or_default,
}

-- `RUN_STATES_ORDER`
abbrev pub run_states_order : List Text
run_states_order =
    codes "received"
    ∷ codes "queued"
    ∷ codes "planning"
    ∷ codes "tool_loop"
    ∷ codes "synthesis"
    ∷ codes "finalizing"
    ∷ codes "persisted"
    ∷ []

-- `TERMINAL_RUN_STATES`
abbrev pub terminal_run_states : List Text
terminal_run_states = codes "completed" ∷ codes "failed" ∷ codes "cancelled" ∷ []

abbrev pub queued_stages : List Text
queued_stages =
    codes "accepted"
    ∷ codes "queued"
    ∷ codes "inbox_enqueued"
    ∷ codes "run_dequeued"
    ∷ codes "lane_acquired"
    ∷ codes "request_dispatched"
    ∷ []

abbrev pub persisted_stages : List Text
persisted_stages =
    codes "tool_result_persisted"
    ∷ codes "run_accounted"
    ∷ codes "memory_write_applied"
    ∷ codes "memory_write_skipped"
    ∷ []

abbrev pub finalizing_stages : List Text
finalizing_stages =
    codes "reply_suppressed" ∷ codes "response_emitted" ∷ codes "response_stream_completed" ∷ []

-- A chain of tests that return: the result of the first that holds.
unfoldable pub first_match : List (Bool × Text) → Option Text
first_match [] = none
first_match ((test, result) ∷ rest) =
    let later = first_match rest in if test then some result else later

-- The tests of `resolve_run_state_from_stage` on a stage that is not blank, in order.
unfoldable pub stage_tests : Text → List (Bool × Text)
unfolding ends_with starts_with elem text_eq
stage_tests s =
    (ends_with s (codes "_cancelled"), codes "cancelled")
    ∷ (ends_with s (codes "_failed") || ends_with s (codes "_rejected"), codes "failed")
    ∷ (elem s (codes "request_completed" ∷ codes "run_completed" ∷ []), codes "completed")
    ∷ (text_eq s (codes "request_received"), codes "received")
    ∷ (elem s queued_stages, codes "queued")
    ∷ (
      starts_with s (codes "planning")
          || starts_with s (codes "replanning")
          || text_eq s (codes "run_started"),
      codes "planning",
    )
    ∷ (elem s persisted_stages, codes "persisted")
    ∷ (
      starts_with s (codes "tool_")
          || starts_with s (codes "skills_")
          || text_eq s (codes "terminal_wait_started")
          || text_eq s (codes "terminal_wait_completed"),
      codes "tool_loop",
    )
    ∷ (
      starts_with s (codes "streaming")
          || starts_with s (codes "synthesis")
          || starts_with s (codes "reply_shaping"),
      codes "synthesis",
    )
    ∷ (elem s finalizing_stages, codes "finalizing")
    ∷ []

unfoldable pub resolve_normalized : Text → Option Text
unfolding first_match stage_tests
resolve_normalized s = first_match (stage_tests s)

unfoldable pub resolve_run_state_from_stage : Text → Option Text
unfolding normalize resolve_normalized
resolve_run_state_from_stage stage =
    let s = normalize stage in if is_empty s then none else resolve_normalized s

-- `xs.index(s)`, for a member.
unfoldable pub index : Text → List Text → ℕ
unfolding text_eq
index s [] = 0
index s (t ∷ ts) = let rest = index s ts in if text_eq s t then 0 else suc rest

-- The tests on a normalised previous state and a normalised target that is not blank.
unfoldable pub allows : Text → Text → Bool
unfolding text_eq elem index
allows prev next =
    if text_eq prev next
    then not (elem next terminal_run_states)
    else if elem prev terminal_run_states
    then false
    else if elem next (codes "failed" ∷ codes "cancelled" ∷ codes "completed" ∷ [])
    then true
    else if not (elem prev run_states_order) || not (elem next run_states_order)
    then false
    else leb (index prev run_states_order) (index next run_states_order)

unfoldable pub is_allowed_run_state_transition : Option Text → Text → Bool
unfolding normalize allows or_default
is_allowed_run_state_transition previous target =
    let prev = normalize (or_default [] previous) in
    let next = normalize target in
    if is_empty next then false else if is_empty prev then true else allows prev next

-- What `_append_derived_stage_and_run_state_events` adds to the events of a run.
pub data DerivedEvent : Type 0 where
  stage_event : Text → DerivedEvent
  run_state_event : Text → Option Text → Text → Bool → DerivedEvent
  run_state_violation : Text → Option Text → Text → DerivedEvent

-- The fields of the run's stored state that the handler reads and writes.
pub record RunMeta : Type 0 where
  pub run_state : Option Text
  pub last_stage : Option Text
  pub events : List DerivedEvent
  pub hard_failed : Bool

-- `meta.get("run_state")`, if it is not blank, normalised.
unfoldable pub previous_state : RunMeta → Option Text
unfolding normalize strip
previous_state r = elim r.run_state [
  | none ↦ none
  | some s ↦ if is_empty (strip s) then none else some (normalize s)
]

-- `_append_derived_stage_and_run_state_events` for a lifecycle event; `hard` is the setting
-- `run_state_violation_hard_fail_enabled`.
unfoldable pub transition_to : Bool → Text → Text → RunMeta → RunMeta
unfolding previous_state is_allowed_run_state_transition
transition_to hard stage target r =
    let prev = previous_state r in
    let allowed = is_allowed_run_state_transition prev target in
    let noted = r.events ++ run_state_event stage prev target allowed ∷ [] in
    if allowed
    then record r { events = noted; run_state = some target; last_stage = some stage }
    else record r {
      events = noted ++ run_state_violation stage prev target ∷ [];
      hard_failed = r.hard_failed || hard;
    }

unfoldable pub on_lifecycle : Bool → Text → RunMeta → RunMeta
unfolding strip resolve_run_state_from_stage transition_to
on_lifecycle hard raw_stage r =
    let stage = strip raw_stage in
    let staged = record r { events = r.events ++ stage_event stage ∷ [] } in
    if is_empty stage then r else (elim (resolve_run_state_from_stage stage) [
      | none ↦ staged
      | some target ↦ transition_to hard stage target staged
    ])

unfoldable pub run_lifecycle : Bool → List Text → RunMeta → RunMeta
unfolding on_lifecycle
run_lifecycle hard [] r = r
run_lifecycle hard (s ∷ ss) r = run_lifecycle hard ss (on_lifecycle hard s r)
