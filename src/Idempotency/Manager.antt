-- ===== src/Idempotency/Manager.antt =====
-- backend/app/services/idempotency_manager.py: a registry for each namespace; and the two ways in
-- which the handlers use it. `api_control_run_start` (backend/app/handlers/run_handlers.py) looks up,
-- starts the run and registers it without a wait in between; `_execute_workflow_minimal`
-- (backend/app/handlers/workflow_handlers.py) waits between the lookup and the registration.
use ai_agent_starter_kit.Idempotency.{Registry, Lookup, absent, conflict, replay, lookup, register}
use ai_agent_starter_kit.Common.{ℕ, [], or_else, Text, codes, normalize, if_blank}
use ai_agent_starter_kit.Common.Dict.{Dict, get, put}

pub record Manager : Type 0 where
  pub namespaces : Dict Registry
  pub ttl_seconds : ℕ
  pub max_entries : ℕ

-- `(namespace or "default").strip().lower() or "default"`
unfoldable pub namespace_key : Text → Text
unfolding if_blank normalize
namespace_key namespace =
    if_blank (codes "default") (normalize (if_blank (codes "default") namespace))

-- `_get_registry`; the entry that it makes for a new namespace is written by its callers.
unfoldable pub get_registry : Manager → Text → Registry
unfolding get namespace_key
get_registry m namespace = or_else [] (get m.namespaces (namespace_key namespace))

abbrev pub with_registry : Manager → Text → Registry → Manager
with_registry m namespace registry = record m {
  namespaces = put m.namespaces (namespace_key namespace) registry;
}

unfoldable pub lookup_or_raise : ℕ → Text → Text → Text → Manager → Manager × Lookup
unfolding get_registry lookup put
lookup_or_raise now namespace key print m =
    let (registry, answer) =
      lookup m.ttl_seconds m.max_entries now key print (get_registry m namespace) in
    (with_registry m namespace registry, answer)

unfoldable pub register_in : ℕ → Text → Text → Text → Text → Manager → Manager
unfolding get_registry register put
register_in now namespace key print value m =
    with_registry m namespace
      (register m.ttl_seconds m.max_entries now key print value (get_registry m namespace))

-- What a start of a run answers: a new run, the run of an earlier request, or status 409.
pub data Started : Type 0 where
  new_run same_run : Text → Started
  start_conflict : Started

-- What `api_control_run_start` does after the lookup, with the id that a new run gets.
unfoldable pub answer_start : ℕ → Text → Text → Text → Manager × Lookup → Manager × Started
unfolding register_in
answer_start now key print run_id (looked, replay existing) = (looked, same_run existing)
answer_start now key print run_id (looked, conflict) = (looked, start_conflict)
answer_start now key print run_id (looked, absent) =
    (register_in now (codes "run") key print run_id looked, new_run run_id)

unfoldable pub run_start : ℕ → Text → Text → Text → Manager → Manager × Started
unfolding lookup_or_raise answer_start
run_start now key print run_id m =
    answer_start now key print run_id (lookup_or_raise now (codes "run") key print m)

-- The two parts of `_execute_workflow_minimal`, before and after it waits for its steps.
unfoldable pub begin_execute : ℕ → Text → Text → Manager → Manager × Lookup
unfolding lookup_or_raise
begin_execute now key print m = lookup_or_raise now (codes "workflow_execute") key print m

unfoldable pub finish_execute : ℕ → Text → Text → Text → Manager → Manager
unfolding register_in
finish_execute now key print response m =
    register_in now (codes "workflow_execute") key print response m
