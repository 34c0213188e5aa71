-- ===== src/Subrun/Examples.antt =====
-- A lane with small limits, and the theorems at it.
use ai_agent_starter_kit.Subrun.{
  running, completed, LaneConfig, Lane, set_of, prune_retained_statuses, SpawnRequest,
  too_many_children, ok, err, spawn, returned, stopped,
}
use ai_agent_starter_kit.Subrun.Delivery.{
  emit_announce_with_retry, first_success, delivery, emit_announce_exact,
}
use ai_agent_starter_kit.Subrun.Depth.{
  Event, request, start, finish, lane_after, run, IsBounded, run-IsBounded,
}
use ai_agent_starter_kit.Subrun.Retention.{child_unfinished, prune_keeps_needed}
use ai_agent_starter_kit.Subrun.Tree.{
  collect_visible_sessions, IsReachSet, collect_visible_sessions_exact,
}
use ai_agent_starter_kit.Common.{
  ℕ, ◌≡◌, refl, Bool, false, none, some, List, [], ◌∷◌, arith, ◌==◌, Text, codes, elem,
}
use ai_agent_starter_kit.Common.Dict.{Dict, get}

abbrev small : LaneConfig
small = record {
  max_spawn_depth = 2;
  max_children_per_parent = 1;
  announce_retry_max_attempts = 3;
  announce_retry_base_delay_ms = 100;
  announce_retry_max_delay_ms = 1000;
  max_retained_terminal_runs = 1;
  max_retained_run_entries = 1;
  leaf_spawn_depth_guard_enabled = false;
  orchestrator_agent_ids = codes "head-agent" ∷ [];
}

abbrev empty_lane : Lane
empty_lane = record {
  config = small;
  run_tasks = [];
  run_status = [];
  announce_status = [];
  run_specs = [];
  children_by_parent = [];
  parent_by_child = [];
  children_by_session = [];
}

abbrev ask : Text → Text → SpawnRequest
ask run_id parent = record {
  run_id = run_id;
  parent_request_id = parent;
  parent_session_id = codes "s";
  user_message = codes "go";
  runtime = codes "local";
  model = codes "m";
  timeout_seconds = 60;
  agent_id = none;
  mode = none;
  preset = none;
}

abbrev first_run : Lane
first_run = lane_after empty_lane (spawn empty_lane 1 (ask (codes "r1") (codes "req")))

first_run_ok : spawn empty_lane 1 (ask (codes "r1") (codes "req")) ≡ ok first_run
unfolding spawn
first_run_ok = refl

second_child_refused : spawn first_run 2 (ask (codes "r2") (codes "req")) ≡ err too_many_children
unfolding spawn
second_child_refused = refl

abbrev life : List Event
life =
    request 1 (ask (codes "r1") (codes "req"))
    ∷ start 2 (codes "r1")
    ∷ request 3 (ask (codes "r2") (codes "r1"))
    ∷ request 4 (ask (codes "r3") (codes "r2"))
    ∷ finish 5 (codes "r2") (returned (codes "done"))
    ∷ finish 6 (codes "r1") stopped
    ∷ []

run-IsBounded_example : IsBounded small (run empty_lane life)
run-IsBounded_example = run-IsBounded small empty_lane life (refl, tt, tt)

abbrev full_lane : Lane
full_lane = record empty_lane {
  run_status =
      (codes "p", record { status = completed; handover = none; updated_at = 1 })
      ∷ (codes "c", record { status = running; handover = none; updated_at = 2 })
      ∷ [];
  children_by_parent = (codes "p", codes "c" ∷ []) ∷ [];
}

prune_keeps_needed_example :
    (get (prune_retained_statuses full_lane).run_status (codes "p")
      ≡ get full_lane.run_status (codes "p"))
    × (get (prune_retained_statuses full_lane).run_specs (codes "p")
        ≡ get full_lane.run_specs (codes "p"))
unfolding get set_of elem
prune_keeps_needed_example = prune_keeps_needed full_lane (codes "p") (
    child_unfinished (codes "c") (record { status = running; handover = none; updated_at = 2 }) refl
      refl refl)

abbrev sessions : Dict (List Text)
sessions = (codes "s", codes "t" ∷ []) ∷ (codes "t", codes "s" ∷ []) ∷ []

collect_visible_sessions_exact_example :
    (visible : List Text) × (collect_visible_sessions sessions (codes "s") ≡ some visible)
    × IsReachSet sessions (codes "s") visible
collect_visible_sessions_exact_example = collect_visible_sessions_exact sessions (codes "s")

abbrev third_time : ℕ → Bool
third_time n = n == 3

emit_announce_exact_example :
    emit_announce_with_retry small third_time none ≡ delivery 3 (first_success third_time 1 3)
emit_announce_exact_example = emit_announce_exact small third_time none (omega arith) refl
