-- ===== src/SessionLane/Examples.antt =====
-- Two tasks of one session and one of another, with a single permit.
use ai_agent_starter_kit.SessionLane.{
  new_manager, locked, active_count, get_or_create_session_lock, is_evictable, last_used,
  drop_sessions, by_last_use, idle_sessions, overflow_sessions, evict_idle_session_locks,
  mark_session_released, lane_key, request_lane, take_lock, enter_lane, leave_lane, Action,
  requests, takes_lock, enters, leaves, act, act_all,
}
use ai_agent_starter_kit.SessionLane.Exclusion.{one_task_per_session}
use ai_agent_starter_kit.SessionLane.Tasks.{count, inside}
use ai_agent_starter_kit.Common.{
  ◌≤◌, ◌≡◌, refl, List, [], ◌∷◌, codes, text_eq, is_space, lstrip, rstrip, strip, if_blank,
}
use ai_agent_starter_kit.Common.Dict.{get, put, remove}

abbrev actions : List Action
actions =
    requests 1 (codes " s1")
    ∷ takes_lock 0
    ∷ enters 0
    ∷ requests 2 (codes "s1")
    ∷ takes_lock 0
    ∷ requests 3 []
    ∷ leaves 4 2
    ∷ takes_lock 1
    ∷ enters 1
    ∷ []

one_is_inside : count (inside (codes "s1")) (act_all (new_manager 2 32 900) actions).tasks ≡ 1
unfolding act_all act request_lane take_lock enter_lane leave_lane locked mark_session_released
    get_or_create_session_lock active_count evict_idle_session_locks drop_sessions idle_sessions
    overflow_sessions by_last_use last_used is_evictable new_manager lane_key if_blank strip lstrip
    rstrip is_space get put remove text_eq
one_is_inside = refl

one_task_per_session_example :
    count (inside (codes "s1")) (act_all (new_manager 2 32 900) actions).tasks ≤ 1
one_task_per_session_example = one_task_per_session 2 32 900 actions (codes "s1")
