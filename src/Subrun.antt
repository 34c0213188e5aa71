-- ===== src/Subrun.antt =====
-- backend/app/orchestrator/subrun_lane.py: the lane in which an agent run spawns child runs.
-- Run ids are the fresh identifiers that `uuid4` gives, clock readings are naturals, a Python set
-- is a list without repetitions. The lock makes the registration in `spawn` one atomic step; the
-- state store, the event sender and the registry file only receive what is computed here.
pub mod Retention
pub mod Spawn
pub mod Depth
pub mod Tree
pub mod Visibility
pub mod Delivery
mod Examples
use ai_agent_starter_kit.Common.{
  ℕ, ◌+◌, ◌-◌, max, Bool, true, false, not, ◌&&◌, ◌||◌, Option, none, some, List, [], ◌∷◌, ◌++◌,
  map, ltb, leb, ◌==◌, if◌then◌else◌, length, is_empty, take, filter, any, Text, codes, text_eq,
  elem, strip, lower, contains_text, normalize, if_blank, or_default, text_leb, add_member, discard,
}
use ai_agent_starter_kit.Common.Dict.{Dict, get, put, remove, keys}
use ai_agent_starter_kit.Common.Sort.{sort_with}

pub data RunStatus : Type 0 where
  accepted running completed failed timed_out cancelled : RunStatus

-- `status in TERMINAL_STATUSES`
abbrev pub is_terminal : RunStatus → Bool
is_terminal accepted = false
is_terminal running = false
is_terminal completed = true
is_terminal failed = true
is_terminal timed_out = true
is_terminal cancelled = true

-- The fields of the specification that the lane itself reads.
pub record SubrunSpec : Type 0 where
  pub run_id : Text
  pub parent_request_id : Text
  pub parent_session_id : Text
  pub child_session_id : Text
  pub user_message : Text
  pub runtime : Text
  pub model : Text
  pub preset : Option Text
  pub timeout_seconds : ℕ
  pub depth : ℕ
  pub parent_run_id : Option Text
  pub root_run_id : Text
  pub agent_id : Text
  pub mode : Text

-- `None` between the registration and `create_task`, then a task that is pending or done.
pub data Task : Type 0 where
  placeholder live done : Task

abbrev pub is_active : Task → Bool
is_active placeholder = false
is_active live = true
is_active done = false

pub data TerminalReason : Type 0 where
  subrun_accepted subrun_running subrun_complete subrun_error : TerminalReason
  subrun_timeout subrun_cancelled : TerminalReason

-- Confidence in hundredths.
pub record Handover : Type 0 where
  pub terminal_reason : TerminalReason
  pub confidence : ℕ
  pub result : Option Text

pub record Snapshot : Type 0 where
  pub status : RunStatus
  pub handover : Option Handover
  pub updated_at : ℕ

pub data AnnounceStatus : Type 0 where
  announced announce_retrying announce_failed : AnnounceStatus

pub record Announce : Type 0 where
  pub status : AnnounceStatus
  pub attempt : ℕ

pub record LaneConfig : Type 0 where
  pub max_spawn_depth : ℕ
  pub max_children_per_parent : ℕ
  pub announce_retry_max_attempts : ℕ
  pub announce_retry_base_delay_ms : ℕ
  pub announce_retry_max_delay_ms : ℕ
  pub max_retained_terminal_runs : ℕ
  pub max_retained_run_entries : ℕ
  pub leaf_spawn_depth_guard_enabled : Bool
  pub orchestrator_agent_ids : List Text

-- The clamping of the constructor, and its normalised set of orchestrator ids.
unfoldable pub clamp_config : LaneConfig → LaneConfig
clamp_config c =
    let base = max 10 c.announce_retry_base_delay_ms in
    let terminal = max 1 c.max_retained_terminal_runs in
    record {
      max_spawn_depth = max 1 c.max_spawn_depth;
      max_children_per_parent = max 1 c.max_children_per_parent;
      announce_retry_max_attempts = max 1 c.announce_retry_max_attempts;
      announce_retry_base_delay_ms = base;
      announce_retry_max_delay_ms = max base c.announce_retry_max_delay_ms;
      max_retained_terminal_runs = terminal;
      max_retained_run_entries = max terminal c.max_retained_run_entries;
      leaf_spawn_depth_guard_enabled = c.leaf_spawn_depth_guard_enabled;
      orchestrator_agent_ids = map normalize (
          filter (λ s. not (is_empty (strip s)))
            (if is_empty c.orchestrator_agent_ids
              then codes "head-agent" ∷ []
              else c.orchestrator_agent_ids));
    }

pub record Lane : Type 0 where
  pub config : LaneConfig
  pub run_tasks : Dict Task
  pub run_status : Dict Snapshot
  pub announce_status : Dict Announce
  pub run_specs : Dict SubrunSpec
  pub children_by_parent : Dict (List Text)
  pub parent_by_child : Dict Text
  pub children_by_session : Dict (List Text)

-- `d.get(k, set())` and `d[k].add(v)` of a `defaultdict(set)`
abbrev pub members : Option (List Text) → List Text
members none = []
members (some ts) = ts

unfoldable pub set_of : Dict (List Text) → Text → List Text
unfolding get
set_of d k = members (get d k)

unfoldable pub add_to : Dict (List Text) → Text → Text → Dict (List Text)
unfolding put set_of add_member
add_to d k v = put d k (add_member v (set_of d k))

-- Discarding a member, and the key with its last member.
unfoldable pub discard_from : Dict (List Text) → Text → Text → Dict (List Text)
unfolding put remove get discard
discard_from d k v = elim (get d k) [
  | none ↦ d
  | some ts ↦ let rest = discard v ts in if is_empty rest then remove d k else put d k rest
]

-- `task is not None and not task.done()`
unfoldable pub is_active_run : Lane → Text → Bool
unfolding get
is_active_run l run_id = elim (get l.run_tasks run_id) [ none ↦ false | some t ↦ is_active t ]

abbrev pub child_blocks : Option Snapshot → Bool
child_blocks none = false
child_blocks (some s) = not (is_terminal s.status)

-- `_can_evict_run`
unfoldable pub can_evict_run : Lane → Text → Bool
unfolding is_active_run get set_of
can_evict_run l run_id =
    not (is_active_run l run_id)
    && (elim (get l.run_status run_id) [ none ↦ false | some s ↦ is_terminal s.status ])
    && not (
        any (λ child. is_active_run l child || child_blocks (get l.run_status child))
          (set_of l.children_by_parent run_id))

-- Taking a run out of the children of its parent.
unfoldable pub unlink_parent : Dict (List Text) → Option Text → Text → Dict (List Text)
unfolding discard_from
unlink_parent d none run_id = d
unlink_parent d (some []) run_id = d
unlink_parent d (some (c ∷ s)) run_id = discard_from d (c ∷ s) run_id

-- The part of `_evict_retained_run` below the removal of the statuses.
unfoldable pub evict_spec : Lane → Text → Option SubrunSpec → Lane
unfolding remove get unlink_parent discard_from text_eq
evict_spec l run_id none = l
evict_spec l run_id (some spec) = record l {
  run_specs = remove l.run_specs run_id;
  parent_by_child = remove l.parent_by_child run_id;
  children_by_parent = unlink_parent l.children_by_parent (get l.parent_by_child run_id) run_id;
  children_by_session =
      if text_eq spec.child_session_id spec.parent_session_id
      then l.children_by_session
      else discard_from l.children_by_session spec.parent_session_id spec.child_session_id;
}

-- `_evict_retained_run`
unfoldable pub evict_retained_run : Lane → Text → Lane
unfolding get remove evict_spec
evict_retained_run l run_id =
    evict_spec
      (record l {
        run_status = remove l.run_status run_id;
        announce_status = remove l.announce_status run_id;
      })
      run_id (get l.run_specs run_id)

unfoldable pub evict_all : Lane → List Text → Lane
unfolding evict_retained_run
evict_all l [] = l
evict_all l (run_id ∷ rest) = evict_all (evict_retained_run l run_id) rest

-- The terminal runs of `_run_status` in order.
unfoldable pub terminal_entries : Dict Snapshot → Dict Snapshot
terminal_entries d = filter (λ e. is_terminal e.1.status) d

-- The order of the tuples `(updated_at, run_id)`.
abbrev pub older : Text × Snapshot → Text × Snapshot → Bool
older a b =
    ltb a.1.updated_at b.1.updated_at || (a.1.updated_at == b.1.updated_at && text_leb a.0 b.0)

unfoldable pub evict_count : Lane → ℕ
unfolding terminal_entries
evict_count l =
    max (length l.run_status - l.config.max_retained_run_entries)
      (length (terminal_entries l.run_status) - l.config.max_retained_terminal_runs)

-- The runs that `_prune_retained_statuses` evicts.
unfoldable pub evicted_runs : Lane → List Text
unfolding can_evict_run terminal_entries evict_count sort_with
evicted_runs l = keys (
    take (evict_count l)
      (sort_with older (filter (λ e. can_evict_run l e.0) (terminal_entries l.run_status))))

-- `_prune_retained_statuses`
unfoldable pub prune_retained_statuses : Lane → Lane
unfolding evicted_runs evict_all
prune_retained_statuses l = evict_all l (evicted_runs l)

-- `_set_status`
unfoldable pub set_status : Lane → ℕ → Text → RunStatus → Option Handover → Lane
unfolding put prune_retained_statuses
set_status l now run_id status handover = prune_retained_statuses (record l {
  run_status =
      put l.run_status run_id (record { status = status; handover = handover; updated_at = now });
})

-- A request to `spawn`, with the fresh id of the run.
pub record SpawnRequest : Type 0 where
  pub run_id : Text
  pub parent_request_id : Text
  pub parent_session_id : Text
  pub user_message : Text
  pub runtime : Text
  pub model : Text
  pub timeout_seconds : ℕ
  pub agent_id : Option Text
  pub mode : Option Text
  pub preset : Option Text

-- The four ways in which `spawn` raises `GuardrailViolation`.
pub data SpawnError : Type 0 where
  unsupported_mode leaf_agent depth_exceeded too_many_children : SpawnError

pub data Spawned : Type 0 where
  ok : Lane → Spawned
  err : SpawnError → Spawned

-- `_normalize_spawn_mode`
unfoldable pub normalize_spawn_mode : Option Text → Option Text
unfolding normalize or_default elem
normalize_spawn_mode mode =
    let m = normalize (or_default (codes "run") mode) in
    if elem m (codes "run" ∷ codes "session" ∷ []) then some m else none

abbrev pub or_empty : Option Text → Text
or_empty none = []
or_empty (some s) = s

unfoldable pub selected_agent : SpawnRequest → Text
unfolding if_blank strip
selected_agent q = if_blank (codes "head-agent") (strip (or_empty q.agent_id))

unfoldable pub spawn_depth : Lane → SpawnRequest → ℕ
unfolding get
spawn_depth l q = elim (get l.run_specs q.parent_request_id) [ none ↦ 1 | some p ↦ p.depth + 1 ]

unfoldable pub child_session : SpawnRequest → Text → Text
unfolding text_eq
child_session q mode =
    if text_eq mode (codes "session")
    then q.parent_session_id
    else q.parent_session_id ++ codes "-subrun-" ++ take 8 q.run_id

abbrev pub none_if_empty : Text → Option Text
none_if_empty [] = none
none_if_empty (c ∷ s) = some (c ∷ s)

unfoldable pub new_spec : Lane → SpawnRequest → Text → SubrunSpec
unfolding get child_session spawn_depth selected_agent normalize
new_spec l q mode =
    let parent = get l.run_specs q.parent_request_id in
    record {
      run_id = q.run_id;
      parent_request_id = q.parent_request_id;
      parent_session_id = q.parent_session_id;
      child_session_id = child_session q mode;
      user_message = q.user_message;
      runtime = q.runtime;
      model = q.model;
      preset = none_if_empty (normalize (or_empty q.preset));
      timeout_seconds = q.timeout_seconds;
      depth = spawn_depth l q;
      parent_run_id = elim parent [ none ↦ none | some p ↦ some p.run_id ];
      root_run_id = elim parent [ none ↦ q.parent_request_id | some p ↦ p.root_run_id ];
      agent_id = selected_agent q;
      mode = mode;
    }

-- The locked part of `spawn` that registers the specification.
unfoldable pub register : Lane → SubrunSpec → Lane
unfolding put add_to text_eq
register l spec = record l {
  run_specs = put l.run_specs spec.run_id spec;
  children_by_parent = add_to l.children_by_parent spec.parent_request_id spec.run_id;
  parent_by_child = put l.parent_by_child spec.run_id spec.parent_request_id;
  children_by_session =
      if text_eq spec.child_session_id spec.parent_session_id
      then l.children_by_session
      else add_to l.children_by_session spec.parent_session_id spec.child_session_id;
}

-- From the registration to the created task: the status ACCEPTED, then the task's entry.
unfoldable pub launch : Lane → ℕ → SubrunSpec → Lane
unfolding register set_status put
launch l now spec =
    let l' = set_status (register l spec) now spec.run_id accepted none in
    record l' { run_tasks = put l'.run_tasks spec.run_id live }

unfoldable pub spawn : Lane → ℕ → SpawnRequest → Spawned
unfolding normalize_spawn_mode selected_agent spawn_depth set_of new_spec launch elem lower
spawn l now q = elim (normalize_spawn_mode q.mode) [
  | none ↦ err unsupported_mode
  | some mode ↦
      if l.config.leaf_spawn_depth_guard_enabled
        && not (elem (lower (selected_agent q)) l.config.orchestrator_agent_ids)
      then err leaf_agent
      else if ltb l.config.max_spawn_depth (spawn_depth l q)
      then err depth_exceeded
      else if leb l.config.max_children_per_parent
          (length (set_of l.children_by_parent q.parent_request_id))
      then err too_many_children
      else ok (launch l now (new_spec l q mode))
]

-- How the task of a run ends, with the text that the run returned or the notes of the failure.
pub data Outcome : Type 0 where
  returned : Text → Outcome
  deadline : Outcome
  stopped : Outcome
  raised : Text → Outcome

abbrev pub outcome_status : Outcome → RunStatus
outcome_status (returned text) = completed
outcome_status deadline = timed_out
outcome_status stopped = cancelled
outcome_status (raised notes) = failed

abbrev pub outcome_text : Outcome → Text
outcome_text (returned text) = text
outcome_text deadline = []
outcome_text stopped = []
outcome_text (raised notes) = []

abbrev pub outcome_notes : Outcome → Text
outcome_notes (returned text) = []
outcome_notes deadline = codes "Subrun timed out"
outcome_notes stopped = codes "Subrun cancelled."
outcome_notes (raised notes) = notes

-- `_resolve_terminal_reason`
abbrev pub resolve_terminal_reason : RunStatus → TerminalReason
resolve_terminal_reason accepted = subrun_accepted
resolve_terminal_reason running = subrun_running
resolve_terminal_reason completed = subrun_complete
resolve_terminal_reason failed = subrun_error
resolve_terminal_reason timed_out = subrun_timeout
resolve_terminal_reason cancelled = subrun_cancelled

-- `_resolve_handover_confidence`, in hundredths
unfoldable pub resolve_handover_confidence : RunStatus → Text → Text → ℕ
unfolding strip contains_text lower
resolve_handover_confidence completed text notes = if is_empty (strip text) then 70 else 85
resolve_handover_confidence timed_out text notes = 20
resolve_handover_confidence failed text notes =
    if contains_text (lower notes) (codes "guardrail") then 25 else 15
resolve_handover_confidence cancelled text notes = 10
resolve_handover_confidence running text notes = 0
resolve_handover_confidence accepted text notes = 0

-- `_build_handover_contract`
unfoldable pub build_handover_contract : RunStatus → Text → Text → Handover
unfolding resolve_handover_confidence strip
build_handover_contract status text notes = record {
  terminal_reason = resolve_terminal_reason status;
  confidence = resolve_handover_confidence status text notes;
  result = none_if_empty (take 2000 (strip text));
}

-- The lane's part of `_run`: the status RUNNING, then, when the task's body has ended, the final
-- status with its handover, and the removal of the task.
unfoldable pub start_run : Lane → ℕ → Text → Lane
unfolding set_status
start_run l now run_id = set_status l now run_id running none

unfoldable pub finish_run : Lane → ℕ → Text → Outcome → Lane
unfolding set_status build_handover_contract remove prune_retained_statuses
finish_run l now run_id outcome =
    let status = outcome_status outcome in
    let handover = build_handover_contract status (outcome_text outcome) (outcome_notes outcome) in
    let l' = set_status l now run_id status (some handover) in
    prune_retained_statuses (record l' { run_tasks = remove l'.run_tasks run_id })
