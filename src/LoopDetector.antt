-- ===== src/LoopDetector.antt =====
-- backend/app/services/tool_loop_detector.py: the detection of repeated tool calls. `check` takes the
-- state and a call and returns the new state with the pattern that it has found. The history is the
-- list of calls with the last one first; the texts of the warnings are left out.
pub mod Repeats
mod Examples
use ai_agent_starter_kit.Common.{
  ℕ, zero, suc, Bool, true, false, not, ◌&&◌, Option, none, some, List, [], ◌∷◌, map, ltb, leb,
  ◌==◌, if◌then◌else◌, is_some, length, take, Text, text_eq, add_member,
}

pub record LoopDetectionConfig : Type 0 where
  pub warn_threshold : ℕ
  pub critical_threshold : ℕ
  pub circuit_breaker_threshold : ℕ
  pub generic_repeat_enabled : Bool
  pub ping_pong_enabled : Bool
  pub poll_no_progress_enabled : Bool
  pub poll_no_progress_threshold : ℕ

pub record ToolCall : Type 0 where
  pub tool_name : Text
  pub args_fingerprint : Text

pub record LoopDetectionState : Type 0 where
  pub call_history : List ToolCall
  pub consecutive_same : ℕ
  pub warnings_issued : ℕ
  pub loop_detected : Bool
  pub circuit_broken : Bool

-- `LoopDetectionState()`
abbrev pub new_state : LoopDetectionState
new_state = record {
  call_history = [];
  consecutive_same = 0;
  warnings_issued = 0;
  loop_detected = false;
  circuit_broken = false;
}

pub data Pattern : Type 0 where
  generic_repeat ping_pong poll_no_progress : Pattern

unfoldable pub same_call : ToolCall → ToolCall → Bool
unfolding text_eq
same_call a b = text_eq a.tool_name b.tool_name && text_eq a.args_fingerprint b.args_fingerprint

-- `_check_generic_repeat`: the new count of repetitions, and whether it warns.
unfoldable pub check_generic_repeat : LoopDetectionConfig → ℕ → List ToolCall → ℕ × Bool
unfolding same_call
check_generic_repeat cfg n [] = (n, false)
check_generic_repeat cfg n (c ∷ []) = (n, false)
check_generic_repeat cfg n (c ∷ prev ∷ h) =
    if same_call c prev then (suc n, leb cfg.warn_threshold (suc n)) else (0, false)

-- `_check_ping_pong`
unfoldable pub check_ping_pong : List ToolCall → Bool
unfolding text_eq
check_ping_pong (a ∷ b ∷ c ∷ d ∷ h) =
    text_eq a.tool_name c.tool_name
    && text_eq b.tool_name d.tool_name
    && not (text_eq a.tool_name b.tool_name)
check_ping_pong _ = false

-- The set of the texts of a list.
unfoldable pub distinct : List Text → List Text
unfolding add_member
distinct [] = []
distinct (t ∷ ts) = add_member t (distinct ts)

-- `h[-threshold:]`, which is all of the history for a threshold of 0.
unfoldable pub recent_calls : ℕ → List ToolCall → List ToolCall
recent_calls zero h = h
recent_calls (suc n) h = take (suc n) h

-- `_check_poll_no_progress`
unfoldable pub check_poll_no_progress : LoopDetectionConfig → List ToolCall → Bool
unfolding recent_calls distinct
check_poll_no_progress cfg h =
    let recent = recent_calls cfg.poll_no_progress_threshold h in
    if ltb (length h) cfg.poll_no_progress_threshold
    then false
    else length (distinct (map (λ c. c.tool_name) recent)) == 1
      && leb (length (distinct (map (λ c. c.args_fingerprint) recent))) 2

-- The three tests in order, with the count that the first one leaves.
unfoldable pub find_pattern : LoopDetectionConfig → ℕ → List ToolCall → ℕ × Option Pattern
unfolding check_generic_repeat check_ping_pong check_poll_no_progress
find_pattern cfg n h =
    let r = if cfg.generic_repeat_enabled then check_generic_repeat cfg n h else (n, false) in
    (
      r.0,
      if r.1
          then some generic_repeat
          else if cfg.ping_pong_enabled && check_ping_pong h
          then some ping_pong
          else if cfg.poll_no_progress_enabled && check_poll_no_progress cfg h
          then some poll_no_progress
          else none,
    )

-- The counting of a warning and its consequences.
unfoldable pub count_warning : LoopDetectionConfig → LoopDetectionState → LoopDetectionState
count_warning cfg s =
    let warnings = suc s.warnings_issued in
    if leb cfg.circuit_breaker_threshold warnings
    then record s { warnings_issued = warnings; circuit_broken = true; loop_detected = true }
    else if leb cfg.critical_threshold warnings
    then record s { warnings_issued = warnings; loop_detected = true }
    else record s { warnings_issued = warnings }

unfoldable pub check :
    LoopDetectionConfig → LoopDetectionState → ToolCall → LoopDetectionState × Option Pattern
unfolding find_pattern count_warning
check cfg s call =
    let history = call ∷ s.call_history in
    let r = find_pattern cfg s.consecutive_same history in
    let s' = record s { call_history = history; consecutive_same = r.0 } in
    (if is_some r.1 then count_warning cfg s' else s', r.1)
