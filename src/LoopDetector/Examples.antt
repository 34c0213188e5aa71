-- ===== src/LoopDetector/Examples.antt =====
-- A tool that is called three times with the same arguments, and the theorems at it.
use ai_agent_starter_kit.LoopDetector.{
  LoopDetectionConfig, ToolCall, new_state, same_call, check_generic_repeat, check_ping_pong,
  distinct, recent_calls, check_poll_no_progress, find_pattern, count_warning, check,
}
use ai_agent_starter_kit.LoopDetector.Repeats.{check_all, streak, consecutive_same-eq-streak}
use ai_agent_starter_kit.Common.{◌≡◌, refl, true, [], ◌∷◌, codes, text_eq, elem, add_member}

abbrev default_config : LoopDetectionConfig
default_config = record {
  warn_threshold = 2;
  critical_threshold = 3;
  circuit_breaker_threshold = 6;
  generic_repeat_enabled = true;
  ping_pong_enabled = true;
  poll_no_progress_enabled = true;
  poll_no_progress_threshold = 3;
}

abbrev read : ToolCall
read = record { tool_name = codes "read_file"; args_fingerprint = codes "a" }

abbrev write : ToolCall
write = record { tool_name = codes "write_file"; args_fingerprint = codes "a" }

-- The third equal call is the first one that warns.
third_warns :
    ((check_all default_config new_state (read ∷ read ∷ [])).warnings_issued ≡ 0)
    × ((check_all default_config new_state (read ∷ read ∷ read ∷ [])).warnings_issued ≡ 1)
unfolding check_all check find_pattern check_generic_repeat check_ping_pong check_poll_no_progress
    count_warning same_call distinct recent_calls add_member elem text_eq
third_warns = (refl, refl)

consecutive_same-eq-streak_example :
    ((check_all default_config new_state (write ∷ read ∷ read ∷ [])).consecutive_same
      ≡ streak (check_all default_config new_state (write ∷ read ∷ read ∷ [])).call_history)
    × ((check_all default_config new_state (write ∷ read ∷ read ∷ [])).call_history
        ≡ read ∷ read ∷ write ∷ [])
consecutive_same-eq-streak_example =
    consecutive_same-eq-streak default_config (write ∷ read ∷ read ∷ []) refl
