-- ===== src/LoopDetector/Repeats.antt =====
-- What the counters of the detector say about the calls, and when it gives up on a run.
use ai_agent_starter_kit.LoopDetector.{
  LoopDetectionConfig, ToolCall, LoopDetectionState, new_state, same_call, check_generic_repeat,
  find_pattern, count_warning, check,
}
use ai_agent_starter_kit.Common.{
  ℕ, suc, ◌≤◌, ◌≡◌, refl, sym, ap, ◌∙◌, inl, inr, true, ◌||◌, List, [], ◌∷◌, reverse, arith, leb,
  if◌then◌else◌, Bool-cases, is_some,
}
use mathlib.Core.List.{reverse_aux}

unfoldable pub check_all :
    LoopDetectionConfig → LoopDetectionState → List ToolCall → LoopDetectionState
unfolding check
check_all cfg s [] = s
check_all cfg s (c ∷ cs) = check_all cfg (check cfg s c).0 cs

-- How often the last call repeats the one before it, counted back to the last change.
abbrev pub streak : List ToolCall → ℕ
streak [] = 0
streak (c ∷ []) = 0
streak (c ∷ prev ∷ h) = let before = streak (prev ∷ h) in if same_call c prev then suc before else 0

-- The new count is the streak of the new history.
check_generic_repeat-streak :
    (cfg : LoopDetectionConfig) (c : ToolCall) (h : List ToolCall)
    → (check_generic_repeat cfg (streak h) (c ∷ h)).0 ≡ streak (c ∷ h)
unfolding check_generic_repeat
check_generic_repeat-streak cfg c [] = refl
check_generic_repeat-streak cfg c (p ∷ h) = ground arith

count_warning-same :
    (cfg : LoopDetectionConfig) (s : LoopDetectionState)
    → ((count_warning cfg s).consecutive_same ≡ s.consecutive_same)
      × ((count_warning cfg s).call_history ≡ s.call_history)
unfolding count_warning
count_warning-same cfg s = ground arith

find_pattern-streak :
    (cfg : LoopDetectionConfig) (n : ℕ) (c : ToolCall) (h : List ToolCall)
    → cfg.generic_repeat_enabled ≡ true
    → n ≡ streak h
    → (find_pattern cfg n (c ∷ h)).0 ≡ streak (c ∷ h)
unfolding find_pattern
find_pattern-streak cfg n c h g e = rw (g, e) (check_generic_repeat-streak cfg c h)

-- The state after a call, before a warning is counted.
abbrev seen : LoopDetectionConfig → LoopDetectionState → ToolCall → LoopDetectionState
seen cfg s c = record s {
  call_history = c ∷ s.call_history;
  consecutive_same = (find_pattern cfg s.consecutive_same (c ∷ s.call_history)).0;
}

check-seen :
    (cfg : LoopDetectionConfig) (s : LoopDetectionState) (c : ToolCall)
    → ((check cfg s c).0.consecutive_same ≡ (seen cfg s c).consecutive_same)
      × ((check cfg s c).0.call_history ≡ c ∷ s.call_history)
unfolding check
check-seen cfg s c =
    elim (Bool-cases (is_some (find_pattern cfg s.consecutive_same (c ∷ s.call_history)).1)) [
      | inl e ↦ rw e (count_warning-same cfg (seen cfg s c))
      | inr e ↦ rw e (refl, refl)
    ]

-- With the test for repetitions switched on, the count of the detector is the streak of the calls
-- that it has seen, after any sequence of calls, and its history is that sequence, last call first.
pub consecutive_same-eq-streak :
    (cfg : LoopDetectionConfig) (cs : List ToolCall)
    → cfg.generic_repeat_enabled ≡ true
    → ((check_all cfg new_state cs).consecutive_same
        ≡ streak (check_all cfg new_state cs).call_history)
      × ((check_all cfg new_state cs).call_history ≡ reverse cs)
unfolding check_all
consecutive_same-eq-streak cfg cs g = run-counts new_state cs refl
  where
    run-counts :
        (s : LoopDetectionState) (cs : List ToolCall)
        → s.consecutive_same ≡ streak s.call_history
        → ((check_all cfg s cs).consecutive_same ≡ streak (check_all cfg s cs).call_history)
          × ((check_all cfg s cs).call_history ≡ reverse_aux cs s.call_history)
    run-counts s [] e = (e, refl)
    run-counts s (c ∷ cs) e =
        let k = check-seen cfg s c in
        let n = find_pattern-streak cfg s.consecutive_same c s.call_history g e in
        let h = run-counts ((check cfg s c).0) cs (k.0 ∙ n ∙ ap streak (sym k.1)) in
        (h.0, h.1 ∙ ap (reverse_aux cs) k.1)

-- The flags follow from the number of warnings.
abbrev pub HasFlags : LoopDetectionConfig → LoopDetectionState → Type 0
HasFlags cfg s =
    (s.circuit_broken ≡ leb cfg.circuit_breaker_threshold s.warnings_issued)
    × (s.loop_detected ≡ (
        leb cfg.circuit_breaker_threshold s.warnings_issued
        || leb cfg.critical_threshold s.warnings_issued))

count_warning-HasFlags :
    (cfg : LoopDetectionConfig) (s : LoopDetectionState)
    → HasFlags cfg s
    → HasFlags cfg (count_warning cfg s)
unfolding count_warning
count_warning-HasFlags cfg s h = ground arith

check-HasFlags :
    (cfg : LoopDetectionConfig) (s : LoopDetectionState) (c : ToolCall)
    → HasFlags cfg s
    → HasFlags cfg (check cfg s c).0
unfolding check
check-HasFlags cfg s c h =
    let r = find_pattern cfg s.consecutive_same (c ∷ s.call_history) in
    elim (Bool-cases (is_some r.1)) [
      | inl e ↦ rw e (
          count_warning-HasFlags cfg
            (record s { call_history = c ∷ s.call_history; consecutive_same = r.0 }) h)
      | inr e ↦ rw e h
    ]

-- After any calls the detector says that the circuit is broken exactly if it has given at least as
-- many warnings as the threshold of the circuit breaker, and that there is a loop exactly if it has
-- given as many as that or the critical threshold, where both thresholds are at least one.
pub run-HasFlags :
    (cfg : LoopDetectionConfig) (cs : List ToolCall)
    → 1 ≤ cfg.circuit_breaker_threshold
    → 1 ≤ cfg.critical_threshold
    → HasFlags cfg (check_all cfg new_state cs)
unfolding check_all
run-HasFlags cfg cs b c = run-keeps new_state cs (ground (arith, b), ground (arith, b, c))
  where
    run-keeps :
        (s : LoopDetectionState) (cs : List ToolCall)
        → HasFlags cfg s
        → HasFlags cfg (check_all cfg s cs)
    run-keeps s [] h = h
    run-keeps s (d ∷ cs) h = run-keeps ((check cfg s d).0) cs (check-HasFlags cfg s d h)
