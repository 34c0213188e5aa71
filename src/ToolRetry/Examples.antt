-- ===== src/ToolRetry/Examples.antt =====
-- A classification by two words, and the theorems at it.
use ai_agent_starter_kit.ToolRetry.{
  ErrorCategory, transient, resource_exhaustion, unknown, class_transient, decide,
}
use ai_agent_starter_kit.ToolRetry.Decisions.{should_retry_exact}
use ai_agent_starter_kit.Common.{
  ◌≡◌, true, if◌then◌else◌, Text, codes, lower_char, lower, starts_with, contains_text,
}

abbrev classify : Text → ErrorCategory
classify s =
    if contains_text (lower s) (codes "timeout")
    then transient
    else if contains_text (lower s) (codes "disk full")
    then resource_exhaustion
    else unknown

should_retry_exact_example :
    (decide classify (codes "Disk full") class_transient 1 2).should_retry ≡ true
unfolding contains_text starts_with lower lower_char
should_retry_exact_example = should_retry_exact classify (codes "Disk full") class_transient 1 2
