-- ===== src/Failover.antt =====
-- backend/app/orchestrator/pipeline_runner.py: what the pipeline runner tells the fallback machine and
-- the recovery resolver about a failed request: the reason of the failure, the branch of the
-- recovery, and the shortened messages. The order of the recovery steps is in the child `Priority`.
pub mod Priority
pub mod Metrics
pub mod Outcomes
pub mod Consistency
pub mod Order
pub mod Shorten
mod Examples
use ai_agent_starter_kit.Common.{
  ℕ, ◌+◌, ◌*◌, ◌/◌, min, max, Bool, not, ◌&&◌, ◌||◌, Option, none, some, List, [], ◌∷◌, ◌++◌, ltb,
  leb, if◌then◌else◌, or_else, length, is_empty, take, any, Text, codes, elem, rstrip, strip, lower,
  contains_text,
}
use ai_agent_starter_kit.Common.Dict.{Dict, get}

-- `FAILOVER_REASON_PATTERNS` without `model_not_found`, whose markers are not alternatives, as the
-- patterns before it and those behind it.
abbrev pub patterns_before : List (Text × List Text)
patterns_before =
    (
      codes "context_overflow",
      codes "context overflow"
          ∷ codes "context window"
          ∷ codes "too large for the model"
          ∷ codes "maximum context length"
          ∷ codes "prompt too long"
          ∷ [],
    )
    ∷ (
      codes "truncation_required",
      codes "truncat" ∷ codes "truncated" ∷ codes "token limit" ∷ codes "max tokens" ∷ [],
    )
    ∷ (
      codes "role_ordering",
      codes "roles must alternate"
          ∷ codes "incorrect role information"
          ∷ codes "role ordering"
          ∷ [],
    )
    ∷ []

abbrev pub patterns_behind : List (Text × List Text)
patterns_behind =
    (codes "rate_limited", codes "rate limit" ∷ codes "too many requests" ∷ codes "429" ∷ [])
    ∷ (codes "timeout", codes "timeout" ∷ codes "timed out" ∷ [])
    ∷ (
      codes "temporary_unavailable",
      codes "temporarily unavailable" ∷ codes "service unavailable" ∷ codes "503" ∷ [],
    )
    ∷ (codes "network_error", codes "connection" ∷ codes "network" ∷ codes "dns" ∷ [])
    ∷ (
      codes "resource_exhausted",
      codes "requires more system memory"
          ∷ codes "out of memory"
          ∷ codes "insufficient memory"
          ∷ codes "not enough memory"
          ∷ codes "cuda out of memory"
          ∷ codes "gpu memory"
          ∷ [],
    )
    ∷ []

-- The loop over the patterns, up to the first one with a marker in the text.
unfoldable pub match_patterns : Text → List (Text × List Text) → Option Text
unfolding contains_text
match_patterns text [] = none
match_patterns text ((reason, markers) ∷ rest) =
    let later = match_patterns text rest in
    if any (contains_text text) markers then some reason else later

-- `_classify_failover_reason`
unfoldable pub classify_failover_reason : Text → Text
unfolding lower contains_text match_patterns
classify_failover_reason message =
    let text = lower message in
    if contains_text text (codes "compaction")
      && (contains_text text (codes "failed")
          || contains_text text (codes "timeout")
          || contains_text text (codes "timed out"))
    then codes "compaction_failure"
    else elim (match_patterns text patterns_before) [
      | some reason ↦ reason
      | none ↦
          if contains_text text (codes "model") && contains_text text (codes "not found")
          then codes "model_not_found"
          else or_else (codes "unknown") (match_patterns text patterns_behind)
    ]

abbrev pub retryable_reasons : List Text
retryable_reasons =
    codes "model_not_found"
    ∷ codes "rate_limited"
    ∷ codes "timeout"
    ∷ codes "temporary_unavailable"
    ∷ codes "network_error"
    ∷ codes "role_ordering"
    ∷ codes "resource_exhausted"
    ∷ []

unfoldable pub is_retryable_failover_reason : Text → Bool
unfolding elem
is_retryable_failover_reason reason = elem reason retryable_reasons

-- `NON_RETRYABLE_FAIL_FAST_BRANCH_BY_REASON`
abbrev pub fail_fast_branches : Dict Text
fail_fast_branches =
    (codes "context_overflow", codes "fail_fast_context_overflow")
    ∷ (codes "compaction_failure", codes "fail_fast_compaction_failure")
    ∷ (codes "truncation_required", codes "fail_fast_truncation_required")
    ∷ []

unfoldable pub resolve_recovery_branch : Text → Text
unfolding get is_retryable_failover_reason
resolve_recovery_branch reason = elim (get fail_fast_branches reason) [
  | some branch ↦ branch
  | none ↦
      if is_retryable_failover_reason reason
      then codes "retry_with_fallback"
      else codes "fail_fast_non_retryable"
]

-- The text cut to a length that is below its own, with the suffix if that is not longer than before.
unfoldable pub cut_text : Text → ℕ → Text → Text
unfolding rstrip
cut_text text target_length suffix =
    let cut = rstrip (take target_length text) in
    if ltb (length text) (length cut + length suffix) then cut else cut ++ suffix

abbrev pub line_breaks : Text
line_breaks = 10 ∷ 10 ∷ []

-- `_compact_user_message`, with the ratio in hundredths.
unfoldable pub compact_user_message : ℕ → ℕ → Text → Text
unfolding strip cut_text
compact_user_message target_ratio min_chars user_message =
    let text = strip user_message in
    let bounded_ratio = min 95 (max 20 target_ratio) in
    let target_length = max min_chars (length text * bounded_ratio / 100) in
    if is_empty text || leb (length text) target_length
    then text
    else cut_text text target_length
        (line_breaks ++ codes "[context compacted by pipeline runner due to context_overflow]")

-- `_truncate_payload_for_retry`
unfoldable pub truncate_payload_for_retry : ℕ → ℕ → Text → Text
unfolding strip cut_text
truncate_payload_for_retry target_chars min_chars user_message =
    let text = strip user_message in
    let bounded_target = max min_chars target_chars in
    if is_empty text || leb (length text) bounded_target
    then text
    else cut_text text bounded_target
        (line_breaks ++ codes "[payload truncated by pipeline runner due to truncation_required]")
