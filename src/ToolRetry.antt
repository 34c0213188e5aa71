-- ===== src/ToolRetry.antt =====
-- backend/app/services/tool_retry_strategy.py: whether and how a failed tool call is tried again.
-- The classification of the error text by regular expressions (services/error_taxonomy.py) is a
-- function parameter. The delays of the source are whole seconds.
pub mod Decisions
mod Examples
use ai_agent_starter_kit.Common.{
  ℕ, ◌+◌, ◌-◌, ◌*◌, ◌^◌, min, Bool, true, false, ◌||◌, leb, if◌then◌else◌, Text, codes, lower,
  contains_text,
}

-- `ErrorCategory`
pub data ErrorCategory : Type 0 where
  transient missing_dependency invalid_args permission resource_exhaustion crash unknown :
      ErrorCategory

pub data RetryStrategy : Type 0 where
  backoff escalate replan skip : RetryStrategy

pub data RetryClass : Type 0 where
  class_transient class_timeout class_none : RetryClass

-- Without the `reason`, which is a text for the log.
pub record RetryDecision : Type 0 where
  pub should_retry : Bool
  pub strategy : RetryStrategy
  pub delay_seconds : ℕ
  pub error_category : ErrorCategory

-- `_STRATEGY_MAP`, of which `decide` uses the strategy only.
abbrev pub strategy_of : ErrorCategory → RetryStrategy
strategy_of transient = backoff
strategy_of missing_dependency = replan
strategy_of invalid_args = replan
strategy_of permission = escalate
strategy_of resource_exhaustion = backoff
strategy_of crash = replan
strategy_of unknown = skip

-- `min(base * (2 ** (attempt - 1)), cap)`, for an attempt counted from 1.
unfoldable pub backoff_delay : ℕ → ℕ → ℕ → ℕ
backoff_delay attempt base cap = min (base * 2 ^ (attempt - 1)) cap

abbrev pub is_transient : ErrorCategory → Bool
is_transient transient = true
is_transient missing_dependency = false
is_transient invalid_args = false
is_transient permission = false
is_transient resource_exhaustion = false
is_transient crash = false
is_transient unknown = false

abbrev pub is_exhaustion : ErrorCategory → Bool
is_exhaustion transient = false
is_exhaustion missing_dependency = false
is_exhaustion invalid_args = false
is_exhaustion permission = false
is_exhaustion resource_exhaustion = true
is_exhaustion crash = false
is_exhaustion unknown = false

abbrev pub give_up : ErrorCategory → RetryDecision
give_up category = record {
  should_retry = false;
  strategy = strategy_of category;
  delay_seconds = 0;
  error_category = category;
}

abbrev pub retry_after : Bool → ℕ → ErrorCategory → RetryDecision
retry_after should_retry delay category = record {
  should_retry = should_retry;
  strategy = backoff;
  delay_seconds = delay;
  error_category = category;
}

-- `decide` below the test of the budget.
unfoldable pub decide_in_budget : ErrorCategory → Text → RetryClass → ℕ → RetryDecision
unfolding backoff_delay contains_text lower
decide_in_budget category error_text class_none attempt = give_up category
decide_in_budget category error_text class_transient attempt =
    if is_transient category
    then retry_after true (backoff_delay attempt 1 30) category
    else if is_exhaustion category
    then retry_after (leb attempt 1) (backoff_delay attempt 3 30) category
    else give_up category
decide_in_budget category error_text class_timeout attempt =
    if is_transient category
    then retry_after true (backoff_delay attempt 1 30) category
    else if contains_text (lower error_text) (codes "timeout")
    then retry_after true (backoff_delay attempt 1 30) transient
    else give_up category

abbrev pub is_disabled : RetryClass → Bool
is_disabled class_none = true
is_disabled class_transient = false
is_disabled class_timeout = false

unfoldable pub decide : (Text → ErrorCategory) → Text → RetryClass → ℕ → ℕ → RetryDecision
unfolding decide_in_budget
decide classify_error error_text retry_class attempt max_retries =
    let category = classify_error error_text in
    if is_disabled retry_class || leb (max_retries + 1) attempt
    then give_up category
    else decide_in_budget category error_text retry_class attempt
