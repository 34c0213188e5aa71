-- ===== src/ToolRetry/Decisions.antt =====
-- When a tool call is tried again, how long that waits, and how often it can happen.
use ai_agent_starter_kit.ToolRetry.{
  ErrorCategory, RetryClass, class_transient, class_timeout, class_none, backoff_delay,
  is_transient, is_exhaustion, decide_in_budget, decide,
}
use ai_agent_starter_kit.Common.{
  ℕ, suc, ◌-◌, ◌*◌, ◌^◌, ◌≤◌, min, ◌≡◌, Bool, false, ◌&&◌, ◌||◌, List, [], ◌∷◌, arith, leb,
  if◌then◌else◌, Text, codes, lower, contains_text,
}

-- The reasons for which a class of the policy retries an error, on its first attempt or later.
abbrev pub is_retryable : ErrorCategory → Text → RetryClass → ℕ → Bool
is_retryable category error_text class_none attempt = false
is_retryable category error_text class_transient attempt =
    is_transient category || (is_exhaustion category && leb attempt 1)
is_retryable category error_text class_timeout attempt =
    is_transient category || contains_text (lower error_text) (codes "timeout")

-- A failed call is tried again exactly if the attempt is within the budget and its class retries the
-- error: transient errors always, exhausted resources on the first attempt only and in the class
-- `transient` only, and in the class `timeout` also every error that speaks of a timeout.
pub should_retry_exact :
    (classify_error : Text → ErrorCategory) (error_text : Text) (retry_class : RetryClass)
    (attempt max_retries : ℕ)
    → (decide classify_error error_text retry_class attempt max_retries).should_retry ≡ (
        leb attempt max_retries
        && is_retryable (classify_error error_text) error_text retry_class attempt)
unfolding decide decide_in_budget
should_retry_exact classify error_text class_none attempt max_retries = ground arith
should_retry_exact classify error_text class_transient attempt max_retries = ground arith
should_retry_exact classify error_text class_timeout attempt max_retries = ground arith

-- The retries of a call that fails every time, from an attempt on, with each error of the list.
unfoldable pub retries : (Text → ErrorCategory) → RetryClass → ℕ → ℕ → List Text → ℕ
unfolding decide
retries classify retry_class max_retries attempt [] = 0
retries classify retry_class max_retries attempt (e ∷ es) =
    let rest = retries classify retry_class max_retries (suc attempt) es in
    if (decide classify e retry_class attempt max_retries).should_retry then suc rest else 0

retries-le-left :
    (classify : Text → ErrorCategory) (retry_class : RetryClass) (max_retries attempt : ℕ)
    (es : List Text)
    → retries classify retry_class max_retries attempt es ≤ suc max_retries - attempt
unfolding retries
retries-le-left classify retry_class max_retries attempt [] = omega arith
retries-le-left classify retry_class max_retries attempt (e ∷ es) = ground (
  arith,
  retries-le-left classify retry_class max_retries (suc attempt) es,
  should_retry_exact classify e retry_class attempt max_retries,
)

-- A call that goes on failing, with whatever errors, is tried again at most `max_retries` times,
-- counted from the first attempt.
pub retries-le :
    (classify : Text → ErrorCategory) (retry_class : RetryClass) (max_retries : ℕ) (es : List Text)
    → retries classify retry_class max_retries 1 es ≤ max_retries
retries-le classify retry_class max_retries es =
    omega (arith, retries-le-left classify retry_class max_retries 1 es)

-- The wait before a retry doubles with each attempt from its base up to the cap, which it never
-- exceeds.
pub backoff_delay-doubles :
    (attempt base cap : ℕ)
    → (backoff_delay (suc (suc attempt)) base cap
        ≡ min (2 * backoff_delay (suc attempt) base cap) cap)
      × (backoff_delay attempt base cap ≤ cap)
unfolding backoff_delay
backoff_delay-doubles attempt base cap =
    (doubled (suc attempt - 1) (suc (suc attempt) - 1) (omega arith), omega arith)
  where
    doubled : (a b : ℕ) → b ≡ suc a → min (base * 2 ^ b) cap ≡ min (2 * min (base * 2 ^ a) cap) cap
    doubled a b e =
        let p : base * 2 ^ b ≡ 2 * (base * 2 ^ a) = rw e (grind arith) in rw p (omega arith)
