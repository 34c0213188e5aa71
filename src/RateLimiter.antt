-- ===== src/RateLimiter.antt =====
-- backend/app/services/rate_limiter.py: a token bucket for each key. Tokens are counted in parts, `token` of
-- which are one token, so that the rate is a whole number of parts for each tick of the clock; a
-- method takes the clock reading that it makes. The two global limiters and their settings are left out.
pub mod Bound
pub mod Rate
pub mod Remaining
mod Examples
use ai_agent_starter_kit.Common.{
  ℕ, ◌+◌, ◌-◌, ◌*◌, ◌/◌, min, Bool, true, false, not, none, some, ltb, leb, if◌then◌else◌, or_else,
  filter, Text,
}
use ai_agent_starter_kit.Common.Dict.{Dict, get, put}

-- `_Bucket`, with the tokens in parts.
pub record Bucket : Type 0 where
  pub tokens : ℕ
  pub last_refill : ℕ
  pub burst : ℕ

-- `RateLimiterConfig`, with the rate in parts.
pub record RateLimiterConfig : Type 0 where
  pub token : ℕ
  pub requests_per_second : ℕ
  pub burst : ℕ
  pub cleanup_interval : ℕ
  pub enabled : Bool

pub record RateLimiter : Type 0 where
  pub buckets : Dict Bucket
  pub last_cleanup : ℕ

-- `now - bucket.last_refill > self._config.cleanup_interval`
abbrev pub is_stale : RateLimiterConfig → ℕ → Bucket → Bool
is_stale cfg now b = ltb (b.last_refill + cfg.cleanup_interval) now

-- `_cleanup`
unfoldable pub cleanup : RateLimiterConfig → ℕ → RateLimiter → RateLimiter
cleanup cfg now l = record {
  buckets = filter (λ e. not (is_stale cfg now e.1)) l.buckets;
  last_cleanup = now;
}

-- The cleanup in front of a request, when it is due.
unfoldable pub clean_when_due : RateLimiterConfig → ℕ → RateLimiter → RateLimiter
unfolding cleanup
clean_when_due cfg now l =
    if ltb (l.last_cleanup + cfg.cleanup_interval) now then cleanup cfg now l else l

abbrev pub full_bucket : RateLimiterConfig → ℕ → Bucket
full_bucket cfg now = record {
  tokens = cfg.token * cfg.burst;
  last_refill = now;
  burst = cfg.burst;
}

-- The parts in the bucket at a time: `min(bucket.burst, bucket.tokens + elapsed * rate)`.
unfoldable pub refilled : RateLimiterConfig → ℕ → Bucket → ℕ
refilled cfg now b =
    min (cfg.token * b.burst) (b.tokens + (now - b.last_refill) * cfg.requests_per_second)

-- The refill, which is skipped when no time has passed.
unfoldable pub refill : RateLimiterConfig → ℕ → Bucket → Bucket
unfolding refilled
refill cfg now b =
    if ltb b.last_refill now then record b { tokens = refilled cfg now b; last_refill = now } else b

-- `allow`
unfoldable pub allow : RateLimiterConfig → ℕ → Text → RateLimiter → RateLimiter × Bool
unfolding clean_when_due refill get put
allow cfg now key l =
    let cleaned = clean_when_due cfg now l in
    let bucket = refill cfg now (or_else (full_bucket cfg now) (get cleaned.buckets key)) in
    if not cfg.enabled
    then (l, true)
    else if leb cfg.token bucket.tokens
    then (
      record cleaned {
        buckets = put cleaned.buckets key (record bucket { tokens = bucket.tokens - cfg.token });
      },
      true,
    )
    else (record cleaned { buckets = put cleaned.buckets key bucket }, false)

-- `remaining`
unfoldable pub remaining : RateLimiterConfig → ℕ → Text → RateLimiter → ℕ
unfolding refilled get
remaining cfg now key l =
    if not cfg.enabled
    then cfg.burst
    else elim (get l.buckets key) [ none ↦ cfg.burst | some b ↦ refilled cfg now b / cfg.token ]
