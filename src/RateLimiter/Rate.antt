-- ===== src/RateLimiter/Rate.antt =====
-- Requests over a stretch of time.
use ai_agent_starter_kit.RateLimiter.{Bucket, RateLimiterConfig, RateLimiter, refilled, allow}
use ai_agent_starter_kit.RateLimiter.Bound.{
  parts_in, available, IsBucketAt, IsLimiterAt, RefillsInTime, allow_exact,
}
use ai_agent_starter_kit.Common.{
  subst, ℕ, ◌+◌, ◌-◌, ◌*◌, ◌≤◌, ◌≡◌, refl, ap, ◌≢◌, ◌⊎◌, inl, inr, Bool, true, false, ◌&&◌, Option,
  none, some, List, [], ◌∷◌, arith, leb, if◌then◌else◌, Bool-cases, All, Text, text_eq, text_eq_iff,
  text_eq_refl,
}
use ai_agent_starter_kit.Common.Dict.{Dict, get, All-get}

-- A request: the time that has passed since the one before, and its key.
abbrev pub Request : Type 0
Request = ℕ × Text

abbrev pub elapsed : List Request → ℕ
elapsed [] = 0
elapsed ((wait, key) ∷ requests) = wait + elapsed requests

-- The requests of a key that are let through, from a clock reading on.
unfoldable pub admitted : RateLimiterConfig → Text → ℕ → RateLimiter → List Request → ℕ
unfolding allow text_eq
admitted cfg key now l [] = 0
admitted cfg key now l ((wait, k) ∷ requests) =
    let (l', allowed) = allow cfg (now + wait) k l in
    (if allowed && text_eq k key then 1 else 0) + admitted cfg key (now + wait) l' requests

bucket_later :
    (cfg : RateLimiterConfig) (now wait : ℕ) (b : Bucket)
    → IsBucketAt cfg now b
    → IsBucketAt cfg (now + wait) b
bucket_later cfg now wait b h = (h.0, omega (arith, h), h.2)

limiter_later :
    (cfg : RateLimiterConfig) (now wait : ℕ) (l : RateLimiter)
    → IsLimiterAt cfg now l
    → IsLimiterAt cfg (now + wait) l
limiter_later cfg now wait l h = (h.0, later l.buckets h.1)
  where
    later :
        (d : Dict Bucket)
        → All (λ e. IsBucketAt cfg now e.1) d
        → All (λ e. IsBucketAt cfg (now + wait) e.1) d
    later [] a = tt
    later ((k, b) ∷ d) a = (bucket_later cfg now wait b a.0, later d a.1)

refilled_later :
    (cfg : RateLimiterConfig) (now wait : ℕ) (b : Bucket)
    → IsBucketAt cfg now b
    → refilled cfg (now + wait) b ≤ refilled cfg now b + wait * cfg.requests_per_second
unfolding refilled
refilled_later cfg now wait b h =
    let e : now + wait - b.last_refill ≡ (now - b.last_refill) + wait = omega (arith, h) in
    omega (arith, ap (λ x. x * cfg.requests_per_second) e)

available_later :
    (cfg : RateLimiterConfig) (now wait : ℕ) (key : Text) (l : RateLimiter)
    → IsLimiterAt cfg now l
    → available cfg (now + wait) key l ≤ available cfg now key l + wait * cfg.requests_per_second
available_later cfg now wait key l h = of_bucket (get l.buckets key) refl
  where
    of_bucket :
        (o : Option Bucket)
        → get l.buckets key ≡ o
        → parts_in cfg (now + wait) o ≤ parts_in cfg now o + wait * cfg.requests_per_second
    of_bucket none e = omega arith
    of_bucket (some b) e =
        refilled_later cfg now wait b (All-get (λ e. IsBucketAt cfg now e.1) l.buckets key b h.1 e)

-- One request takes from what is left to the key at most what it is let through for.
request_takes :
    (cfg : RateLimiterConfig) (key : Text) (now : ℕ) (k : Text) (l : RateLimiter)
    → cfg.enabled ≡ true
    → RefillsInTime cfg
    → IsLimiterAt cfg now l
    → let (l', allowed) = allow cfg now k l in
      ((if allowed && text_eq k key then cfg.token else 0) + available cfg now key l'
        ≤ available cfg now key l)
      × IsLimiterAt cfg now l'
request_takes cfg key now k l on f h =
    let x = allow_exact cfg now k l on f h in (by_key (Bool-cases (text_eq k key)) x.0 x.1 x.2, x.3)
  where
    l' : RateLimiter
    l' = (allow cfg now k l).0

    allowed : Bool
    allowed = (allow cfg now k l).1

    by_key :
        (text_eq k key ≡ true) ⊎ (text_eq k key ≡ false)
        → allowed ≡ leb cfg.token (available cfg now k l)
        → available cfg now k l'
          ≡ (if allowed then available cfg now k l - cfg.token else available cfg now k l)
        → ((other : Text) → other ≢ k → available cfg now other l' ≡ available cfg now other l)
        → (if allowed && text_eq k key then cfg.token else 0) + available cfg now key l'
          ≤ available cfg now key l
    by_key (inl e) a b c =
        let q : k ≡ key = (text_eq_iff k key).0 e in
        subst
          (λ y.
            (if allowed && text_eq k y then cfg.token else 0) + available cfg now y l'
            ≤ available cfg now y l)
          q (ground (arith, a, b, text_eq_refl k))
    by_key (inr e) a b c =
        let same = c key (λ q. ground (arith, e, text_eq_iff k key, q)) in ground (arith, e, same)

admitted_within :
    (cfg : RateLimiterConfig) (key : Text) (now : ℕ) (l : RateLimiter) (requests : List Request)
    → cfg.enabled ≡ true
    → RefillsInTime cfg
    → IsLimiterAt cfg now l
    → cfg.token * admitted cfg key now l requests
      ≤ available cfg now key l + elapsed requests * cfg.requests_per_second
unfolding admitted
admitted_within cfg key now l [] on f h = omega arith
admitted_within cfg key now l ((wait, k) ∷ requests) on f h =
    let x = request_takes cfg key (now + wait) k l on f (limiter_later cfg now wait l h) in
    let ih =
      admitted_within cfg key (now + wait) (allow cfg (now + wait) k l).0 requests on f x.1 in
    let later = available_later cfg now wait key l h in ground (arith, x.0, ih, later)

full_at_most :
    (cfg : RateLimiterConfig) (now : ℕ) (key : Text) (l : RateLimiter)
    → IsLimiterAt cfg now l
    → available cfg now key l ≤ cfg.token * cfg.burst
full_at_most cfg now key l h = of_bucket (get l.buckets key) refl
  where
    of_bucket :
        (o : Option Bucket) → get l.buckets key ≡ o → parts_in cfg now o ≤ cfg.token * cfg.burst
    of_bucket none e = omega arith
    of_bucket (some b) e =
        let v = All-get (λ e. IsBucketAt cfg now e.1) l.buckets key b h.1 e in
        unfold refilled in rw (v.0) (omega arith)

-- With limiting on, on a valid limiter whose buckets refill within the cleanup interval, the
-- requests of a key that are let through in any stretch of time are at most a burst and what the
-- rate gives in that time, whatever other keys do and however often old buckets are cleaned up in
-- between.
pub admitted_bounded :
    (cfg : RateLimiterConfig) (key : Text) (now : ℕ) (l : RateLimiter) (requests : List Request)
    → cfg.enabled ≡ true
    → RefillsInTime cfg
    → IsLimiterAt cfg now l
    → cfg.token * admitted cfg key now l requests
      ≤ cfg.token * cfg.burst + elapsed requests * cfg.requests_per_second
admitted_bounded cfg key now l requests on f h =
    omega (arith, admitted_within cfg key now l requests on f h, full_at_most cfg now key l h)
