-- ===== src/RateLimiter/Bound.antt =====
-- How many requests of a key the limiter lets through in a stretch of time.
use ai_agent_starter_kit.RateLimiter.{
  Bucket, RateLimiterConfig, RateLimiter, is_stale, cleanup, clean_when_due, full_bucket, refilled,
  refill, allow,
}
use ai_agent_starter_kit.Common.{
  ℕ, ◌+◌, ◌-◌, ◌*◌, ◌≤◌, min, ◌≡◌, refl, sym, ap, ◌∙◌, ◌≢◌, inl, inr, Bool, true, false, not,
  Option, none, some, arith, ltb, leb, if◌then◌else◌, Bool-cases, or_else, filter, All, All-filter,
  Text, text_eq_iff,
}
use ai_agent_starter_kit.Common.Dict.{
  get, put, get-put, get-put_self, IsUnique, put-IsUnique, All-put, All-get, keep, filter-IsUnique,
  get-filter,
}

-- What the limiter keeps of a key, in parts, at a time: a key without a bucket has a full one.
abbrev pub parts_in : RateLimiterConfig → ℕ → Option Bucket → ℕ
parts_in cfg now none = cfg.token * cfg.burst
parts_in cfg now (some b) = refilled cfg now b

abbrev pub available : RateLimiterConfig → ℕ → Text → RateLimiter → ℕ
available cfg now key l = parts_in cfg now (get l.buckets key)

-- A bucket has the burst of the settings, no more tokens than that, and was filled in the past.
abbrev pub IsBucketAt : RateLimiterConfig → ℕ → Bucket → Type 0
IsBucketAt cfg now b =
    (b.burst ≡ cfg.burst) × (b.last_refill ≤ now) × (b.tokens ≤ cfg.token * cfg.burst)

abbrev pub IsLimiterAt : RateLimiterConfig → ℕ → RateLimiter → Type 0
IsLimiterAt cfg now l = IsUnique l.buckets × All (λ e. IsBucketAt cfg now e.1) l.buckets

-- A bucket that is idle for the cleanup interval is full again.
abbrev pub RefillsInTime : RateLimiterConfig → Type 0
RefillsInTime cfg = cfg.token * cfg.burst ≤ cfg.cleanup_interval * cfg.requests_per_second

stale_is_full :
    (cfg : RateLimiterConfig) (now : ℕ) (b : Bucket)
    → RefillsInTime cfg
    → IsBucketAt cfg now b
    → is_stale cfg now b ≡ true
    → refilled cfg now b ≡ cfg.token * cfg.burst
unfolding refilled
stale_is_full cfg now b f h s = full (now - b.last_refill) (ground (arith, s, h))
  where
    grows : (n r d : ℕ) → n ≤ d → n * r ≤ d * r
    grows n r d l = let e : n + (d - n) ≡ d = omega (arith, l) in omega (arith, ap (λ x. x * r) e)

    full :
        (d : ℕ)
        → cfg.cleanup_interval ≤ d
        → min (cfg.token * b.burst) (b.tokens + d * cfg.requests_per_second) ≡ cfg.token * cfg.burst
    full d l = rw (h.0) (omega (arith, f, grows cfg.cleanup_interval cfg.requests_per_second d l))

-- The cleanup only drops buckets that are full again.
cleanup-available :
    (cfg : RateLimiterConfig) (now : ℕ) (key : Text) (l : RateLimiter)
    → RefillsInTime cfg
    → IsLimiterAt cfg now l
    → available cfg now key (clean_when_due cfg now l) ≡ available cfg now key l
unfolding clean_when_due cleanup
cleanup-available cfg now key l f h = of_due (ltb (l.last_cleanup + cfg.cleanup_interval) now)
  where
    kept :
        (o : Option Bucket)
        → get l.buckets key ≡ o
        → parts_in cfg now (keep (λ b. not (is_stale cfg now b)) o) ≡ parts_in cfg now o
    kept none e = refl
    kept (some b) e = elim (Bool-cases (is_stale cfg now b)) [
      | inl s ↦ rw s (
          sym (
            stale_is_full cfg now b f (All-get (λ e. IsBucketAt cfg now e.1) l.buckets key b h.1 e)
              s))
      | inr s ↦ rw s refl
    ]

    of_due :
        (due : Bool)
        → available cfg now key (
            if due
            then record {
              buckets = filter (λ e. not (is_stale cfg now e.1)) l.buckets;
              last_cleanup = now;
            }
            else l)
          ≡ available cfg now key l
    of_due false = refl
    of_due true =
        ap (λ o. parts_in cfg now o) (get-filter (λ b. not (is_stale cfg now b)) l.buckets key h.0)
        ∙ kept (get l.buckets key) refl

cleanup-IsLimiterAt :
    (cfg : RateLimiterConfig) (now : ℕ) (l : RateLimiter)
    → IsLimiterAt cfg now l
    → IsLimiterAt cfg now (clean_when_due cfg now l)
unfolding clean_when_due cleanup
cleanup-IsLimiterAt cfg now l h = of_due (ltb (l.last_cleanup + cfg.cleanup_interval) now)
  where
    of_due :
        (due : Bool)
        → IsLimiterAt cfg now (
            if due
            then record {
              buckets = filter (λ e. not (is_stale cfg now e.1)) l.buckets;
              last_cleanup = now;
            }
            else l)
    of_due false = h
    of_due true = (
      filter-IsUnique (λ b. not (is_stale cfg now b)) l.buckets h.0,
      All-filter (λ e. IsBucketAt cfg now e.1) (λ e. not (is_stale cfg now e.1)) l.buckets h.1,
    )

-- The bucket that a request works with, after its refill.
bucket_of : RateLimiterConfig → ℕ → Text → RateLimiter → Bucket
bucket_of cfg now key l = refill cfg now (or_else (full_bucket cfg now) (get l.buckets key))

refill_exact :
    (cfg : RateLimiterConfig) (now : ℕ) (b : Bucket)
    → IsBucketAt cfg now b
    → let b' = refill cfg now b in
      (b'.tokens ≡ refilled cfg now b) × (b'.last_refill ≡ now) × IsBucketAt cfg now b'
unfolding refill refilled
refill_exact cfg now b h = elim (Bool-cases (ltb b.last_refill now)) [
  | inl e ↦ rw (e, h.0) (refl, refl, (refl, omega arith, omega arith))
  | inr e ↦ let z : b.last_refill ≡ now = ground (arith, e, h) in rw e (ground (arith, h, z), z, h)
]

bucket_of-exact :
    (cfg : RateLimiterConfig) (now : ℕ) (key : Text) (l : RateLimiter)
    → IsLimiterAt cfg now l
    → ((bucket_of cfg now key l).tokens ≡ available cfg now key l)
      × ((bucket_of cfg now key l).last_refill ≡ now)
      × IsBucketAt cfg now (bucket_of cfg now key l)
unfolding bucket_of
bucket_of-exact cfg now key l h = of_bucket (get l.buckets key) refl
  where
    of_bucket :
        (o : Option Bucket)
        → get l.buckets key ≡ o
        → let b = refill cfg now (or_else (full_bucket cfg now) o) in
          (b.tokens ≡ parts_in cfg now o) × (b.last_refill ≡ now) × IsBucketAt cfg now b
    of_bucket none e = unfold refill in ground arith
    of_bucket (some b) e =
        refill_exact cfg now b (All-get (λ e. IsBucketAt cfg now e.1) l.buckets key b h.1 e)

-- A request of a key on the cleaned limiter: with the bucket that is stored for it.
take_token :
    (cfg : RateLimiterConfig) (now : ℕ) (b : Bucket)
    → IsBucketAt cfg now b
    → b.last_refill ≡ now
    → (refilled cfg now b ≡ b.tokens)
      × (refilled cfg now (record b { tokens = b.tokens - cfg.token }) ≡ b.tokens - cfg.token)
unfolding refilled
take_token cfg now b h e = ground (arith, h, e)

-- A limiter in which a valid bucket is stored.
stored :
    (cfg : RateLimiterConfig) (now : ℕ) (key : Text) (l : RateLimiter) (b : Bucket)
    → IsLimiterAt cfg now l
    → IsBucketAt cfg now b
    → let l' : RateLimiter = record l { buckets = put l.buckets key b } in
      (available cfg now key l' ≡ refilled cfg now b)
      × ((other : Text) → other ≢ key → available cfg now other l' ≡ available cfg now other l)
      × IsLimiterAt cfg now l'
stored cfg now key l b h v = (
  ap (parts_in cfg now) (get-put_self l.buckets key b),
  λ other n.
      ap (parts_in cfg now)
        (ground (arith, get-put l.buckets key other b, text_eq_iff key other, n)),
  (put-IsUnique l.buckets key b h.0, All-put (λ e. IsBucketAt cfg now e.1) l.buckets key b h.1 v),
)

-- With limiting on, on a limiter whose buckets refill within the cleanup interval: a request is let
-- through exactly if a whole token is left to its key, it then takes just that one, and other keys
-- are not affected, whether or not old buckets are cleaned up on the way.
pub allow_exact :
    (cfg : RateLimiterConfig) (now : ℕ) (key : Text) (l : RateLimiter)
    → cfg.enabled ≡ true
    → RefillsInTime cfg
    → IsLimiterAt cfg now l
    → let (l', allowed) = allow cfg now key l in
      (allowed ≡ leb cfg.token (available cfg now key l))
      × (available cfg now key l'
          ≡ (if allowed then available cfg now key l - cfg.token else available cfg now key l))
      × ((other : Text) → other ≢ key → available cfg now other l' ≡ available cfg now other l)
      × IsLimiterAt cfg now l'
unfolding allow bucket_of
allow_exact cfg now key l on f h =
    let cleaned = clean_when_due cfg now l in
    let hc = cleanup-IsLimiterAt cfg now l h in
    let b = bucket_of cfg now key cleaned in
    let x = bucket_of-exact cfg now key cleaned hc in
    let t = take_token cfg now b x.2 x.1 in
    let same = x.0 ∙ cleanup-available cfg now key l f h in
    let taken : Bucket = record b { tokens = b.tokens - cfg.token } in
    let st = stored cfg now key cleaned taken hc (ground (arith, x)) in
    let sf = stored cfg now key cleaned b hc x.2 in
    elim (Bool-cases (leb cfg.token b.tokens)) [
      | inl e ↦
          rw (on, e)
            (
              ground (arith, e, same),
              ground (arith, st.0, t.1, same),
              λ other n. st.1 other n ∙ cleanup-available cfg now other l f h,
              st.2,
            )
      | inr e ↦
          rw (on, e)
            (
              ground (arith, e, same),
              ground (arith, sf.0, t.0, same),
              λ other n. sf.1 other n ∙ cleanup-available cfg now other l f h,
              sf.2,
            )
    ]
