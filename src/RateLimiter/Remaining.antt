-- ===== src/RateLimiter/Remaining.antt =====
-- What `remaining` says about the next request.
use ai_agent_starter_kit.RateLimiter.{
  Bucket, RateLimiterConfig, RateLimiter, refilled, allow, remaining,
}
use ai_agent_starter_kit.RateLimiter.Bound.{
  parts_in, available, IsLimiterAt, RefillsInTime, allow_exact,
}
use ai_agent_starter_kit.Common.{
  ℕ, ◌-◌, ◌/◌, ◌<◌, ◌≡◌, refl, sym, ap, ◌∙◌, ◌≢◌, inl, inr, Bool, true, Option, none, some, arith,
  leb, if◌then◌else◌, Bool-cases, Text,
}
use ai_agent_starter_kit.Common.Dict.{get}
use native.Mathlib.Nat.{le-div_iff_mul-le, div-eq-sub-div, mul-div_right}

remaining-eq-available :
    (cfg : RateLimiterConfig) (now : ℕ) (key : Text) (l : RateLimiter)
    → cfg.enabled ≡ true
    → 0 < cfg.token
    → remaining cfg now key l ≡ available cfg now key l / cfg.token
unfolding remaining
remaining-eq-available cfg now key l on t = rw on (of_bucket (get l.buckets key))
  where
    of_bucket :
        (o : Option Bucket)
        → (elim o as (λ _. ℕ) [ none ↦ cfg.burst | some b ↦ refilled cfg now b / cfg.token ])
          ≡ parts_in cfg now o / cfg.token
    of_bucket none = sym (mul-div_right cfg.burst t)
    of_bucket (some b) = refl

whole_tokens :
    (parts token : ℕ)
    → 0 < token
    → (leb token parts ≡ leb 1 (parts / token))
      × ((if leb token parts then parts - token else parts) / token ≡ parts / token - 1)
whole_tokens parts token t =
    let i = le-div_iff_mul-le {x = 1} {y = parts} t in
    elim (Bool-cases (leb token parts)) [
      | inl e ↦
          rw e (ground (arith, e, i), ground (arith, e, div-eq-sub-div {m = token} {n = parts} t))
      | inr e ↦ rw e (ground (arith, e, i), ground (arith, e, i))
    ]

-- With limiting on, tokens of at least one part, and a valid limiter whose buckets refill within
-- the cleanup interval: `remaining` says whether the next request of the key is let through, and
-- that request takes one from it, if there is one, and nothing from what remains to other keys.
pub remaining_exact :
    (cfg : RateLimiterConfig) (now : ℕ) (key : Text) (l : RateLimiter)
    → cfg.enabled ≡ true
    → 0 < cfg.token
    → RefillsInTime cfg
    → IsLimiterAt cfg now l
    → let (l', allowed) = allow cfg now key l in
      (allowed ≡ leb 1 (remaining cfg now key l))
      × (remaining cfg now key l' ≡ remaining cfg now key l - 1)
      × ((other : Text) → other ≢ key → remaining cfg now other l' ≡ remaining cfg now other l)
remaining_exact cfg now key l on t f h =
    let x = allow_exact cfg now key l on f h in
    let l' = (allow cfg now key l).0 in
    let w = whole_tokens (available cfg now key l) cfg.token t in
    let r = remaining-eq-available cfg now key l on t in
    (
      x.0 ∙ w.0 ∙ ap (leb 1) (sym r),
      remaining-eq-available cfg now key l' on t
          ∙ ap (λ p. p / cfg.token)
              (x.1
                ∙ ap
                    (λ (b : Bool).
                      if b then available cfg now key l - cfg.token else available cfg now key l)
                    x.0)
          ∙ w.1
          ∙ ap (λ n. n - 1) (sym r),
      λ other n.
          remaining-eq-available cfg now other l' on t
          ∙ ap (λ p. p / cfg.token) (x.2 other n)
          ∙ sym (remaining-eq-available cfg now other l on t),
    )
