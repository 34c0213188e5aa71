-- ===== src/Subrun/Delivery.antt =====
-- The delivery of a finished run's announcement: `_emit_announce_with_retry`.
-- The sender is a parameter: `sends n` says whether the attempt with number n goes through.
use ai_agent_starter_kit.Subrun.{
  announced, announce_retrying, announce_failed, Announce, LaneConfig, clamp_config,
}
use ai_agent_starter_kit.Common.{
  ℕ, zero, suc, ◌+◌, ◌-◌, ◌*◌, ◌^◌, ◌≤◌, min, ◌≡◌, ap, ◌∙◌, Bool, true, false, Option, none, some,
  arith, leb, if◌then◌else◌,
}
use native.Mathlib.Nat.{pow-suc}

-- The `for` loop from one attempt on, with the attempts that are left, over the recorded status;
-- with the number of messages sent.
unfoldable pub announce_loop : ℕ → (ℕ → Bool) → ℕ → ℕ → Option Announce → Option Announce × ℕ
announce_loop limit sends attempt zero current = (current, 0)
announce_loop limit sends attempt (suc left) current =
    let rest =
      announce_loop limit sends (attempt + 1) left
        (some (record { status = announce_retrying; attempt = attempt })) in
    if sends attempt
    then (some (record { status = announced; attempt = attempt }), 1)
    else if leb limit attempt
    then (some (record { status = announce_failed; attempt = attempt }), 1)
    else (rest.0, rest.1 + 1)

abbrev pub is_announced : Option Announce → Bool
is_announced none = false
is_announced (some a) = elim a.status [
  | announced ↦ true
  | announce_retrying ↦ false
  | announce_failed ↦ false
]

unfoldable pub emit_announce_with_retry :
    LaneConfig → (ℕ → Bool) → Option Announce → Option Announce × ℕ
unfolding announce_loop
emit_announce_with_retry cfg sends current =
    let result =
      announce_loop cfg.announce_retry_max_attempts sends 1 cfg.announce_retry_max_attempts
        current in
    if is_announced current then (current, 0) else result

-- The wait after a failed attempt, before the jitter, in milliseconds.
unfoldable pub retry_delay : LaneConfig → ℕ → ℕ
retry_delay cfg attempt =
    min cfg.announce_retry_max_delay_ms (cfg.announce_retry_base_delay_ms * 2 ^ (attempt - 1))

-- The first attempt from `n` on that goes through, among so many.
abbrev pub first_success : (ℕ → Bool) → ℕ → ℕ → Option ℕ
first_success sends n zero = none
first_success sends n (suc left) =
    let rest = first_success sends (n + 1) left in if sends n then some n else rest

-- What a delivery should come to: announced by the first attempt that goes through, else failed at
-- the last one.
abbrev pub delivery : ℕ → Option ℕ → Option Announce × ℕ
delivery limit (some n) = (some (record { status = announced; attempt = n }), n)
delivery limit none = (some (record { status = announce_failed; attempt = limit }), limit)

announce_loop_lem :
    (limit : ℕ) (sends : ℕ → Bool) (n left : ℕ) (current : Option Announce)
    → n + left ≡ limit
    → let r = announce_loop (limit + 1) sends (n + 1) (suc left) current in
      let d = delivery (limit + 1) (first_success sends (n + 1) (suc left)) in
      (r.0 ≡ d.0) × (n + r.1 ≡ d.1)
unfolding announce_loop
announce_loop_lem limit sends n zero current h = ground arith
announce_loop_lem limit sends n (suc left) current h =
    let again : Option Announce = some (record { status = announce_retrying; attempt = n + 1 }) in
    ground (arith, announce_loop_lem limit sends (n + 1) left again)

-- A delivery that has not been announced yet sends one message for each attempt up to the first that
-- goes through and records that attempt as announced; if none of the allowed attempts goes through,
-- it sends exactly as many as are allowed and records the failure. It never ends while retrying.
pub emit_announce_exact :
    (cfg : LaneConfig) (sends : ℕ → Bool) (current : Option Announce)
    → 1 ≤ cfg.announce_retry_max_attempts
    → is_announced current ≡ false
    → emit_announce_with_retry cfg sends current
      ≡ delivery cfg.announce_retry_max_attempts
          (first_success sends 1 cfg.announce_retry_max_attempts)
emit_announce_exact cfg sends current m n =
    let limit = cfg.announce_retry_max_attempts - 1 in
    let e : cfg.announce_retry_max_attempts ≡ suc limit = omega arith in
    let x = announce_loop_lem limit sends 0 limit current (omega arith) in
    unfold emit_announce_with_retry in rw (e, n) (ground (arith, x))

pow-pos : (n : ℕ) → 1 ≤ 2 ^ n
pow-pos zero = omega arith
pow-pos (suc n) = rw pow-suc (omega (arith, pow-pos n))

pow_add_one : (n : ℕ) → 2 ^ (n + 1 - 1) ≡ 2 ^ n
pow_add_one n = ap (λ (k : ℕ). 2 ^ k) (omega arith)

pow_add_two : (n : ℕ) → 2 ^ (n + 2 - 1) ≡ 2 * 2 ^ n
pow_add_two n = ap (λ (k : ℕ). 2 ^ k) (the_pred n) ∙ (rw pow-suc (omega arith))
  where
    the_pred : (n : ℕ) → n + 2 - 1 ≡ suc n
    the_pred n = omega arith

-- With the limits of a constructed lane the waits lie between the base delay and the maximal delay,
-- and they do not shrink from one attempt to the next.
pub retry_delay_bounds :
    (cfg : LaneConfig) (attempt : ℕ)
    → let c = clamp_config cfg in
      (c.announce_retry_base_delay_ms ≤ retry_delay c (attempt + 1))
      × (retry_delay c (attempt + 1) ≤ c.announce_retry_max_delay_ms)
      × (retry_delay c (attempt + 1) ≤ retry_delay c (attempt + 2))
unfolding retry_delay clamp_config
retry_delay_bounds cfg attempt =
    grind (arith, pow-pos attempt, pow_add_one attempt, pow_add_two attempt)
