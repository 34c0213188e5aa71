-- ===== src/Idempotency/History.antt =====
-- A registered request over any requests that come in between.
use ai_agent_starter_kit.Idempotency.{
  Entry, Registry, drop_expired, prune, conflict, replay, lookup, register,
}
use ai_agent_starter_kit.Idempotency.Bound.{prune-IsUnique}
use ai_agent_starter_kit.Idempotency.Pruned.{
  AreBefore, drop_expired-AreBefore, drop_overflow-AreBefore,
}
use ai_agent_starter_kit.Idempotency.Held.{
  IsHeld, held-get, weaken-IsHeld, prune-IsHeld, put_other-IsHeld, put-IsHeld,
}
use ai_agent_starter_kit.Common.{
  ℕ, ◌+◌, ◌≤◌, ◌<◌, ◌≡◌, refl, inl, inr, false, some, List, [], ◌∷◌, arith, if◌then◌else◌,
  Bool-cases, is_empty, All, Text, text_eq,
}
use ai_agent_starter_kit.Common.Dict.{get, put, IsUnique}

-- A call of the registry: the time, the key and the fingerprint, and what a registration stores.
pub data Request : Type 0 where
  look_up : ℕ → Text → Text → Request
  enter : ℕ → Text → Text → Text → Request

module _ (ttl max_count : ℕ) where
  unfoldable pub serve : Request → Registry → Registry
  unfolding lookup register
  serve (look_up now key print) d = (lookup ttl max_count now key print d).0
  serve (enter now key print value) d = register ttl max_count now key print value d

  unfoldable pub serve_all : List Request → Registry → Registry
  unfolding serve
  serve_all [] d = d
  serve_all (r ∷ rs) d = serve_all rs (serve r d)

  -- Every request is made by a time, where entries expire, and none registers the key again.
  abbrev pub IsOther : Text → ℕ → Request → Type 0
  IsOther key last (look_up now j print) = 0 < ttl → now ≤ last
  IsOther key last (enter now j print value) = (text_eq key j ≡ false) × (0 < ttl → now ≤ last)

  -- The number of registrations.
  abbrev pub entered : List Request → ℕ
  entered [] = 0
  entered (look_up now key print ∷ rs) = entered rs
  entered (enter now key print value ∷ rs) = entered rs + 1

  pub lookup-IsHeld :
      (now : ℕ) (j print : Text) (d : Registry) (key : Text) (e : Entry) (n : ℕ)
      → (0 < ttl → now ≤ e.created_at + ttl)
      → (0 < max_count → n ≤ max_count)
      → IsHeld key e n d
      → IsHeld key e n (lookup ttl max_count now j print d).0
  unfolding lookup
  lookup-IsHeld now j print d key e n t room h = elim (Bool-cases (is_empty j)) [
    | inl q ↦ rw q h
    | inr q ↦ rw q (prune-IsHeld ttl max_count now d key e n t room h)
  ]

  pub register_other-IsHeld :
      (now : ℕ) (j print value : Text) (d : Registry) (key : Text) (e : Entry) (n : ℕ)
      → text_eq key j ≡ false
      → (0 < ttl → now ≤ e.created_at + ttl)
      → (0 < max_count → n + 1 ≤ max_count)
      → IsHeld key e n d
      → IsHeld key e (n + 1) (register ttl max_count now j print value d)
  unfolding register
  register_other-IsHeld now j print value d key e n o t room h =
      let pruned = prune ttl max_count now d in
      let w : Entry = record { fingerprint = print; payload = value; created_at = now } in
      elim (Bool-cases (is_empty j)) [
        | inl q ↦ rw q (weaken-IsHeld key e n (n + 1) d (omega arith) h)
        | inr q ↦ rw q (
            prune-IsHeld ttl max_count now (put pruned j w) key e (n + 1) t room (
              put_other-IsHeld pruned key j e w n o
                (prune-IsHeld ttl max_count now d key e n t (λ p. omega (arith, room p)) h)))
      ]

  serve_all-IsHeld :
      (rs : List Request) (d : Registry) (key : Text) (e : Entry) (n : ℕ)
      → All (IsOther key (e.created_at + ttl)) rs
      → (0 < max_count → n + entered rs ≤ max_count)
      → IsHeld key e n d
      → IsHeld key e (n + entered rs) (serve_all rs d)
  unfolding serve_all serve
  serve_all-IsHeld [] d key e n o room h = weaken-IsHeld key e n (n + 0) d (omega arith) h
  serve_all-IsHeld (look_up now j print ∷ rs) d key e n o room h =
      serve_all-IsHeld rs (serve (look_up now j print) d) key e n o.1 room
        (lookup-IsHeld now j print d key e n o.0 (λ p. omega (arith, room p)) h)
  serve_all-IsHeld (enter now j print value ∷ rs) d key e n o room h =
      let next = serve (enter now j print value) d in
      weaken-IsHeld key e (n + 1 + entered rs) (n + (entered rs + 1)) (serve_all rs next)
        (omega arith)
        (serve_all-IsHeld rs next key e (n + 1) o.1 (λ p. omega (arith, room p))
          (register_other-IsHeld now j print value d key e n o.0.0 o.0.1
            (λ p. omega (arith, room p)) h))

  pub register-IsHeld :
      (now : ℕ) (key print value : Text) (d : Registry)
      → is_empty key ≡ false
      → IsUnique d
      → AreBefore now d
      → IsHeld key
          (record { fingerprint = print; payload = value; created_at = now })
          1
          (register ttl max_count now key print value d)
  unfolding register prune
  register-IsHeld now key print value d k u b =
      let e : Entry = record { fingerprint = print; payload = value; created_at = now } in
      let before : AreBefore now (prune ttl max_count now d) =
        drop_overflow-AreBefore max_count now (drop_expired ttl now d)
          (drop_expired-AreBefore ttl now d b) in
      rw k (
        prune-IsHeld ttl max_count now (put (prune ttl max_count now d) key e) key e 1
          (λ p. omega arith) (λ p. omega (arith, p))
          (put-IsHeld (prune ttl max_count now d) key e (prune-IsUnique ttl max_count now d u)
            before))

  pub held-lookup :
      (later : ℕ) (key other : Text) (d : Registry) (e : Entry) (n : ℕ)
      → is_empty key ≡ false
      → (0 < ttl → later ≤ e.created_at + ttl)
      → (0 < max_count → n ≤ max_count)
      → IsHeld key e n d
      → (lookup ttl max_count later key other d).1
        ≡ (if text_eq e.fingerprint other then replay e.payload else conflict)
  unfolding lookup
  held-lookup later key other d e n k t room h =
      let kept : get (prune ttl max_count later d) key ≡ some e =
        held-get key e n (prune ttl max_count later d)
          (prune-IsHeld ttl max_count later d key e n t room h) in
      rw (k, kept) refl

-- A request with a key that is not empty is registered later than every stored entry. After any
-- lookups and any registrations of other keys, a lookup of the key gets the stored payload if it has
-- the same fingerprint, and a conflict if not. Where entries expire, all this is before its time to
-- live is over; where the registry has a cap, the registrations in between are fewer than it.
pub register-serve_all-lookup :
    (ttl max_count now later : ℕ) (key print other value : Text) (d : Registry)
    (between : List Request)
    → is_empty key ≡ false
    → IsUnique d
    → AreBefore now d
    → All (IsOther ttl max_count key (now + ttl)) between
    → (0 < ttl → later ≤ now + ttl)
    → (0 < max_count → entered ttl max_count between < max_count)
    → (lookup ttl max_count later key other
        (serve_all ttl max_count between (register ttl max_count now key print value d))).1
      ≡ (if text_eq print other then replay value else conflict)
register-serve_all-lookup ttl max_count now later key print other value d between k u b o t room =
    let e : Entry = record { fingerprint = print; payload = value; created_at = now } in
    let stored = register ttl max_count now key print value d in
    held-lookup ttl max_count later key other (serve_all ttl max_count between stored) e
      (1 + entered ttl max_count between) k t (λ p. omega (arith, room p))
      (serve_all-IsHeld ttl max_count between stored key e 1 o (λ p. omega (arith, room p))
        (register-IsHeld ttl max_count now key print value d k u b))
