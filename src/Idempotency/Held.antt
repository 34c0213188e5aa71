-- ===== src/Idempotency/Held.antt =====
-- An entry is held as long as no more than a cap of entries are as new as it is.
use ai_agent_starter_kit.Idempotency.{
  Entry, Registry, is_expired, pop_all, drop_expired, ordered_keys, drop_overflow, prune,
}
use ai_agent_starter_kit.Idempotency.Bound.{pop_all-IsUnique}
use ai_agent_starter_kit.Idempotency.Pruned.{get-pop_all, AreBefore}
use ai_agent_starter_kit.Idempotency.Order.{
  age, older, newer, older-newer, sort-IsSplit, IsFrom, found-IsFrom, not_taken,
}
use ai_agent_starter_kit.Common.{
  ℕ, ◌+◌, ◌-◌, ◌≤◌, ◌<◌, ◌≡◌, refl, ap, ◌∙◌, inl, inr, Bool, true, false, not, ◌&&◌, some, List, [],
  ◌∷◌, arith, ltb, Bool-cases, length, take, filter, Text, text_eq, text_eq_iff,
}
use ai_agent_starter_kit.Common.Dict.{
  get, put, remove, keys, get-put, get-put_self, IsUnique, put-IsUnique, keep, filter-IsUnique,
  get-filter,
}
use ai_agent_starter_kit.Common.Sort.{sort_by, All-sort_by}

newer-remove-le : (a : ℕ) (d : Registry) (k : Text) → newer a (remove d k) ≤ newer a d
unfolding newer remove
newer-remove-le a [] k = omega arith
newer-remove-le a (x ∷ d) k = ground (arith, newer-remove-le a d k)

newer-pop_all-le : (a : ℕ) (ks : List Text) (d : Registry) → newer a (pop_all ks d) ≤ newer a d
unfolding pop_all
newer-pop_all-le a [] d = omega arith
newer-pop_all-le a (k ∷ ks) d =
    omega (arith, newer-pop_all-le a ks (remove d k), newer-remove-le a d k)

newer-filter-le :
    (a : ℕ) (p : Text × Entry → Bool) (d : Registry) → newer a (filter p d) ≤ newer a d
unfolding newer
newer-filter-le a p [] = omega arith
newer-filter-le a p (x ∷ d) = ground (arith, newer-filter-le a p d)

newer-put-le : (a : ℕ) (d : Registry) (k : Text) (e : Entry) → newer a (put d k e) ≤ newer a d + 1
unfolding newer put
newer-put-le a [] k e = ground arith
newer-put-le a ((i, w) ∷ d) k e = ground (arith, newer-put-le a d k e)

pub newer-before : (a : ℕ) (d : Registry) → AreBefore a d → newer a d ≡ 0
unfolding newer
newer-before a [] h = refl
newer-before a (x ∷ d) h = ground (arith, h.0, newer-before a d h.1)

-- The entry stands under the key, and `n` entries at most are as new as it is, itself included.
pub IsHeld : Text → Entry → ℕ → Registry → Type 0
IsHeld key e n d = IsUnique d × (get d key ≡ some e) × (newer e.created_at d ≤ n)

pub held-get :
    (key : Text) (e : Entry) (n : ℕ) (d : Registry) → IsHeld key e n d → get d key ≡ some e
unfolding IsHeld
held-get key e n d h = h.1

pub weaken-IsHeld :
    (key : Text) (e : Entry) (n k : ℕ) (d : Registry) → n ≤ k → IsHeld key e n d → IsHeld key e k d
unfolding IsHeld
weaken-IsHeld key e n k d l h = (h.0, h.1, omega (arith, h.2, l))

drop_overflow-IsHeld :
    (max_count : ℕ) (d : Registry) (key : Text) (e : Entry) (n : ℕ)
    → (0 < max_count → n ≤ max_count)
    → IsHeld key e n d
    → IsHeld key e n (drop_overflow max_count d)
unfolding drop_overflow ordered_keys IsHeld
drop_overflow-IsHeld max_count d key e n room h =
    elim (Bool-cases (ltb 0 max_count && ltb max_count (length d))) [
      | inl c ↦
          let a = e.created_at in
          let sorted = sort_by age d in
          let small : length d - max_count ≤ older a d =
            omega (arith, older-newer a d, h.2, room (ground (arith, c))) in
          let gone = take (length d - max_count) (keys sorted) in
          let kept =
            not_taken key a (older a d) (length d - max_count) sorted (sort-IsSplit a d)
              (unfold IsFrom in
                All-sort_by age (λ x. text_eq x.0 key ≡ true → a ≤ age x) d
                  (found-IsFrom key e d h.0 h.1))
              small in
          rw c (
            pop_all-IsUnique gone d h.0,
            get-pop_all gone d key kept ∙ h.1,
            omega (arith, newer-pop_all-le a gone d, h.2),
          )
      | inr c ↦ rw c h
    ]

drop_expired-IsHeld :
    (ttl now : ℕ) (d : Registry) (key : Text) (e : Entry) (n : ℕ)
    → (0 < ttl → now ≤ e.created_at + ttl)
    → IsHeld key e n d
    → IsHeld key e n (drop_expired ttl now d)
unfolding drop_expired IsHeld
drop_expired-IsHeld ttl now d key e n x h = elim (Bool-cases (ltb 0 ttl)) [
  | inl c ↦
      let alive : is_expired ttl now e ≡ false = ground (arith, x (ground (arith, c))) in
      rw c (
        filter-IsUnique (λ y. not (is_expired ttl now y)) d h.0,
        get-filter (λ y. not (is_expired ttl now y)) d key h.0
            ∙ ap (keep (λ y. not (is_expired ttl now y))) h.1
            ∙ (rw alive refl),
        omega (arith, newer-filter-le e.created_at (λ y. not (is_expired ttl now y.1)) d, h.2),
      )
  | inr c ↦ rw c h
]

pub prune-IsHeld :
    (ttl max_count now : ℕ) (d : Registry) (key : Text) (e : Entry) (n : ℕ)
    → (0 < ttl → now ≤ e.created_at + ttl)
    → (0 < max_count → n ≤ max_count)
    → IsHeld key e n d
    → IsHeld key e n (prune ttl max_count now d)
unfolding prune
prune-IsHeld ttl max_count now d key e n x room h =
    drop_overflow-IsHeld max_count (drop_expired ttl now d) key e n room
      (drop_expired-IsHeld ttl now d key e n x h)

pub put_other-IsHeld :
    (d : Registry) (key other : Text) (e w : Entry) (n : ℕ)
    → text_eq key other ≡ false
    → IsHeld key e n d
    → IsHeld key e (n + 1) (put d other w)
unfolding IsHeld
put_other-IsHeld d key other e w n q h = (
  put-IsUnique d other w h.0,
  ground (arith, get-put d other key w, q, text_eq_iff key other, text_eq_iff other key, h.1),
  omega (arith, newer-put-le e.created_at d other w, h.2),
)

pub put-IsHeld :
    (d : Registry) (key : Text) (e : Entry)
    → IsUnique d
    → AreBefore e.created_at d
    → IsHeld key e 1 (put d key e)
unfolding IsHeld
put-IsHeld d key e u b = (
  put-IsUnique d key e u,
  get-put_self d key e,
  omega (arith, newer-put-le e.created_at d key e, newer-before e.created_at d b),
)
