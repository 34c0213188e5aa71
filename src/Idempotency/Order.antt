-- ===== src/Idempotency/Order.antt =====
-- The entries from before a time come first in the order by age.
use ai_agent_starter_kit.Idempotency.{Entry, Registry}
use ai_agent_starter_kit.Common.{
  subst, ℕ, zero, suc, ◌+◌, ◌≤◌, ◌<◌, ◌≡◌, refl, inl, inr, true, false, some, [], ◌∷◌, arith, ltb,
  leb, if◌then◌else◌, Bool-cases, length, take, All, Text, text_eq, text_eq_iff, elem,
}
use ai_agent_starter_kit.Common.Dict.{get, contains, keys, IsUnique}
use ai_agent_starter_kit.Common.Sort.{insert_by, sort_by, All-insert_by}

abbrev pub age : Text × Entry → ℕ
age e = e.1.created_at

-- The entries from before a time, and the others.
unfoldable pub older : ℕ → Registry → ℕ
older a [] = 0
older a (x ∷ d) = let rest = older a d in if ltb (age x) a then rest + 1 else rest

unfoldable pub newer : ℕ → Registry → ℕ
newer a [] = 0
newer a (x ∷ d) = let rest = newer a d in if ltb (age x) a then rest else rest + 1

pub older-newer : (a : ℕ) (d : Registry) → older a d + newer a d ≡ length d
unfolding older newer
older-newer a [] = refl
older-newer a (x ∷ d) = ground (arith, older-newer a d)

-- The first entries are from before the time, and the others are not.
unfoldable pub IsSplit : ℕ → ℕ → Registry → Type 0
IsSplit a zero s = All (λ x. a ≤ age x) s
IsSplit a (suc k) [] = suc k ≡ 0
IsSplit a (suc k) (x ∷ s) = (age x < a) × IsSplit a k s

insert_old-IsSplit :
    (a k : ℕ) (x : Text × Entry) (s : Registry)
    → age x < a
    → IsSplit a k s
    → IsSplit a (suc k) (insert_by age x s)
unfolding insert_by IsSplit
insert_old-IsSplit a zero x [] l h = (l, tt)
insert_old-IsSplit a (suc k) x [] l h = absurd (omega (arith, h))
insert_old-IsSplit a zero x (y ∷ s) l h =
    let e : leb (age x) (age y) ≡ true = ground (arith, l, h.0) in rw e (l, h)
insert_old-IsSplit a (suc k) x (y ∷ s) l h = elim (Bool-cases (leb (age x) (age y))) [
  | inl e ↦ rw e (l, h)
  | inr e ↦ rw e (h.0, insert_old-IsSplit a k x s l h.1)
]

insert_new-IsSplit :
    (a k : ℕ) (x : Text × Entry) (s : Registry)
    → a ≤ age x
    → IsSplit a k s
    → IsSplit a k (insert_by age x s)
unfolding insert_by IsSplit
insert_new-IsSplit a zero x s l h = All-insert_by age (λ y. a ≤ age y) x s l h
insert_new-IsSplit a (suc k) x [] l h = absurd (omega (arith, h))
insert_new-IsSplit a (suc k) x (y ∷ s) l h =
    let e : leb (age x) (age y) ≡ false = ground (arith, l, h.0) in
    rw e (h.0, insert_new-IsSplit a k x s l h.1)

pub sort-IsSplit : (a : ℕ) (d : Registry) → IsSplit a (older a d) (sort_by age d)
unfolding older sort_by IsSplit
sort-IsSplit a [] = tt
sort-IsSplit a (x ∷ d) = elim (Bool-cases (ltb (age x) a)) [
  | inl e ↦ rw e (
      subst (λ k. IsSplit a k (insert_by age x (sort_by age d))) {x = suc (older a d)} (omega arith)
        (insert_old-IsSplit a (older a d) x (sort_by age d) (ground (arith, e)) (sort-IsSplit a d)))
  | inr e ↦
      rw e
        (insert_new-IsSplit a (older a d) x (sort_by age d) (ground (arith, e)) (sort-IsSplit a d))
]

-- What stands under the key is from the time or later.
unfoldable pub IsFrom : Text → ℕ → Registry → Type 0
IsFrom key a d = All (λ x. text_eq x.0 key ≡ true → a ≤ age x) d

absent-IsFrom : (key : Text) (a : ℕ) (d : Registry) → contains d key ≡ false → IsFrom key a d
unfolding contains get IsFrom
absent-IsFrom key a [] h = tt
absent-IsFrom key a (x ∷ d) h =
    ((λ e. absurd (ground (arith, e, h))), absent-IsFrom key a d (ground (arith, h)))

pub found-IsFrom :
    (key : Text) (e : Entry) (d : Registry)
    → IsUnique d
    → get d key ≡ some e
    → IsFrom key e.created_at d
unfolding get IsFrom
found-IsFrom key e [] u g = tt
found-IsFrom key e ((i, w) ∷ d) u g = elim (Bool-cases (text_eq i key)) [
  | inl q ↦
      let same : w ≡ e = ground (arith, g, q) in
      (
        (λ _. rw same (omega arith)),
        absent-IsFrom key e.created_at d
            (subst (λ j. contains d j ≡ false) ((text_eq_iff i key).0 q) u.0),
      )
  | inr q ↦ ((λ r. absurd (ground (arith, q, r))), found-IsFrom key e d u.1 (ground (arith, g, q)))
]

pub not_taken :
    (key : Text) (a k n : ℕ) (s : Registry)
    → IsSplit a k s
    → IsFrom key a s
    → n ≤ k
    → elem key (take n (keys s)) ≡ false
unfolding IsSplit IsFrom elem
not_taken key a k zero s h f l = refl
not_taken key a zero (suc n) s h f l = absurd (omega (arith, l))
not_taken key a (suc k) (suc n) [] h f l = refl
not_taken key a (suc k) (suc n) (x ∷ s) h f l =
    let other : text_eq x.0 key ≡ false = elim (Bool-cases (text_eq x.0 key)) [
      | inl e ↦ absurd (omega (arith, f.0 e, h.0))
      | inr e ↦ e
    ] in
    ground (
      arith,
      other,
      text_eq_iff x.0 key,
      text_eq_iff key x.0,
      not_taken key a k n s h.1 f.1 (omega (arith, l)),
    )
