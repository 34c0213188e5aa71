-- ===== src/Idempotency/Bound.antt =====
-- The registry after a registration is not longer than its cap.
use ai_agent_starter_kit.Idempotency.{
  Entry, Registry, is_expired, pop_all, drop_expired, ordered_keys, drop_overflow, prune, register,
}
use ai_agent_starter_kit.Common.{
  ℕ, zero, suc, ◌+◌, ◌-◌, ◌≤◌, ◌<◌, ◌≡◌, refl, sym, ◌∙◌, true, false, not, ◌||◌, List, [], ◌∷◌,
  arith, length, is_empty, take, length-take, All, All-take, Text, text_eq, text_eq_iff,
  text_eq_refl, elem,
}
use ai_agent_starter_kit.Common.Dict.{
  get, put, remove, contains, keys, get-remove, length-remove-lt, IsUnique, put-IsUnique,
  remove-IsUnique, filter-IsUnique,
}
use ai_agent_starter_kit.Common.Sort.{insert_by, sort_by, length-sort_by}

contains-remove_other :
    (d : Registry) (k j : Text)
    → contains d j ≡ true
    → text_eq k j ≡ false
    → contains (remove d k) j ≡ true
unfolding contains
contains-remove_other d k j h n = ground (arith, h, n, get-remove d k j)

abbrev AllContained : Registry → List Text → Type 0
AllContained d ks = All (λ k. contains d k ≡ true) ks

-- No text stands twice in the list.
abbrev pub AreDistinct : List Text → Type 0
AreDistinct [] = Unit
AreDistinct (k ∷ ks) = (elem k ks ≡ false) × AreDistinct ks

still_contained :
    (d : Registry) (k : Text) (ks : List Text)
    → elem k ks ≡ false
    → AllContained d ks
    → AllContained (remove d k) ks
unfolding elem
still_contained d k [] n h = tt
still_contained d k (j ∷ ks) n h = (
  contains-remove_other d k j h.0 (ground (arith, n)),
  still_contained d k ks (ground (arith, n)) h.1,
)

length-pop_all :
    (ks : List Text) (d : Registry)
    → AreDistinct ks
    → AllContained d ks
    → length (pop_all ks d) + length ks ≤ length d
unfolding pop_all
length-pop_all [] d u h = omega arith
length-pop_all (k ∷ ks) d u h = omega (
  arith,
  length-pop_all ks (remove d k) u.1 (still_contained d k ks u.0 h.1),
  length-remove-lt d k h.0,
)

pub contains-insert :
    (key : Text × Entry → ℕ) (e : Text × Entry) (d : Registry) (k : Text)
    → contains (insert_by key e d) k ≡ (text_eq e.0 k || contains d k)
unfolding insert_by contains get
contains-insert key e [] k = ground arith
contains-insert key e (x ∷ d) k = ground (arith, contains-insert key e d k)

insert-IsUnique :
    (key : Text × Entry → ℕ) (e : Text × Entry) (d : Registry)
    → contains d e.0 ≡ false
    → IsUnique d
    → IsUnique (insert_by key e d)
unfolding insert_by
insert-IsUnique key e [] n u = (n, tt)
insert-IsUnique key e (x ∷ d) n u = ground (
  arith,
  n,
  u,
  contains-insert key e d x.0,
  text_eq_iff e.0 x.0,
  text_eq_iff x.0 e.0,
  insert-IsUnique key e d,
  contains-tail x d e.0,
)
  where
    contains-tail :
        (x : Text × Entry) (d : Registry) (k : Text)
        → contains (x ∷ d) k ≡ (text_eq x.0 k || contains d k)
    contains-tail x d k = unfold contains get in ground arith

pub contains-sort :
    (key : Text × Entry → ℕ) (d : Registry) (k : Text) → contains (sort_by key d) k ≡ contains d k
unfolding sort_by contains get
contains-sort key [] k = refl
contains-sort key (e ∷ d) k =
    ground (arith, contains-insert key e (sort_by key d) k, contains-sort key d k)

pub sort-IsUnique : (key : Text × Entry → ℕ) (d : Registry) → IsUnique d → IsUnique (sort_by key d)
unfolding sort_by
sort-IsUnique key [] u = tt
sort-IsUnique key (e ∷ d) u =
    insert-IsUnique key e (sort_by key d) (contains-sort key d e.0 ∙ u.0) (sort-IsUnique key d u.1)

pub elem-keys : (d : Registry) (k : Text) → elem k (keys d) ≡ contains d k
unfolding elem contains get
elem-keys [] k = refl
elem-keys (e ∷ d) k = ground (arith, elem-keys d k, text_eq_iff k e.0, text_eq_iff e.0 k)

pub keys-AreDistinct : (d : Registry) → IsUnique d → AreDistinct (keys d)
keys-AreDistinct [] u = tt
keys-AreDistinct (e ∷ d) u = (elem-keys d e.0 ∙ u.0, keys-AreDistinct d u.1)

keys-contained :
    (d s : Registry)
    → ((k : Text) → contains s k ≡ true → contains d k ≡ true)
    → AllContained d (keys s)
keys-contained d [] h = tt
keys-contained d (e ∷ s) h = (h e.0 (here e s), keys-contained d s (λ k c. h k (there e s k c)))
  where
    here : (e : Text × Entry) (s : Registry) → contains (e ∷ s) e.0 ≡ true
    here e s = unfold contains get in ground (arith, text_eq_refl e.0)

    there :
        (e : Text × Entry) (s : Registry) (k : Text)
        → contains s k ≡ true
        → contains (e ∷ s) k ≡ true
    there e s k c = unfold contains get in ground (arith, c)

pub elem-take : (k : Text) (n : ℕ) (ks : List Text) → elem k ks ≡ false → elem k (take n ks) ≡ false
unfolding elem
elem-take k zero ks h = refl
elem-take k (suc n) [] h = refl
elem-take k (suc n) (j ∷ ks) h = ground (arith, h, elem-take k n ks)

take-AreDistinct : (n : ℕ) (ks : List Text) → AreDistinct ks → AreDistinct (take n ks)
take-AreDistinct zero ks u = tt
take-AreDistinct (suc n) [] u = tt
take-AreDistinct (suc n) (k ∷ ks) u = (elem-take k n ks u.0, take-AreDistinct n ks u.1)

pub length-keys : (d : Registry) → length (keys d) ≡ length d
length-keys [] = refl
length-keys (e ∷ d) = omega (arith, length-keys d)

pub length-drop_overflow-le :
    (cap : ℕ) (d : Registry) → 0 < cap → IsUnique d → length (drop_overflow cap d) ≤ cap
unfolding drop_overflow ordered_keys
length-drop_overflow-le cap d c u =
    let by_age : Text × Entry → ℕ = λ e. e.1.created_at in
    let sorted = sort_by by_age d in
    let oldest = take (length d - cap) (keys sorted) in
    ground (
      arith,
      c,
      length-pop_all oldest d
          (take-AreDistinct (length d - cap) (keys sorted)
            (keys-AreDistinct sorted (sort-IsUnique by_age d u)))
          (All-take (λ k. contains d k ≡ true) (length d - cap) (keys sorted)
            (keys-contained d sorted (λ k h. sym (contains-sort by_age d k) ∙ h))),
      length-take (length d - cap) (keys sorted),
      length-keys sorted,
      length-sort_by by_age d,
    )

pub pop_all-IsUnique : (ks : List Text) (d : Registry) → IsUnique d → IsUnique (pop_all ks d)
unfolding pop_all
pop_all-IsUnique [] d u = u
pop_all-IsUnique (k ∷ ks) d u = pop_all-IsUnique ks (remove d k) (remove-IsUnique d k u)

pub drop_expired-IsUnique :
    (ttl now : ℕ) (d : Registry) → IsUnique d → IsUnique (drop_expired ttl now d)
unfolding drop_expired
drop_expired-IsUnique ttl now d u =
    ground (arith, u, filter-IsUnique (λ e. not (is_expired ttl now e)) d u)

pub prune-IsUnique : (ttl cap now : ℕ) (d : Registry) → IsUnique d → IsUnique (prune ttl cap now d)
unfolding prune drop_overflow
prune-IsUnique ttl cap now d u =
    let d' = drop_expired ttl now d in
    let u' = drop_expired-IsUnique ttl now d u in
    ground (arith, u', pop_all-IsUnique (take (length d' - cap) (ordered_keys d')) d' u')

-- After a registration with a cap above 0 the registry has no more entries than the cap, however
-- many it had before.
pub length-register-le :
    (ttl cap now : ℕ) (key print value : Text) (d : Registry)
    → 0 < cap
    → IsUnique d
    → is_empty key ≡ false
    → length (register ttl cap now key print value d) ≤ cap
unfolding register prune
length-register-le ttl cap now key print value d c u k =
    let d' =
      put (prune ttl cap now d) key
        (record { fingerprint = print; payload = value; created_at = now }) in
    rw k (
      length-drop_overflow-le cap (drop_expired ttl now d') c (
        drop_expired-IsUnique ttl now d'
          (put-IsUnique (prune ttl cap now d) key _ (prune-IsUnique ttl cap now d u))))
