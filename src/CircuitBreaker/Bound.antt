-- ===== src/CircuitBreaker/Bound.antt =====
-- How many models the registry tracks.
use ai_agent_starter_kit.CircuitBreaker.{
  ModelCircuit, new_circuit, max_tracked_models, Circuits, delete_until_fits, is_idle, is_candidate,
  first_failure, evict_stale_circuits, make_room, ensure_circuit,
}
use ai_agent_starter_kit.Common.{
  ◌+◌, ◌≤◌, ◌<◌, ◌≡◌, refl, ap, ◌≢◌, inl, inr, Bool, true, false, List, [], ◌∷◌, arith, Bool-cases,
  Option-cases, length, filter, any, All, All-filter, Text, text_eq_refl,
}
use ai_agent_starter_kit.Common.Dict.{
  get, remove, contains, keys, length-put, length-remove-le, length-remove-lt,
}
use ai_agent_starter_kit.Common.Sort.{sort_by, length-sort_by, All-sort_by}

contains-cons :
    (e : Text × ModelCircuit) (d : Circuits) (k : Text)
    → contains d k ≡ true
    → contains (e ∷ d) k ≡ true
unfolding contains get
contains-cons e d k h = ground arith

All-contains-cons :
    (e : Text × ModelCircuit) (d l : Circuits)
    → All (λ x. contains d x.0 ≡ true) l
    → All (λ x. contains (e ∷ d) x.0 ≡ true) l
All-contains-cons e d [] h = tt
All-contains-cons e d (x ∷ l) h = (contains-cons e d x.0 h.0, All-contains-cons e d l h.1)

contains_self : (e : Text × ModelCircuit) (d : Circuits) → contains (e ∷ d) e.0 ≡ true
unfolding contains get
contains_self e d = ground (arith, text_eq_refl e.0)

contains-entries : (d : Circuits) → All (λ e. contains d e.0 ≡ true) d
contains-entries [] = tt
contains-entries (e ∷ d) = (contains_self e d, All-contains-cons e d d (contains-entries d))

contains-filter :
    (p : Text × ModelCircuit → Bool) (d : Circuits) → All (λ e. contains d e.0 ≡ true) (filter p d)
contains-filter p d = All-filter (λ e. contains d e.0 ≡ true) p d (contains-entries d)

length-delete_until_fits-le :
    (d : Circuits) (mids : List Text) → length (delete_until_fits d mids) ≤ length d
unfolding delete_until_fits
length-delete_until_fits-le d [] = omega arith
length-delete_until_fits-le d (mid ∷ mids) =
    ground (arith, length-remove-le d mid, length-delete_until_fits-le (remove d mid) mids)

-- One tracked key at the head of the list makes room.
delete_until_fits-fits :
    (d : Circuits) (l : Circuits)
    → length d ≤ max_tracked_models
    → l ≢ []
    → All (λ e. contains d e.0 ≡ true) l
    → length (delete_until_fits d (keys l)) < max_tracked_models
unfolding delete_until_fits
delete_until_fits-fits d [] b n h = absurd (n refl)
delete_until_fits-fits d (e ∷ l) b n h = ground (arith, length-remove-lt d e.0 h.0)

filter-ne-nil : (p : Text × ModelCircuit → Bool) (d : Circuits) → any p d ≡ true → filter p d ≢ []
filter-ne-nil p [] h = cc
filter-ne-nil p (e ∷ d) h = ground (arith, filter-ne-nil p d)

filter-nil : (p : Text × ModelCircuit → Bool) (d : Circuits) → any p d ≡ false → filter p d ≡ []
filter-nil p [] h = refl
filter-nil p (e ∷ d) h = ground (arith, filter-nil p d)

sort_by-ne-nil : (l : Circuits) → l ≢ [] → sort_by first_failure l ≢ []
sort_by-ne-nil [] n h = n refl
sort_by-ne-nil (e ∷ l) n h =
    absurd (omega (arith, length-sort_by first_failure (e ∷ l), ap length h))

-- Where some circuit is closed, the eviction makes room for one more.
evict_fits :
    (d : Circuits)
    → length d ≤ max_tracked_models
    → any is_candidate d ≡ true
    → length (evict_stale_circuits d) < max_tracked_models
unfolding evict_stale_circuits
evict_fits d b c = elim (Bool-cases (any is_idle d)) [
  | inl some_idle ↦ ground (
    arith,
    delete_until_fits-fits d (filter is_idle d) b (filter-ne-nil is_idle d some_idle)
        (contains-filter is_idle d),
  )
  | inr none_idle ↦
      let l = sort_by first_failure (filter is_candidate d) in
      let h =
        All-sort_by first_failure (λ e. contains d e.0 ≡ true) (filter is_candidate d)
          (contains-filter is_candidate d) in
      let n = sort_by-ne-nil (filter is_candidate d) (filter-ne-nil is_candidate d c) in
      rw (filter-nil is_idle d none_idle) (ground (arith, delete_until_fits-fits d l b n h))
]

-- A registry of at most 64 circuits, one of them closed, stays within 64 when a model is looked up,
-- whether the model is tracked or not.
pub ensure_circuit_bounded :
    (d : Circuits) (id : Text)
    → length d ≤ max_tracked_models
    → any is_candidate d ≡ true
    → length (ensure_circuit d id).0 ≤ max_tracked_models
unfolding ensure_circuit make_room
ensure_circuit_bounded d id b c = elim (Option-cases (get d id)) [
  | inl e ↦ ground (arith, evict_fits d b c, length-put (make_room d) id new_circuit)
  | inr (x, e) ↦ rw (e, ensure_circuit) b
]

evict_keeps : (d : Circuits) → any is_candidate d ≡ false → evict_stale_circuits d ≡ d
unfolding evict_stale_circuits delete_until_fits sort_by
evict_keeps d h =
    rw (filter-nil is_idle d (idle-none d h)) (rw (filter-nil is_candidate d h) (ground arith))
  where
    idle-none : (d : Circuits) → any is_candidate d ≡ false → any is_idle d ≡ false
    idle-none [] h = refl
    idle-none (e ∷ d) h = ground (arith, idle-none d)

-- With no closed circuit among them nothing is evicted: a further model grows the registry by one
-- entry whatever its size.
pub ensure_circuit_unbounded :
    (d : Circuits) (id : Text)
    → any is_candidate d ≡ false
    → contains d id ≡ false
    → length (ensure_circuit d id).0 ≡ length d + 1
unfolding ensure_circuit make_room contains
ensure_circuit_unbounded d id h n = ground (arith, evict_keeps d h, length-put d id new_circuit)
