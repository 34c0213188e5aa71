-- ===== src/Subrun/Retention.antt =====
-- What the retention limits may evict: `_can_evict_run` and `_prune_retained_statuses`.
use ai_agent_starter_kit.Subrun.{
  is_terminal, SubrunSpec, Snapshot, Lane, set_of, is_active_run, child_blocks, can_evict_run,
  evict_spec, evict_retained_run, evict_all, terminal_entries, older, evict_count, evicted_runs,
  prune_retained_statuses,
}
use ai_agent_starter_kit.Common.{
  ◌≡◌, refl, ap, ◌∙◌, inl, inr, Bool, true, false, ◌||◌, Option, none, some, List, [], ◌∷◌, arith,
  Bool-cases, filter, any, All, All-take, Text, text_eq, text_eq_iff, elem,
}
use ai_agent_starter_kit.Common.Dict.{Dict, get, keys, get-remove}
use ai_agent_starter_kit.Common.Sort.{sort_with, All-sort_with}

-- The candidates that the pruning sorts.
candidates : Lane → Dict Snapshot
candidates l = filter (λ e. can_evict_run l e.0) (terminal_entries l.run_status)

All-candidates :
    (l : Lane) (d : Dict Snapshot)
    → All (λ e. can_evict_run l e.0 ≡ true) (filter (λ e. can_evict_run l e.0) d)
All-candidates l [] = tt
All-candidates l (e ∷ d) = elim (Bool-cases (can_evict_run l e.0)) [
  | inl y ↦ rw y (y, All-candidates l d)
  | inr n ↦ rw n (All-candidates l d)
]

All-keys :
    (l : Lane) (d : Dict Snapshot)
    → All (λ e. can_evict_run l e.0 ≡ true) d
    → All (λ id. can_evict_run l id ≡ true) (keys d)
All-keys l [] h = tt
All-keys l (e ∷ d) h = (h.0, All-keys l d h.1)

evicted_runs-All : (l : Lane) → All (λ id. can_evict_run l id ≡ true) (evicted_runs l)
unfolding evicted_runs candidates
evicted_runs-All l = All-keys l _ (
    All-take _ (evict_count l) (sort_with older (candidates l))
      (All-sort_with older _ (candidates l) (All-candidates l (terminal_entries l.run_status))))

not-elem_of_All :
    (l : Lane) (k : Text) (ids : List Text)
    → All (λ id. can_evict_run l id ≡ true) ids
    → can_evict_run l k ≡ false
    → elem k ids ≡ false
unfolding elem
not-elem_of_All l k [] h n = refl
not-elem_of_All l k (id ∷ ids) h n = elim (Bool-cases (text_eq k id)) [
  | inl e ↦ cc (h.0, n, ap (can_evict_run l) ((text_eq_iff k id).0 e))
  | inr e ↦ rw e (not-elem_of_All l k ids h.1 n)
]

get-evict_spec :
    (l : Lane) (id k : Text) (o : Option SubrunSpec)
    → text_eq k id ≡ false
    → (get (evict_spec l id o).run_status k ≡ get l.run_status k)
      × (get (evict_spec l id o).run_specs k ≡ get l.run_specs k)
unfolding evict_spec
get-evict_spec l id k none n = (refl, refl)
get-evict_spec l id k (some spec) n =
    (refl, ground (arith, get-remove l.run_specs id k, text_eq_iff id k, text_eq_iff k id))

get-evict_retained_run :
    (l : Lane) (id k : Text)
    → text_eq k id ≡ false
    → (get (evict_retained_run l id).run_status k ≡ get l.run_status k)
      × (get (evict_retained_run l id).run_specs k ≡ get l.run_specs k)
unfolding evict_retained_run
get-evict_retained_run l id k n =
    let e = get-evict_spec _ id k (get l.run_specs id) n in
    let a = get-remove l.run_status id k in
    (e.0 ∙ ground (arith, a, text_eq_iff id k, text_eq_iff k id), e.1)

get-evict_all :
    (l : Lane) (ids : List Text) (k : Text)
    → elem k ids ≡ false
    → (get (evict_all l ids).run_status k ≡ get l.run_status k)
      × (get (evict_all l ids).run_specs k ≡ get l.run_specs k)
unfolding evict_all elem
get-evict_all l [] k n = (refl, refl)
get-evict_all l (id ∷ ids) k n =
    let h = get-evict_retained_run l id k (ground arith) in
    let r = get-evict_all (evict_retained_run l id) ids k (ground arith) in (r.0 ∙ h.0, r.1 ∙ h.1)

-- Pruning keeps the status and the specification of every run that may not be evicted.
pub prune-keeps :
    (l : Lane) (k : Text)
    → can_evict_run l k ≡ false
    → (get (prune_retained_statuses l).run_status k ≡ get l.run_status k)
      × (get (prune_retained_statuses l).run_specs k ≡ get l.run_specs k)
unfolding prune_retained_statuses
prune-keeps l k n =
    get-evict_all l (evicted_runs l) k (not-elem_of_All l k (evicted_runs l) (evicted_runs-All l) n)

-- A run that is still needed: its task is active, or its status is not terminal, or one of its
-- children is active or has a status that is not terminal.
pub data IsNeeded (l : Lane) (k : Text) : Type 0 where
  active : is_active_run l k ≡ true → IsNeeded l k
  unfinished :
      (s : Snapshot) → get l.run_status k ≡ some s → is_terminal s.status ≡ false → IsNeeded l k
  child_active :
      (child : Text)
      → elem child (set_of l.children_by_parent k) ≡ true
      → is_active_run l child ≡ true
      → IsNeeded l k
  child_unfinished :
      (child : Text) (s : Snapshot)
      → elem child (set_of l.children_by_parent k) ≡ true
      → get l.run_status child ≡ some s
      → is_terminal s.status ≡ false
      → IsNeeded l k

any_of_elem :
    (p : Text → Bool) (k : Text) (ids : List Text)
    → elem k ids ≡ true
    → p k ≡ true
    → any p ids ≡ true
unfolding elem
any_of_elem p k [] e h = cc
any_of_elem p k (id ∷ ids) e h = elim (Bool-cases (text_eq k id)) [
  | inl q ↦ let r : p id ≡ true = cc (h, ap p ((text_eq_iff k id).0 q)) in rw r
  | inr q ↦ ground (arith, any_of_elem p k ids)
]

abbrev blocks : Lane → Text → Bool
blocks l child = is_active_run l child || child_blocks (get l.run_status child)

pub needed-not-evicted : (l : Lane) (k : Text) → IsNeeded l k → can_evict_run l k ≡ false
unfolding can_evict_run
needed-not-evicted l k (active h) = ground arith
needed-not-evicted l k (unfinished s g n) = ground arith
needed-not-evicted l k (child_active child e h) =
    ground (arith, any_of_elem (blocks l) child (set_of l.children_by_parent k) e (ground arith))
needed-not-evicted l k (child_unfinished child s e g n) =
    ground (arith, any_of_elem (blocks l) child (set_of l.children_by_parent k) e (ground arith))

-- Pruning never drops a run that is still needed: its status and its specification stay.
pub prune_keeps_needed :
    (l : Lane) (k : Text)
    → IsNeeded l k
    → (get (prune_retained_statuses l).run_status k ≡ get l.run_status k)
      × (get (prune_retained_statuses l).run_specs k ≡ get l.run_specs k)
prune_keeps_needed l k h = prune-keeps l k (needed-not-evicted l k h)
