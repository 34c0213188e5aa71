-- ===== src/Subrun/Depth.antt =====
-- The limits on the depth and on the children of a run, over every life of a lane.
use ai_agent_starter_kit.Subrun.{
  RunStatus, accepted, running, SubrunSpec, Handover, LaneConfig, Lane, set_of, add_to,
  discard_from, unlink_parent, evict_spec, evict_retained_run, evict_all, evicted_runs,
  prune_retained_statuses, set_status, SpawnRequest, Spawned, ok, err, normalize_spawn_mode,
  selected_agent, spawn_depth, new_spec, register, launch, spawn, Outcome, outcome_status,
  outcome_text, outcome_notes, build_handover_contract, start_run, finish_run,
}
use ai_agent_starter_kit.Common.{
  ℕ, ◌+◌, ◌≤◌, ◌<◌, ◌≡◌, refl, ap, inl, inr, Bool, true, false, Option, none, some, List, [], ◌∷◌,
  arith, if◌then◌else◌, Option-cases, length, is_empty, All, Text, elem, lower, add_member, discard,
  length-discard-le,
}
use ai_agent_starter_kit.Common.Dict.{Dict, get, put, remove, All-put, All-remove, All-get}

-- What the lane's owner and its tasks make it do.
pub data Event : Type 0 where
  request : ℕ → SpawnRequest → Event
  start : ℕ → Text → Event
  finish : ℕ → Text → Outcome → Event

-- A refused request raises, and leaves the lane as it was.
abbrev pub lane_after : Lane → Spawned → Lane
lane_after l (ok l') = l'
lane_after l (err e) = l

unfoldable pub step : Lane → Event → Lane
step l (request now q) = lane_after l (spawn l now q)
step l (start now id) = start_run l now id
step l (finish now id outcome) = finish_run l now id outcome

unfoldable pub run : Lane → List Event → Lane
unfolding step
run l [] = l
run l (e ∷ es) = run (step l e) es

-- The limits, as a property of the two dictionaries.
abbrev pub HasDepths : ℕ → Dict SubrunSpec → Type 0
HasDepths n = All (λ e. (1 ≤ e.1.depth) × (e.1.depth ≤ n))

abbrev pub HasWidths : ℕ → Dict (List Text) → Type 0
HasWidths n = All (λ e. length e.1 ≤ n)

abbrev pub IsBounded : LaneConfig → Lane → Type 0
IsBounded cfg l =
    (l.config ≡ cfg)
    × HasDepths cfg.max_spawn_depth l.run_specs
    × HasWidths cfg.max_children_per_parent l.children_by_parent

discard_from-HasWidths :
    (n : ℕ) (d : Dict (List Text)) (k v : Text) → HasWidths n d → HasWidths n (discard_from d k v)
unfolding discard_from
discard_from-HasWidths n d k v h = elim (Option-cases (get d k)) [
  | inl e ↦ rw (e, discard_from) h
  | inr (ts, e) ↦
      let p : length ts ≤ n = All-get (λ x. length x.1 ≤ n) d k ts h e in
      let r = All-remove (λ x. length x.1 ≤ n) d k h in
      let q : length (discard v ts) ≤ n = omega (arith, p, length-discard-le v ts) in
      rw (e, discard_from)
        (if_HasWidths n (is_empty (discard v ts)) (remove d k) (put d k (discard v ts)) r
          (All-put (λ x. length x.1 ≤ n) d k (discard v ts) h q))
]
  where
    if_HasWidths :
        (n : ℕ) (b : Bool) (x y : Dict (List Text))
        → HasWidths n x
        → HasWidths n y
        → HasWidths n (if b then x else y)
    if_HasWidths n true x y hx hy = hx
    if_HasWidths n false x y hx hy = hy

module _ (cfg : LaneConfig) where
  unlink_parent-HasWidths :
      (n : ℕ) (d : Dict (List Text)) (p : Option Text) (id : Text)
      → HasWidths n d
      → HasWidths n (unlink_parent d p id)
  unfolding unlink_parent
  unlink_parent-HasWidths n d none id h = h
  unlink_parent-HasWidths n d (some []) id h = h
  unlink_parent-HasWidths n d (some (c ∷ s)) id h = discard_from-HasWidths n d (c ∷ s) id h

  evict_spec-IsBounded :
      (l : Lane) (id : Text) (o : Option SubrunSpec)
      → IsBounded cfg l
      → IsBounded cfg (evict_spec l id o)
  unfolding evict_spec
  evict_spec-IsBounded l id none h = h
  evict_spec-IsBounded l id (some spec) h = (
    h.0,
    All-remove (λ e. (1 ≤ e.1.depth) × (e.1.depth ≤ cfg.max_spawn_depth)) l.run_specs id h.1,
    unlink_parent-HasWidths cfg.max_children_per_parent l.children_by_parent
        (get l.parent_by_child id) id h.2,
  )

  evict_retained_run-IsBounded :
      (l : Lane) (id : Text) → IsBounded cfg l → IsBounded cfg (evict_retained_run l id)
  unfolding evict_retained_run
  evict_retained_run-IsBounded l id h =
      evict_spec-IsBounded _ id (get l.run_specs id) (h.0, h.1, h.2)

  evict_all-IsBounded :
      (l : Lane) (ids : List Text) → IsBounded cfg l → IsBounded cfg (evict_all l ids)
  unfolding evict_all
  evict_all-IsBounded l [] h = h
  evict_all-IsBounded l (id ∷ ids) h =
      evict_all-IsBounded (evict_retained_run l id) ids (evict_retained_run-IsBounded l id h)

  prune-IsBounded : (l : Lane) → IsBounded cfg l → IsBounded cfg (prune_retained_statuses l)
  unfolding prune_retained_statuses
  prune-IsBounded l h = evict_all-IsBounded l (evicted_runs l) h

  set_status-IsBounded :
      (l : Lane) (now : ℕ) (id : Text) (s : RunStatus) (o : Option Handover)
      → IsBounded cfg l
      → IsBounded cfg (set_status l now id s o)
  unfolding set_status
  set_status-IsBounded l now id s o h = prune-IsBounded _ (h.0, h.1, h.2)

  launch-IsBounded :
      (l : Lane) (now : ℕ) (spec : SubrunSpec)
      → IsBounded cfg l
      → 1 ≤ spec.depth
      → spec.depth ≤ cfg.max_spawn_depth
      → length (set_of l.children_by_parent spec.parent_request_id) < cfg.max_children_per_parent
      → IsBounded cfg (launch l now spec)
  unfolding launch
  launch-IsBounded l now spec h a b c =
      let h' = set_status-IsBounded (register l spec) now spec.run_id accepted none registered in
      (h'.0, h'.1, h'.2)
    where
      wide : (v : Text) (ts : List Text) → length (add_member v ts) ≤ length ts + 1
      wide v ts = unfold add_member in ground arith

      registered : IsBounded cfg (register l spec)
      registered =
          unfold register add_to in
          (
            h.0,
            All-put (λ e. (1 ≤ e.1.depth) × (e.1.depth ≤ cfg.max_spawn_depth)) l.run_specs
                spec.run_id spec h.1 (a, b),
            All-put (λ e. length e.1 ≤ cfg.max_children_per_parent) l.children_by_parent
                spec.parent_request_id _ h.2
                (omega
                  (arith, wide spec.run_id (set_of l.children_by_parent spec.parent_request_id))),
          )

-- What a successful `spawn` has checked, and what it has done.
pub spawn-ok :
    (l l' : Lane) (now : ℕ) (q : SpawnRequest)
    → spawn l now q ≡ ok l'
    → (mode : Text) × (normalize_spawn_mode q.mode ≡ some mode)
      × (l' ≡ launch l now (new_spec l q mode))
      × (spawn_depth l q ≤ l.config.max_spawn_depth)
      × (length (set_of l.children_by_parent q.parent_request_id)
          < l.config.max_children_per_parent)
      × (l.config.leaf_spawn_depth_guard_enabled ≡ true
          → elem (lower (selected_agent q)) l.config.orchestrator_agent_ids ≡ true)
unfolding spawn
spawn-ok l l' now q h = ground arith

spawn_depth-pos : (l : Lane) (q : SpawnRequest) → 1 ≤ spawn_depth l q
unfolding spawn_depth
spawn_depth-pos l q = ground arith

spawn-IsBounded :
    (cfg : LaneConfig) (l : Lane) (now : ℕ) (q : SpawnRequest)
    → IsBounded cfg l
    → IsBounded cfg (lane_after l (spawn l now q))
spawn-IsBounded cfg l now q h = go (spawn l now q) refl
  where
    go : (s : Spawned) → spawn l now q ≡ s → IsBounded cfg (lane_after l s)
    go (err e) p = h
    go (ok l') p =
        let (mode, m, e, d, w, g) = spawn-ok l l' now q p in
        rw e (
          launch-IsBounded cfg l now (new_spec l q mode) h (unfold new_spec in spawn_depth-pos l q)
            (unfold new_spec in rw (ap (λ (c : LaneConfig). c.max_spawn_depth) h.0) at d)
            (unfold new_spec in rw (ap (λ (c : LaneConfig). c.max_children_per_parent) h.0) at w))

step-IsBounded :
    (cfg : LaneConfig) (l : Lane) (e : Event) → IsBounded cfg l → IsBounded cfg (step l e)
unfolding step start_run finish_run
step-IsBounded cfg l (request now q) h = spawn-IsBounded cfg l now q h
step-IsBounded cfg l (start now id) h = set_status-IsBounded cfg l now id running none h
step-IsBounded cfg l (finish now id outcome) h =
    let status = outcome_status outcome in
    let o = some (build_handover_contract status (outcome_text outcome) (outcome_notes outcome)) in
    let b = set_status-IsBounded cfg l now id status o h in prune-IsBounded cfg _ (b.0, b.1, b.2)

-- Whatever is spawned, started and finished, in whatever order, every specification that the lane
-- holds has a depth from 1 to the limit, and no parent has more children than the limit, if this
-- holds at the beginning.
pub run-IsBounded :
    (cfg : LaneConfig) (l : Lane) (es : List Event) → IsBounded cfg l → IsBounded cfg (run l es)
unfolding run
run-IsBounded cfg l [] h = h
run-IsBounded cfg l (e ∷ es) h = run-IsBounded cfg (step l e) es (step-IsBounded cfg l e h)
