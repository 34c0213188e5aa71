-- ===== src/Subrun/Spawn.antt =====
-- What an accepted request to `spawn` leaves in the lane.
use ai_agent_starter_kit.Subrun.{
  accepted, SubrunSpec, live, Snapshot, Lane, can_evict_run, set_status, SpawnRequest, ok,
  spawn_depth, new_spec, register, launch, spawn,
}
use ai_agent_starter_kit.Subrun.Retention.{prune-keeps, unfinished, needed-not-evicted}
use ai_agent_starter_kit.Subrun.Depth.{spawn-ok}
use ai_agent_starter_kit.Common.{ℕ, ◌+◌, ◌≤◌, ◌≡◌, refl, ap, ◌∙◌, false, none, some, arith, Text}
use ai_agent_starter_kit.Common.Dict.{get, put, get-put_self}

not-evicted-accepted :
    (l : Lane) (id : Text) (now : ℕ)
    → get l.run_status id ≡ some (record { status = accepted; handover = none; updated_at = now })
    → can_evict_run l id ≡ false
not-evicted-accepted l id now g = needed-not-evicted l id (unfinished _ g refl)

set_status-accepted :
    (l : Lane) (now : ℕ) (id : Text)
    → (get (set_status l now id accepted none).run_status id
        ≡ some (record { status = accepted; handover = none; updated_at = now }))
      × (get (set_status l now id accepted none).run_specs id ≡ get l.run_specs id)
unfolding set_status
set_status-accepted l now id =
    let s : Snapshot = record { status = accepted; handover = none; updated_at = now } in
    let l' = record l { run_status = put l.run_status id s } in
    let g = get-put_self l.run_status id s in
    let k = prune-keeps l' id (not-evicted-accepted l' id now g) in (k.0 ∙ g, k.1)

launch_lem :
    (l : Lane) (now : ℕ) (spec : SubrunSpec)
    → (get (launch l now spec).run_specs spec.run_id ≡ some spec)
      × (get (launch l now spec).run_status spec.run_id
          ≡ some (record { status = accepted; handover = none; updated_at = now }))
      × (get (launch l now spec).run_tasks spec.run_id ≡ some live)
unfolding launch
launch_lem l now spec =
    let x = set_status-accepted (register l spec) now spec.run_id in
    (
      x.1 ∙ (unfold register in get-put_self l.run_specs spec.run_id spec),
      x.0,
      get-put_self _ spec.run_id live,
    )

-- A request that is accepted leaves a specification under its run id, with the status ACCEPTED and
-- a live task, even if the retention limits are reached; the specification stands one level below
-- the parent's, or at level 1 for a parent that is no run, within the depth limit, and it carries
-- the parent's root, or the parent request as its root.
pub spawn_registers :
    (l l' : Lane) (now : ℕ) (q : SpawnRequest)
    → spawn l now q ≡ ok l'
    → (spec : SubrunSpec) × (get l'.run_specs q.run_id ≡ some spec)
      × (get l'.run_status q.run_id
          ≡ some (record { status = accepted; handover = none; updated_at = now }))
      × (get l'.run_tasks q.run_id ≡ some live)
      × (spec.depth ≤ l.config.max_spawn_depth)
      × (get l.run_specs q.parent_request_id ≡ none
          → (spec.depth ≡ 1) × (spec.root_run_id ≡ q.parent_request_id))
      × ((parent : SubrunSpec)
          → get l.run_specs q.parent_request_id ≡ some parent
          → (spec.depth ≡ parent.depth + 1)
            × (spec.root_run_id ≡ parent.root_run_id)
            × (spec.parent_run_id ≡ some parent.run_id))
spawn_registers l l' now q h =
    let (mode, m, e, d, w, g) = spawn-ok l l' now q h in
    let spec = new_spec l q mode in
    let x = launch_lem l now spec in
    unfold new_spec spawn_depth in
    (
      spec,
      ap (λ (z : Lane). get z.run_specs q.run_id) e ∙ x.0,
      ap (λ (z : Lane). get z.run_status q.run_id) e ∙ x.1,
      ap (λ (z : Lane). get z.run_tasks q.run_id) e ∙ x.2,
      d,
      λ n. (ground arith, ground arith),
      λ p n. (ground arith, ground arith, ground arith),
    )
