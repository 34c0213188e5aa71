-- ===== src/Subrun/Visibility.antt =====
-- Which runs a session may see: `evaluate_visibility`.
use ai_agent_starter_kit.Subrun.{SubrunSpec, Lane}
use ai_agent_starter_kit.Subrun.Tree.{
  Reach, collect_visible_sessions, IsReachSet, collect_visible_sessions_exact,
}
use ai_agent_starter_kit.Common.{
  ◌≡◌, refl, ap, ◌↔◌, ◌⊎◌, inl, inr, Bool, true, false, ◌||◌, Option, none, some, List, [], arith,
  if◌then◌else◌, or_else, is_empty, Text, codes, text_eq, elem, strip, normalize, or_default,
}
use ai_agent_starter_kit.Common.Dict.{get}

pub data Scope : Type 0 where
  self tree agent all_runs : Scope

pub data Reason : Type 0 where
  run_not_found missing_requester_session scope_all scope_agent_single_agent_mode : Reason
  scope_self_match scope_self_mismatch scope_tree_match scope_tree_mismatch : Reason

-- `_normalize_visibility_scope`; an unknown scope is the tree.
unfoldable pub normalize_visibility_scope : Option Text → Scope
unfolding normalize or_default text_eq
normalize_visibility_scope scope =
    let s = normalize (or_default (codes "tree") scope) in
    if text_eq s (codes "self")
    then self
    else if text_eq s (codes "agent")
    then agent
    else if text_eq s (codes "all")
    then all_runs
    else tree

-- `_collect_visible_sessions`, whose walk always ends.
unfoldable pub visible_sessions : Lane → Text → List Text
unfolding collect_visible_sessions
visible_sessions l requester = or_else [] (collect_visible_sessions l.children_by_session requester)

-- The decision by scope, for a known run and a requester that is not blank.
unfoldable pub decide : Lane → SubrunSpec → Text → Scope → Bool × Reason
unfolding text_eq elem visible_sessions
decide l spec requester all_runs = (true, scope_all)
decide l spec requester agent = (true, scope_agent_single_agent_mode)
decide l spec requester self =
    let allowed =
      text_eq requester spec.parent_session_id || text_eq requester spec.child_session_id in
    (allowed, (if allowed then scope_self_match else scope_self_mismatch))
decide l spec requester tree =
    let visible = visible_sessions l requester in
    let allowed = elem spec.parent_session_id visible || elem spec.child_session_id visible in
    (allowed, (if allowed then scope_tree_match else scope_tree_mismatch))

unfoldable pub evaluate_visibility : Lane → Text → Text → Option Text → Bool × Reason
unfolding get strip decide normalize_visibility_scope
evaluate_visibility l run_id requester_session_id visibility_scope =
    let requester = strip requester_session_id in
    elim (get l.run_specs run_id) [
      | none ↦ (false, run_not_found)
      | some spec ↦
          if is_empty requester
          then (false, missing_requester_session)
          else decide l spec requester (normalize_visibility_scope visibility_scope)
    ]

visible_sessions-IsReachSet :
    (l : Lane) (requester : Text)
    → IsReachSet l.children_by_session requester (visible_sessions l requester)
visible_sessions-IsReachSet l requester =
    let (found, e, r) = collect_visible_sessions_exact l.children_by_session requester in
    unfold visible_sessions in rw e r

or_iff : {P Q : Type 0} (a b : Bool) → (a ≡ true) ↔ P → (b ≡ true) ↔ Q → ((a || b) ≡ true) ↔ (P ⊎ Q)
or_iff true b p q = (λ h. inl (p.0 refl), λ h. refl)
or_iff false true p q = (λ h. inr (q.0 refl), λ h. refl)
or_iff {P} {Q} false false p q = (λ h. absurd (cc), neither)
  where
    neither : P ⊎ Q → false ≡ true
    neither (inl x) = p.1 x
    neither (inr y) = q.1 y

-- In the tree scope, which is also the scope of an unknown name, a session that is not blank sees a
-- known run exactly when the run's parent session or its child session can be reached from the
-- requester's session along the child sessions.
pub tree_visibility_exact :
    (l : Lane) (run_id requester : Text) (scope : Option Text) (spec : SubrunSpec)
    → get l.run_specs run_id ≡ some spec
    → is_empty (strip requester) ≡ false
    → normalize_visibility_scope scope ≡ tree
    → ((evaluate_visibility l run_id requester scope).0 ≡ true) ↔ (
        Reach l.children_by_session (strip requester) spec.parent_session_id
        ⊎ Reach l.children_by_session (strip requester) spec.child_session_id)
tree_visibility_exact l run_id requester scope spec g n t = rw decided (
    unfold decide in
    or_iff _ _ (visible_sessions-IsReachSet l (strip requester) spec.parent_session_id)
      (visible_sessions-IsReachSet l (strip requester) spec.child_session_id))
  where
    decided : evaluate_visibility l run_id requester scope ≡ decide l spec (strip requester) tree
    decided = unfold evaluate_visibility in ground (arith, ap (decide l spec (strip requester)) t)
