-- ===== src/RunState/Lifecycle.antt =====
-- The run state over the lifecycle events of a run.
use ai_agent_starter_kit.RunState.{
  resolve_normalized, resolve_run_state_from_stage, is_allowed_run_state_transition, stage_event,
  RunMeta, previous_state, transition_to, on_lifecycle, run_lifecycle,
}
use ai_agent_starter_kit.RunState.Contract.{
  State, received, failed, name, rank, may_follow, is_allowed-eq-may_follow, IsKnown,
  resolve-IsKnown,
}
use ai_agent_starter_kit.Common.{
  ℕ, ◌+◌, ◌≤◌, ◌<◌, ◌≡◌, refl, ap, ◌∙◌, inl, inr, Bool, true, false, ◌||◌, Option, none, some, List,
  [], ◌∷◌, ◌++◌, arith, ◌==◌, if◌then◌else◌, Bool-cases, is_empty, Text, codes, strip, ends_with,
  normalize, or_default,
}

-- The stored text of a state that may be missing.
abbrev pub stored : Option State → Option Text
stored none = none
stored (some s) = some (name s)

-- How far a run has come; a run with no state stands at 0.
abbrev pub progress : Option State → ℕ
progress none = 0
progress (some s) = rank s + 1

abbrev pub has_ended : Option State → Bool
has_ended none = false
has_ended (some s) = rank s == 7

-- The contract with a state that may be missing.
abbrev pub may_enter : Option State → State → Bool
may_enter none t = true
may_enter (some s) t = may_follow s t

normalize-name : (s : State) → normalize (name s) ≡ name s
unfolding normalize
normalize-name received = refl
normalize-name _ = refl

not-blank-name : (s : State) → is_empty (strip (name s)) ≡ false
unfolding strip
not-blank-name received = refl
not-blank-name _ = refl

allowed-none : (t : State) → is_allowed_run_state_transition none (name t) ≡ true
unfolding is_allowed_run_state_transition or_default
allowed-none received = refl
allowed-none _ = refl

previous_state-stored :
    (r : RunMeta) (o : Option State) → r.run_state ≡ stored o → previous_state r ≡ stored o
unfolding previous_state
previous_state-stored r none e = rw (e, previous_state)
previous_state-stored r (some s) e =
    rw (e, previous_state) (rw (not-blank-name s, normalize-name s))

allowed-eq-may_enter :
    (o : Option State) (t : State)
    → is_allowed_run_state_transition (stored o) (name t) ≡ may_enter o t
allowed-eq-may_enter none t = allowed-none t
allowed-eq-may_enter (some s) t =
    is_allowed-eq-may_follow s t (name s) (name t) (normalize-name s) (normalize-name t)

-- The state that a target leads to.
abbrev enter : Option State → State → Option State
enter o t = if may_enter o t then some t else o

transition_to-stored :
    (hard : Bool) (stage : Text) (t : State) (r : RunMeta) (o : Option State)
    → r.run_state ≡ stored o
    → (transition_to hard stage (name t) r).run_state ≡ stored (enter o t)
unfolding transition_to
transition_to-stored hard stage t r o e = ground (
  arith,
  previous_state-stored r o e,
  allowed-eq-may_enter o t,
  ap is_allowed_run_state_transition (previous_state-stored r o e),
)

enter-progress : (o : Option State) (t : State) → progress o ≤ progress (enter o t)
enter-progress none t = ground arith
enter-progress (some s) t = ground arith

enter-ended : (o : Option State) (t : State) → has_ended o ≡ true → enter o t ≡ o
enter-ended none t h = cc
enter-ended (some s) t h = ground arith

-- One lifecycle event, on the abstract state.
abbrev Advances : Option State → Option State → Type 0
Advances o o' = (progress o ≤ progress o') × (has_ended o ≡ true → o' ≡ o)

on_lifecycle-Advances :
    (hard : Bool) (stage : Text) (r : RunMeta) (o : Option State)
    → r.run_state ≡ stored o
    → (o' : Option State) × ((on_lifecycle hard stage r).run_state ≡ stored o') × Advances o o'
on_lifecycle-Advances hard stage r o e = elim (Bool-cases (is_empty (strip stage))) [
  | inl b ↦ (o, unfold on_lifecycle in rw (b, on_lifecycle) e, (omega arith, λ _. refl))
  | inr b ↦
      target (resolve_run_state_from_stage (strip stage)) refl (resolve-IsKnown (strip stage)) b
]
  where
    staged : RunMeta
    staged = record r { events = r.events ++ stage_event (strip stage) ∷ [] }

    target :
        (x : Option Text)
        → resolve_run_state_from_stage (strip stage) ≡ x
        → IsKnown x
        → is_empty (strip stage) ≡ false
        → (o' : Option State) × ((on_lifecycle hard stage r).run_state ≡ stored o') × Advances o o'
    target none q k b = (
      o,
      unfold on_lifecycle in rw (b, on_lifecycle) (rw (q, on_lifecycle) e),
      (omega arith, λ _. refl),
    )
    target (some x) q (t, p) b = (
      enter o t,
      unfold on_lifecycle in
          rw (b, on_lifecycle)
            (rw (q, on_lifecycle) (rw p (transition_to-stored hard (strip stage) t staged o e))),
      (enter-progress o t, enter-ended o t),
    )

pub run_lifecycle-advances :
    (hard : Bool) (stages : List Text) (r : RunMeta) (o : Option State)
    → r.run_state ≡ stored o
    → (o' : Option State) × ((run_lifecycle hard stages r).run_state ≡ stored o')
      × (progress o ≤ progress o')
      × (has_ended o ≡ true → o' ≡ o)
unfolding run_lifecycle
run_lifecycle-advances hard [] r o e = (o, e, omega arith, λ _. refl)
run_lifecycle-advances hard (s ∷ ss) r o e =
    let (o1, e1, a1) = on_lifecycle-Advances hard s r o e in
    let (o2, e2, a2, b2) = run_lifecycle-advances hard ss (on_lifecycle hard s r) o1 e1 in
    (o2, e2, omega arith, λ h. b2 (ap has_ended (a1.1 h) ∙ h) ∙ a1.1 h)

failed-not-blank :
    (s : Text)
    → (ends_with s (codes "_failed") || ends_with s (codes "_rejected")) ≡ true
    → is_empty s ≡ false
unfolding ends_with
failed-not-blank [] f = cc
failed-not-blank (c ∷ s) f = refl

resolve-failed :
    (stage : Text)
    → ends_with (normalize stage) (codes "_cancelled") ≡ false
    → (ends_with (normalize stage) (codes "_failed")
        || ends_with (normalize stage) (codes "_rejected"))
      ≡ true
    → resolve_run_state_from_stage stage ≡ some (name failed)
unfolding resolve_run_state_from_stage resolve_normalized
resolve-failed stage c f = rw (failed-not-blank (normalize stage) f) (rw c (rw f))

-- A stage whose name ends in _failed or _rejected, also one of a step that the run survives, ends a
-- run that has not ended: whatever stages follow, completion among them, the stored state stays
-- `failed`.
pub failed_suffix_is_final :
    (hard : Bool) (stage : Text) (stages : List Text) (r : RunMeta) (s : State)
    → r.run_state ≡ some (name s)
    → rank s < 7
    → (ends_with (normalize (strip stage)) (codes "_failed")
        || ends_with (normalize (strip stage)) (codes "_rejected"))
      ≡ true
    → ends_with (normalize (strip stage)) (codes "_cancelled") ≡ false
    → is_empty (strip stage) ≡ false
    → (run_lifecycle hard stages (on_lifecycle hard stage r)).run_state ≡ some (codes "failed")
unfolding on_lifecycle
failed_suffix_is_final hard stage stages r s e n f c b =
    let x = run_lifecycle-advances hard stages (on_lifecycle hard stage r) (some failed) ended in
    x.1 ∙ ap stored (x.3 refl)
  where
    staged : RunMeta
    staged = record r { events = r.events ++ stage_event (strip stage) ∷ [] }

    ended : (on_lifecycle hard stage r).run_state ≡ some (name failed)
    ended =
        rw (b, on_lifecycle)
          (rw (resolve-failed (strip stage) c f, on_lifecycle)
            (transition_to-stored hard (strip stage) failed staged (some s) e ∙ ground arith))
