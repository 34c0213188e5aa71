-- ===== src/RunState/Contract.antt =====
-- The transition contract on abstract states.
use ai_agent_starter_kit.RunState.{
  first_match, stage_tests, resolve_normalized, resolve_run_state_from_stage, allows,
  is_allowed_run_state_transition,
}
use ai_agent_starter_kit.Common.{
  ℕ, ◌≡◌, refl, Bool, true, false, ◌&&◌, Option, none, some, List, [], ◌∷◌, ltb, leb, if◌then◌else◌,
  is_empty, All, Text, codes, normalize, or_default,
}

pub data State : Type 0 where
  received queued planning tool_loop synthesis finalizing persisted : State
  completed failed cancelled : State

abbrev pub name : State → Text
name received = codes "received"
name queued = codes "queued"
name planning = codes "planning"
name tool_loop = codes "tool_loop"
name synthesis = codes "synthesis"
name finalizing = codes "finalizing"
name persisted = codes "persisted"
name completed = codes "completed"
name failed = codes "failed"
name cancelled = codes "cancelled"

-- How far a run has come; the three ends stand last.
abbrev pub rank : State → ℕ
rank received = 0
rank queued = 1
rank planning = 2
rank tool_loop = 3
rank synthesis = 4
rank finalizing = 5
rank persisted = 6
rank completed = 7
rank failed = 7
rank cancelled = 7

-- A run that has not ended moves on, or stays where it is; a run that has ended does not move.
abbrev pub may_follow : State → State → Bool
may_follow s t = ltb (rank s) 7 && leb (rank s) (rank t)

allows-names :
    (s t : State)
    → (if is_empty (name t)
        then false
        else (if is_empty (name s) then true else allows (name s) (name t)))
      ≡ may_follow s t
unfolding allows
allows-names received received = refl
allows-names received _ = refl
allows-names queued received = refl
allows-names queued _ = refl
allows-names planning received = refl
allows-names planning _ = refl
allows-names tool_loop received = refl
allows-names tool_loop _ = refl
allows-names synthesis received = refl
allows-names synthesis _ = refl
allows-names finalizing received = refl
allows-names finalizing _ = refl
allows-names persisted received = refl
allows-names persisted _ = refl
allows-names completed received = refl
allows-names completed _ = refl
allows-names failed received = refl
allows-names failed _ = refl
allows-names cancelled received = refl
allows-names cancelled _ = refl

or_default-some : (s : Text) → or_default [] (some s) ≡ s
unfolding or_default
or_default-some [] = refl
or_default-some (c ∷ s) = refl

pub is_allowed-eq-may_follow :
    (s t : State) (previous target : Text)
    → normalize previous ≡ name s
    → normalize target ≡ name t
    → is_allowed_run_state_transition (some previous) target ≡ may_follow s t
is_allowed-eq-may_follow s t previous target p q =
    unfold is_allowed_run_state_transition in rw (or_default-some previous, p, q) (allows-names s t)

abbrev pub IsKnown : Option Text → Type 0
IsKnown none = Unit
IsKnown (some target) = (s : State) × (target ≡ name s)

first_match-IsKnown :
    (tests : List (Bool × Text))
    → All (λ e. (s : State) × (e.1 ≡ name s)) tests
    → IsKnown (first_match tests)
unfolding first_match
first_match-IsKnown [] h = tt
first_match-IsKnown ((true, t) ∷ rest) h = h.0
first_match-IsKnown ((false, t) ∷ rest) h = first_match-IsKnown rest h.1

resolve_normalized-IsKnown : (s : Text) → IsKnown (resolve_normalized s)
unfolding resolve_normalized
resolve_normalized-IsKnown s = first_match-IsKnown (stage_tests s) (
  (cancelled, refl),
  (
    (failed, refl),
    (
      (completed, refl),
      (
        (received, refl),
        (
          (queued, refl),
          (
            (planning, refl),
            ((persisted, refl), ((tool_loop, refl), ((synthesis, refl), ((finalizing, refl), tt)))),
          ),
        ),
      ),
    ),
  ),
)

-- Every stage resolves to the name of a state, or to none.
pub resolve-IsKnown : (stage : Text) → IsKnown (resolve_run_state_from_stage stage)
unfolding resolve_run_state_from_stage
resolve-IsKnown stage =
    if_known (is_empty (normalize stage)) (resolve_normalized (normalize stage))
      (resolve_normalized-IsKnown (normalize stage))
  where
    if_known : (b : Bool) (y : Option Text) → IsKnown y → IsKnown (if b then none else y)
    if_known true y h = tt
    if_known false y h = h
