-- ===== src/Workflow/Ending.antt =====
-- When the execution of a workflow ends, and what its status then says.
use ai_agent_starter_kit.Workflow.{
  StepType, agent, connector, transform, condition, delay, WorkflowStepDef, WorkflowGraphDef,
  get_step, Output, value, branch, delayed_seconds, StepResult, WorkflowStatus, running, completed,
  failed, WorkflowExecutionState, World, execute_step, took_true_branch, is_success, is_error,
  resolve_next_step, store_result, start_state, conclude, execute_loop, execute,
}
use ai_agent_starter_kit.Common.{
  subst, ℕ, zero, suc, ◌≤◌, ◌<◌, ◌≡◌, refl, ap, ◌∙◌, ◌≢◌, ◌↔◌, ◌⊎◌, inl, inr, true, false, Option,
  none, some, List, [], ◌∷◌, arith, if◌then◌else◌, Bool-cases, All, Text, text_eq, text_eq_iff,
}
use ai_agent_starter_kit.Common.Dict.{Dict, get, get-put_self, All-put}

abbrev pub IsBelow : (Text → ℕ) → ℕ → Option Text → Type 0
IsBelow rank n none = Unit
IsBelow rank n (some j) = rank j < n

-- The edges of a step go down in the rank.
abbrev pub GoesDown : (Text → ℕ) → WorkflowStepDef → Type 0
GoesDown rank s =
    IsBelow rank (rank s.id) s.next_step
    × IsBelow rank (rank s.id) s.on_true
    × IsBelow rank (rank s.id) s.on_false

-- The graph has no cycle: every edge goes down in some rank.
abbrev pub IsRanked : List WorkflowStepDef → (Text → ℕ) → Type 0
IsRanked steps rank = All (GoesDown rank) steps

found-GoesDown :
    (steps : List WorkflowStepDef) (rank : Text → ℕ) (id : Text) (s : WorkflowStepDef)
    → IsRanked steps rank
    → get_step steps id ≡ some s
    → GoesDown rank s × (s.id ≡ id)
unfolding get_step
found-GoesDown [] rank id s h g = absurd (ground (arith, g))
found-GoesDown (t ∷ steps) rank id s h g = elim (Bool-cases (text_eq t.id id)) [
  | inl e ↦
      let q : t ≡ s = ground (arith, e, g) in
      subst (λ (x : WorkflowStepDef). GoesDown rank x × (x.id ≡ id)) q
        (h.0, (text_eq_iff t.id id).0 e)
  | inr e ↦ found-GoesDown steps rank id s h.1 (ground (arith, e, g))
]

abbrev pub HasNoError : Text × StepResult → Type 0
HasNoError e = is_error e.1.status ≡ false

-- Where a step with its result leads: a condition that succeeded to the step of its branch, any
-- other step to the next one; it leads to none at the end.
abbrev pub LeadsTo : WorkflowStepDef → StepResult → Option Text → Type 0
LeadsTo s r current = elim s.type as (λ _. Type 0) [
  | condition ↦
      ((is_success r.status ≡ true) × (r.output ≡ some (branch true)) × (current ≡ s.on_true))
      ⊎ ((is_success r.status ≡ true) × (r.output ≢ some (branch true)) × (current ≡ s.on_false))
      ⊎ ((is_success r.status ≡ false) × (current ≡ s.next_step))
  | _ ↦ current ≡ s.next_step
]

-- How the loop comes to a step, or to its end: it starts there, or a step of the graph that has a
-- result leads to it.
abbrev pub IsReached : WorkflowGraphDef → Dict StepResult → Option Text → Type 0
IsReached graph results current =
    (current ≡ some graph.entry_step_id)
    ⊎ ((s : WorkflowStepDef) × (r : StepResult) × (get_step graph.steps s.id ≡ some s)
        × (get results s.id ≡ some r)
        × LeadsTo s r current)

-- A step that failed, or one that the execution came to and that is not in the graph.
abbrev pub FailedAt : WorkflowGraphDef → Dict StepResult → Text → Type 0
FailedAt graph results id =
    ((r : StepResult) × (get results id ≡ some r) × (is_error r.status ≡ true))
    ⊎ ((get_step graph.steps id ≡ none) × IsReached graph results (some id))

abbrev pub IsTrueStatus : WorkflowGraphDef → Dict StepResult → WorkflowStatus → Type 0
IsTrueStatus graph results running = ⊥
IsTrueStatus graph results completed = All HasNoError results × IsReached graph results none
IsTrueStatus graph results failed = (id : Text) × FailedAt graph results id

abbrev pub HasEnded : WorkflowGraphDef → Option WorkflowExecutionState → Type 0
HasEnded graph none = ⊥
HasEnded graph (some state) =
    (state.current_step_id ≡ none) × IsTrueStatus graph state.step_results state.status

next_step-IsBelow :
    (rank : Text → ℕ) (s : WorkflowStepDef) (result : StepResult)
    → GoesDown rank s
    → IsBelow rank (rank s.id) (resolve_next_step s result)
unfolding resolve_next_step
next_step-IsBelow rank s result h = by_type s.type
  where
    by_type :
        (t : StepType)
        → IsBelow rank (rank s.id) (elim t as (λ _. Option Text) [
          | condition ↦
              if is_success result.status
              then (if took_true_branch result.output then s.on_true else s.on_false)
              else s.next_step
          | _ ↦ s.next_step
        ])
    by_type condition = elim (Bool-cases (is_success result.status)) [
      | inl e ↦ elim (Bool-cases (took_true_branch result.output)) [
        | inl b ↦ rw (e, b) (h.1)
        | inr b ↦ rw (e, b) (h.2)
      ]
      | inr e ↦ rw e (h.0)
    ]
    by_type agent = h.0
    by_type connector = h.0
    by_type transform = h.0
    by_type delay = h.0

took_true_branch_iff : (o : Option Output) → (took_true_branch o ≡ true) ↔ (o ≡ some (branch true))
took_true_branch_iff none = ground arith
took_true_branch_iff (some (branch b)) = ground arith
took_true_branch_iff (some (value t)) = ground arith
took_true_branch_iff (some (delayed_seconds n)) = ground arith

next_step-LeadsTo :
    (s : WorkflowStepDef) (result : StepResult) → LeadsTo s result (resolve_next_step s result)
unfolding resolve_next_step
next_step-LeadsTo s result = by_type s.type
  where
    leads : StepType → Option Text → Type 0
    leads t current = elim t as (λ _. Type 0) [
      | condition ↦
          ((is_success result.status ≡ true)
            × (result.output ≡ some (branch true))
            × (current ≡ s.on_true))
          ⊎ ((is_success result.status ≡ true)
              × (result.output ≢ some (branch true))
              × (current ≡ s.on_false))
          ⊎ ((is_success result.status ≡ false) × (current ≡ s.next_step))
      | _ ↦ current ≡ s.next_step
    ]

    by_type :
        (t : StepType)
        → leads t (elim t as (λ _. Option Text) [
          | condition ↦
              if is_success result.status
              then (if took_true_branch result.output then s.on_true else s.on_false)
              else s.next_step
          | _ ↦ s.next_step
        ])
    by_type condition = elim (Bool-cases (is_success result.status)) [
      | inl e ↦ elim (Bool-cases (took_true_branch result.output)) [
        | inl b ↦ rw (e, b) (inl (refl, (took_true_branch_iff result.output).0 b, refl))
        | inr b ↦
            rw (e, b)
              (inr (
                inl (refl, λ q. ground (arith, b, (took_true_branch_iff result.output).1 q), refl)))
      ]
      | inr e ↦ rw e (inr (inr (refl, refl)))
    ]
    by_type agent = refl
    by_type connector = refl
    by_type transform = refl
    by_type delay = refl

stored-HasNoError :
    (s : WorkflowStepDef) (result : StepResult) (state : WorkflowExecutionState)
    → is_error result.status ≡ false
    → All HasNoError state.step_results
    → All HasNoError (store_result s result state).step_results
unfolding store_result
stored-HasNoError s result state e h = All-put HasNoError state.step_results s.id result h e

-- A visit of a step, in front of the rest of the loop.
visit-HasEnded :
    (graph : WorkflowGraphDef) (id : Text) (state : WorkflowExecutionState)
    (execute_it : WorkflowStepDef → StepResult)
    (rest : Option Text → WorkflowExecutionState → Option WorkflowExecutionState)
    → IsReached graph state.step_results (some id)
    → ((s : WorkflowStepDef)
        → get_step graph.steps id ≡ some s
        → is_error (execute_it s).status ≡ false
        → HasEnded graph
            (rest (resolve_next_step s (execute_it s)) (store_result s (execute_it s) state)))
    → (o : Option WorkflowStepDef) → get_step graph.steps id ≡ o
    → HasEnded graph (elim o as (λ _. Option WorkflowExecutionState) [
      | none ↦ some (conclude (record state { status = failed }))
      | some s ↦
          let result = execute_it s in
          let stored = store_result s result state in
          if is_error result.status
          then some (conclude (record stored { status = failed }))
          else rest (resolve_next_step s result) stored
    ])
visit-HasEnded graph id state execute_it rest c k none e = (refl, (id, inr (e, c)))
visit-HasEnded graph id state execute_it rest c k (some s) e =
    elim (Bool-cases (is_error (execute_it s).status)) [
      | inl x ↦ rw x (
        refl,
        (
          s.id,
          inl (
            execute_it s,
            unfold store_result in get-put_self state.step_results s.id (execute_it s),
            x,
          ),
        ),
      )
      | inr x ↦ rw x (k s e x)
    ]

-- The step behind a visit is reached.
stored-IsReached :
    (graph : WorkflowGraphDef) (id : Text) (s : WorkflowStepDef) (result : StepResult)
    (state : WorkflowExecutionState)
    → get_step graph.steps id ≡ some s
    → s.id ≡ id
    → IsReached graph (store_result s result state).step_results (resolve_next_step s result)
unfolding store_result
stored-IsReached graph id s result state g same = inr (
  s,
  result,
  ap (get_step graph.steps) same ∙ g,
  get-put_self state.step_results s.id result,
  next_step-LeadsTo s result,
)

loop-HasEnded :
    (world : World) (graph : WorkflowGraphDef) (rank : Text → ℕ) (fuel n : ℕ)
    (current : Option Text) (state : WorkflowExecutionState)
    → IsRanked graph.steps rank
    → IsBelow rank fuel current
    → state.status ≡ running
    → All HasNoError state.step_results
    → IsReached graph state.step_results current
    → HasEnded graph (execute_loop world graph.steps fuel n current state)
unfolding execute_loop
loop-HasEnded world graph rank fuel n none state k l r h c = rw r (refl, (h, c))
loop-HasEnded world graph rank zero n (some id) state k l r h c = absurd (omega (arith, l))
loop-HasEnded world graph rank (suc fuel) n (some id) state k l r h c =
    let entered : WorkflowExecutionState = record state { current_step_id = some id } in
    visit-HasEnded graph id entered (λ s. execute_step world n s entered)
      (execute_loop world graph.steps fuel (suc n)) c
      (λ s g x.
        let result = execute_step world n s entered in
        let (down, same) = found-GoesDown graph.steps rank id s k g in
        loop-HasEnded world graph rank fuel (suc n) (resolve_next_step s result)
          (store_result s result entered) k
          (below_le (resolve_next_step s result) (next_step-IsBelow rank s result down)
            (omega (arith, l, ap rank same)))
          (unfold store_result in r) (stored-HasNoError s result entered x h)
          (stored-IsReached graph id s result entered g same))
      (get_step graph.steps id) refl
  where
    below_le : (o : Option Text) → {m : ℕ} → IsBelow rank m o → m ≤ fuel → IsBelow rank fuel o
    below_le none b e = tt
    below_le (some j) b e = omega (arith, b, e)

-- The execution of a workflow whose graph has no cycle ends, whatever the steps do: more steps of the
-- loop than the rank of its entry are enough. No step is current then. If the status is that the
-- workflow is completed, no stored result is an error, and a step of the graph leads with its result
-- to no further step. If it is that the workflow failed, a step has an error as its result, or the
-- execution came to an id that is not in the graph, which is the entry or where a step of the graph
-- leads with its result. There is no other status. Where an earlier state is taken up, its results must
-- be free of errors.
pub workflow_ends :
    (world : World) (graph : WorkflowGraphDef) (rank : Text → ℕ) (fuel : ℕ) (initial_message : Text)
    (existing_state : Option WorkflowExecutionState)
    → IsRanked graph.steps rank
    → rank graph.entry_step_id < fuel
    → All HasNoError (start_state initial_message existing_state).step_results
    → HasEnded graph (execute world graph fuel initial_message existing_state)
unfolding execute
workflow_ends world graph rank fuel message existing k l h =
    loop-HasEnded world graph rank fuel 0 (some graph.entry_step_id) (start_state message existing)
      k l (starts existing) h (inl refl)
  where
    starts : (o : Option WorkflowExecutionState) → (start_state message o).status ≡ running
    starts none = refl
    starts (some state) = refl
