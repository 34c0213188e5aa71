-- ===== src/ToolArgs/Calls.antt =====
-- What `_evaluate_action` lets through.
-- The required arguments are copied from the call, and each is there.
use ai_agent_starter_kit.ToolArgs.{Value, Args, accepted, Converted}
use ai_agent_starter_kit.ToolArgs.Rules.{Rule, store}
use ai_agent_starter_kit.ToolArgs.Tools.{validators, validate}
use ai_agent_starter_kit.ToolArgs.Action.{
  ToolSpec, copy_required, copy_optional, has_unsupported, evaluate_spec, evaluate_action,
}
use ai_agent_starter_kit.ToolArgs.Slots.{names, bind-accepted, of_accepted}
use ai_agent_starter_kit.ToolArgs.Types.{IsTyped}
use ai_agent_starter_kit.ToolArgs.Typing.{validate-IsTyped}
use ai_agent_starter_kit.Common.{
  ◌≡◌, refl, ap, ◌∙◌, inl, inr, Bool, true, false, not, ◌&&◌, ◌||◌, Option, none, some, List, [],
  ◌∷◌, ◌++◌, arith, if◌then◌else◌, Bool-cases, Option-cases, any, All, Text, text_eq, text_eq_iff,
  elem, elem-append,
}
use ai_agent_starter_kit.Common.Dict.{Dict, get, put, contains, keys, get-put}

copy_required-get :
    (ns : List Text) (args copied d : Args)
    → copy_required ns args copied ≡ accepted d
    → All (λ n. contains args n ≡ true) ns
      × ((k : Text) → get d k ≡ (if elem k ns then get args k else get copied k))
unfolding copy_required elem contains
copy_required-get [] args copied d h =
    of_accepted (λ x. Unit × ((k : Text) → get x k ≡ get copied k)) h (tt, λ k. refl)
copy_required-get (n ∷ ns) args copied d h = elim (Option-cases (get args n)) [
  | inl e ↦ absurd (ground (arith, h, e))
  | inr (v, e) ↦
      let (present, same) =
        copy_required-get ns args (put copied n v) d (rw (e, copy_required) at h) in
      (
        (rw e refl, present),
        λ k.
            same k
            ∙ ground (
              arith,
              e,
              get-put copied n k v,
              text_eq_iff n k,
              text_eq_iff k n,
              ap (get args) {x = n} {y = k},
            ),
      )
]

copy_optional-get :
    (ns : List Text) (args copied : Args) (k : Text)
    → get (copy_optional ns args copied) k
      ≡ (if elem k ns && contains args k then get args k else get copied k)
unfolding copy_optional elem contains
copy_optional-get [] args copied k = refl
copy_optional-get (n ∷ ns) args copied k =
    copy_optional-get ns args (store copied n (get args n)) k ∙ after_store (get args n) refl
  where
    after_store :
        (o : Option Value)
        → get args n ≡ o
        → (if elem k ns && contains args k then get args k else get (store copied n o) k)
          ≡ (if (text_eq k n || elem k ns) && contains args k then get args k else get copied k)
    after_store none e = ground (arith, e, text_eq_iff k n, ap (get args) {x = n} {y = k})
    after_store (some v) e = ground (
      arith,
      e,
      get-put copied n k v,
      text_eq_iff n k,
      text_eq_iff k n,
      ap (get args) {x = n} {y = k},
    )

-- The keys of a call with no unsupported field.
supported-get :
    (spec : ToolSpec) (args : Args) (k : Text)
    → any (λ k. not (elem k (spec.required_args ++ spec.optional_args))) (keys args) ≡ false
    → elem k (spec.required_args ++ spec.optional_args) ≡ false
    → get args k ≡ none
unfolding get elem
supported-get spec [] k h e = refl
supported-get spec ((j, v) ∷ args) k h e = ground (
  arith,
  h,
  e,
  supported-get spec args k,
  text_eq_iff j k,
  ap (λ l. elem l (spec.required_args ++ spec.optional_args)) {x = j} {y = k},
)

module _ (violates : Text → Bool) (to_int : Value → Converted) where
  evaluate_spec-get :
      (spec : ToolSpec) (tool : Text) (args out : Args)
      → evaluate_spec violates to_int spec tool args ≡ accepted out
      → All (λ n. contains args n ≡ true) spec.required_args
        × ((given : Args) × ((k : Text) → get given k ≡ get args k)
            × (validate violates to_int tool given ≡ accepted out))
  unfolding evaluate_spec
  evaluate_spec-get spec tool args out h = elim (Bool-cases (has_unsupported spec args)) [
    | inl e ↦ absurd (ground (arith, h, e))
    | inr e ↦
        let (copied, found, rest) =
          bind-accepted (copy_required spec.required_args args [])
            (λ c. validate violates to_int tool (copy_optional spec.optional_args args c))
            (rw (e, evaluate_spec) at h) in
        let (present, same) = copy_required-get spec.required_args args [] copied found in
        (present, (copy_optional spec.optional_args args copied, agrees copied e same, rest))
  ]
    where
      agrees :
          (copied : Args)
          → has_unsupported spec args ≡ false
          → ((k : Text) → get copied k ≡ (if elem k spec.required_args then get args k else none))
          → (k : Text) → get (copy_optional spec.optional_args args copied) k ≡ get args k
      agrees copied e same k =
          unfold contains in
          ground (
            arith,
            copy_optional-get spec.optional_args args copied k,
            same k,
            supported-get spec args k e,
            elem-append k spec.required_args spec.optional_args,
          )

  -- A call of a tool with a validator that `_evaluate_action` lets through: the policy allows the
  -- tool, the registry knows it, and the call has every argument that the tool requires. What goes on
  -- to the tool has the types of its validator, and every argument that the validator does not name is
  -- the call's own.
  pub evaluate_action-IsTyped :
      (allowed_tools : List Text) (registry : Dict ToolSpec) (tool : Text) (rules : List Rule)
      (args out : Args)
      → get validators tool ≡ some rules
      → evaluate_action violates to_int allowed_tools registry tool args ≡ accepted out
      → (elem tool allowed_tools ≡ true)
        × ((spec : ToolSpec) × (get registry tool ≡ some spec)
            × All (λ n. contains args n ≡ true) spec.required_args)
        × IsTyped violates rules out
        × ((k : Text) → elem k (names rules) ≡ false → get out k ≡ get args k)
  unfolding evaluate_action
  evaluate_action-IsTyped allowed_tools registry tool rules args out g h =
      elim (Bool-cases (elem tool allowed_tools)) [
        | inr e ↦ absurd (ground (arith, h, e))
        | inl e ↦ elim (Option-cases (get registry tool)) [
          | inl missing ↦ absurd (ground (arith, h, e, missing))
          | inr (spec, found) ↦
              let (present, (given, same, passes)) =
                evaluate_spec-get spec tool args out (rw (e, found, evaluate_action) at h) in
              let (typed, kept) = validate-IsTyped violates to_int tool rules given out g passes in
              (e, (spec, found, present), typed, λ k absent. kept k absent ∙ same k)
        ]
      ]
