-- ===== src/ToolArgs/Typing.antt =====
-- The arguments that a validator accepts have the types of its rules.
use ai_agent_starter_kit.ToolArgs.{Value, Args, command_blocked, accepted, Converted}
use ai_agent_starter_kit.ToolArgs.Helpers.{fold_case}
use ai_agent_starter_kit.ToolArgs.Structured.{require_steps}
use ai_agent_starter_kit.ToolArgs.Rules.{
  Kind, required_text, optional_text, required_path, optional_path, command, required_choice,
  choice, whole, optional_whole, flag, optional_flag, tool_policy, steps, Rule, slot,
}
use ai_agent_starter_kit.ToolArgs.Tools.{validators, validate}
use ai_agent_starter_kit.ToolArgs.Slots.{names, bind-accepted, of_accepted, AreChecked, run-checked}
use ai_agent_starter_kit.ToolArgs.Types.{
  is_text, is_path, is_one_of, is_whole, is_boolean, are_steps, if_there, is_there, fits, IsTyped,
  is_sane, are_sane, sane_rules,
}
use ai_agent_starter_kit.ToolArgs.Scalars.{
  text-fits, tested-fits, path-fits, choice-fits, whole-fits, flag-fits, there-if,
}
use ai_agent_starter_kit.ToolArgs.Lists.{policy-fits, steps-fit}
use ai_agent_starter_kit.Common.{
  ◌≡◌, refl, Bool, true, false, Option, none, some, List, [], ◌∷◌, arith, all, Text, elem,
}
use ai_agent_starter_kit.Common.Dict.{get}

module _ (violates : Text → Bool) (to_int : Value → Converted) where
  slot-fits :
      (n : Text) (k : Kind) (v w : Option Value)
      → is_sane k ≡ true
      → slot violates to_int n k v ≡ accepted w
      → fits violates k w ≡ true
  unfolding slot fits
  slot-fits n (required_text e m) v w u h = text-fits n e m v w h
  slot-fits n (optional_text e m) none w u h =
      of_accepted (λ o. if_there (is_text e m) o ≡ true) h refl
  slot-fits n (optional_text e m) (some v) w u h =
      there-if (is_text e m) w (text-fits n e m (some v) w h)
  slot-fits n required_path v w u h = path-fits n v w h
  slot-fits n optional_path none w u h = of_accepted (λ o. if_there is_path o ≡ true) h refl
  slot-fits n optional_path (some v) w u h = there-if is_path w (path-fits n (some v) w h)
  slot-fits n command v w u h =
      let (s, same, shown, short, fine) = tested-fits n 1000 v w violates command_blocked h in
      rw (same, shown, fine) (ground (arith, short))
  slot-fits n (required_choice m options) v w u h = choice-fits n m (λ t. t) options v w h
  slot-fits n (choice c m options none) none w u h =
      of_accepted (λ o. if_there (is_one_of options) o ≡ true) h refl
  slot-fits n (choice c m options (some d)) none w u h =
      of_accepted (λ o. is_there (is_one_of options) o ≡ true) h (ground (arith, u))
  slot-fits n (choice c m options none) (some v) w u h =
      there-if (is_one_of options) w (choice-fits n m (fold_case c) options (some v) w h)
  slot-fits n (choice c m options (some d)) (some v) w u h =
      choice-fits n m (fold_case c) options (some v) w h
  slot-fits n (whole d lo hi) none w u h = of_accepted (λ o. is_there (is_whole lo hi) o ≡ true) h u
  slot-fits n (whole d lo hi) (some v) w u h = whole-fits to_int n lo hi v w h
  slot-fits n (optional_whole lo hi) none w u h =
      of_accepted (λ o. if_there (is_whole lo hi) o ≡ true) h refl
  slot-fits n (optional_whole lo hi) (some v) w u h =
      there-if (is_whole lo hi) w (whole-fits to_int n lo hi v w h)
  slot-fits n flag none w u h = of_accepted (λ o. is_there is_boolean o ≡ true) h refl
  slot-fits n flag (some v) w u h = flag-fits n v w h
  slot-fits n optional_flag none w u h = of_accepted (λ o. if_there is_boolean o ≡ true) h refl
  slot-fits n optional_flag (some v) w u h = there-if is_boolean w (flag-fits n v w h)
  slot-fits n tool_policy v w u h = policy-fits v w h
  slot-fits n steps v w u h =
      let (x, found, same) = bind-accepted (require_steps v) (λ x. accepted (some x)) h in
      of_accepted (λ o. is_there are_steps o ≡ true) same (steps-fit v x found)

  checked-IsTyped :
      (rules : List Rule) (args out : Args)
      → all (λ r. is_sane r.kind) rules ≡ true
      → AreChecked violates to_int args out rules
      → IsTyped violates rules out
  checked-IsTyped [] args out u c = tt
  checked-IsTyped (r ∷ rules) args out u c = (
    slot-fits r.name r.kind (get args r.name) (get out r.name) (ground (arith, u)) c.0,
    checked-IsTyped rules args out (ground (arith, u)) c.1,
  )

  -- A call whose arguments the validator of its tool accepts runs with arguments of the declared
  -- types: each argument that the validator names is there unless it may be missing, is of its type,
  -- within its bounds or among its options; and every other argument is the caller's.
  pub validate-IsTyped :
      (tool : Text) (rules : List Rule) (args out : Args)
      → get validators tool ≡ some rules
      → validate violates to_int tool args ≡ accepted out
      → IsTyped violates rules out
        × ((k : Text) → elem k (names rules) ≡ false → get out k ≡ get args k)
  unfolding validate
  validate-IsTyped tool rules args out g h =
      let u : are_sane rules ≡ true = sane_rules tool rules g in
      let (checked, kept) =
        run-checked violates to_int rules args out (ground (arith, u)) (rw g at h) in
      (checked-IsTyped rules args out (ground (arith, u)) checked, kept)
