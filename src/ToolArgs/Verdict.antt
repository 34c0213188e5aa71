-- ===== src/ToolArgs/Verdict.antt =====
-- The verdict of a validator on the arguments as the caller gave them.
use ai_agent_starter_kit.ToolArgs.{Value, Args, Error, Checked, refused, accepted, ◌>>=◌, Converted}
use ai_agent_starter_kit.ToolArgs.Rules.{Rule, store, slot, check, run}
use ai_agent_starter_kit.ToolArgs.Tools.{validators, validate}
use ai_agent_starter_kit.ToolArgs.Slots.{are_distinct, names, get-store_other}
use ai_agent_starter_kit.ToolArgs.Types.{are_sane, sane_rules}
use ai_agent_starter_kit.Common.{
  ◌≡◌, refl, ◌∙◌, Bool, true, false, Option, none, some, List, [], ◌∷◌, arith, Text, text_eq, elem,
}
use ai_agent_starter_kit.Common.Dict.{get}

abbrev pub error_of {ℓ} : {A : Type ℓ} → Checked A → Option Error
error_of (accepted a) = none
error_of (refused e) = some e

abbrev pub or_next : Option Error → Option Error → Option Error
or_next none e = e
or_next (some d) e = some d

module _ (violates : Text → Bool) (to_int : Value → Converted) where
  -- The first error of the rules, each judged on the caller's arguments.
  unfoldable pub first_error : List Rule → Args → Option Error
  unfolding slot get
  first_error [] args = none
  first_error (r ∷ rules) args =
      or_next (error_of (slot violates to_int r.name r.kind (get args r.name)))
        (first_error rules args)

  first_error-store :
      (rules : List Rule) (args : Args) (n : Text) (v : Option Value)
      → elem n (names rules) ≡ false
      → first_error rules (store args n v) ≡ first_error rules args
  unfolding first_error elem
  first_error-store [] args n v e = refl
  first_error-store (r ∷ rules) args n v e =
      let other : text_eq n r.name ≡ false = ground (arith, e) in
      rw
        (
          get-store_other args n r.name v other,
          first_error-store rules args n v (ground (arith, e)),
        )
        refl

  run-first_error :
      (rules : List Rule) (args : Args)
      → are_distinct (names rules) ≡ true
      → error_of (run violates to_int rules args) ≡ first_error rules args
  unfolding first_error run check
  run-first_error [] args u = refl
  run-first_error (r ∷ rules) args u =
      verdict (slot violates to_int r.name r.kind (get args r.name)) (λ v.
        run-first_error rules (store args r.name v) (ground (arith, u))
        ∙ first_error-store rules args r.name v (ground (arith, u)))
    where
      verdict :
          (m : Checked (Option Value))
          → ((v : Option Value)
              → error_of (run violates to_int rules (store args r.name v)) ≡ first_error rules args)
          → error_of (m >>= (λ v. accepted (store args r.name v)) >>= run violates to_int rules)
            ≡ or_next (error_of m) (first_error rules args)
      verdict (accepted v) next = next v
      verdict (refused e) next = refl

  -- The verdict of a tool's validator does not depend on what its checks store: it is accepted when
  -- every argument, as the caller gave it, passes its own check, and the error is that of the first
  -- argument in the validator's order that does not.
  pub validate_verdict :
      (tool : Text) (rules : List Rule) (args : Args)
      → get validators tool ≡ some rules
      → error_of (validate violates to_int tool args) ≡ first_error rules args
  unfolding validate
  validate_verdict tool rules args g =
      let u : are_sane rules ≡ true = sane_rules tool rules g in
      rw g (run-first_error rules args (ground (arith, u)))
