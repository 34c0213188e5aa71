-- ===== src/ToolArgs/Action.antt =====
-- `_evaluate_action` of backend/app/agent.py: which arguments of a call reach the validator, and
-- which calls are refused before.
use ai_agent_starter_kit.ToolArgs.{
  Value, Args, tool_not_allowed, tool_unknown, unsupported_fields, missing_argument, Checked,
  refused, accepted, ◌>>=◌, Converted,
}
use ai_agent_starter_kit.ToolArgs.Rules.{store}
use ai_agent_starter_kit.ToolArgs.Tools.{validate}
use ai_agent_starter_kit.Common.{
  Bool, not, none, some, List, [], ◌∷◌, ◌++◌, if◌then◌else◌, any, Text, elem,
}
use ai_agent_starter_kit.Common.Dict.{Dict, get, put, keys}

pub record ToolSpec : Type 0 where
  pub required_args : List Text
  pub optional_args : List Text

-- The loop over the required arguments, from the arguments copied so far.
unfoldable pub copy_required : List Text → Args → Args → Checked Args
unfolding get put
copy_required [] args copied = accepted copied
copy_required (n ∷ ns) args copied = elim (get args n) [
  | none ↦ refused (missing_argument n)
  | some v ↦ copy_required ns args (put copied n v)
]

unfoldable pub copy_optional : List Text → Args → Args → Args
unfolding get
copy_optional [] args copied = copied
copy_optional (n ∷ ns) args copied = copy_optional ns args (store copied n (get args n))

-- `set(args.keys()) - allowed_keys`
abbrev pub has_unsupported : ToolSpec → Args → Bool
has_unsupported spec args =
    any (λ k. not (elem k (spec.required_args ++ spec.optional_args))) (keys args)

module _ (violates : Text → Bool) (to_int : Value → Converted) where
  unfoldable pub evaluate_spec : ToolSpec → Text → Args → Checked Args
  unfolding copy_required copy_optional validate
  evaluate_spec spec tool args =
      if has_unsupported spec args
      then refused unsupported_fields
      else copy_required spec.required_args args [] >>= λ copied.
          validate violates to_int tool (copy_optional spec.optional_args args copied)

  unfoldable pub evaluate_action : List Text → Dict ToolSpec → Text → Args → Checked Args
  unfolding get evaluate_spec
  evaluate_action allowed_tools registry tool args =
      if elem tool allowed_tools
      then elim (get registry tool) [
        | none ↦ refused tool_unknown
        | some spec ↦ evaluate_spec spec tool args
      ]
      else refused tool_not_allowed
