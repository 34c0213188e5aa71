-- ===== src/ToolArgs/Rules.antt =====
-- The validators as lists of rules, one rule for each argument.
use ai_agent_starter_kit.ToolArgs.{
  pos, Value, string, boolean, integer, Args, implausible, command_blocked, Checked, refused,
  accepted, ◌>>=◌, Converted,
}
use ai_agent_starter_kit.ToolArgs.Helpers.{
  has_nul, require_str, require_bool, optional_int, Case, fold_case, choose,
}
use ai_agent_starter_kit.ToolArgs.Structured.{normalize_policy, require_steps}
use ai_agent_starter_kit.Common.{
  ℕ, Bool, true, false, Option, none, some, List, [], ◌∷◌, if◌then◌else◌, Text, codes,
}
use ai_agent_starter_kit.Common.Dict.{get, put, fmap}
use Prim.Native.String.{String}

-- What a validator does with one argument. `required_…` reads it as `_require_str_arg` does,
-- `optional_…` only when it is there; `choice`, `whole` and `flag` store a default otherwise.
pub data Kind : Type 0 where
  required_text optional_text : Bool → ℕ → Kind
  required_path optional_path command : Kind
  required_choice : ℕ → List Text → Kind
  choice : Case → ℕ → List Text → Option Text → Kind
  whole : ℕ → ℕ → ℕ → Kind
  optional_whole : ℕ → ℕ → Kind
  flag optional_flag tool_policy steps : Kind

pub record Rule : Type 0 where
  pub name : Text
  pub kind : Kind

-- A rule by the name as it is written in the source.
abbrev pub rule : String → Kind → Rule
rule s k = record { name = codes s; kind = k }

-- `args[name] = value`, where there is a value to store
abbrev pub store : Args → Text → Option Value → Args
store args name none = args
store args name (some v) = put args name v

module _ (violates : Text → Bool) (to_int : Value → Converted) where
  -- What stands under the name after the check of what stood there before, or the error.
  unfoldable pub slot : Text → Kind → Option Value → Checked (Option Value)
  unfolding require_str require_bool optional_int choose has_nul fold_case normalize_policy
      require_steps
  slot name (required_text non_empty max_len) v =
      require_str name non_empty max_len v >>= λ s. accepted (some (string s))
  slot name (optional_text non_empty max_len) none = accepted none
  slot name (optional_text non_empty max_len) (some v) =
      require_str name non_empty max_len (some v) >>= λ s. accepted (some (string s))
  slot name required_path v = require_str name true 400 v >>= λ s.
      if has_nul s then refused (implausible name) else accepted (some (string s))
  slot name optional_path none = accepted none
  slot name optional_path (some v) = require_str name true 400 (some v) >>= λ s.
      if has_nul s then refused (implausible name) else accepted (some (string s))
  slot name command v = require_str name true 1000 v >>= λ s.
      if violates s then refused command_blocked else accepted (some (string s))
  slot name (required_choice max_len options) v = require_str name true max_len v >>= λ s.
      choose name (λ t. t) options s >>= λ t. accepted (some (string t))
  slot name (choice c max_len options d) none = accepted (fmap string d)
  slot name (choice c max_len options d) (some v) = require_str name true max_len (some v) >>= λ s.
      choose name (fold_case c) options s >>= λ t. accepted (some (string t))
  slot name (whole d lo hi) none = accepted (some (integer (pos d)))
  slot name (whole d lo hi) (some v) =
      optional_int to_int name lo hi v >>= λ n. accepted (some (integer (pos n)))
  slot name (optional_whole lo hi) none = accepted none
  slot name (optional_whole lo hi) (some v) =
      optional_int to_int name lo hi v >>= λ n. accepted (some (integer (pos n)))
  slot name flag none = accepted (some (boolean false))
  slot name flag (some v) = require_bool name v >>= λ b. accepted (some (boolean b))
  slot name optional_flag none = accepted none
  slot name optional_flag (some v) = require_bool name v >>= λ b. accepted (some (boolean b))
  slot name tool_policy v = normalize_policy v
  slot name steps v = require_steps v >>= λ w. accepted (some w)

  unfoldable pub check : Rule → Args → Checked Args
  unfolding slot get put
  check r args = slot r.name r.kind (get args r.name) >>= λ v. accepted (store args r.name v)

  -- The checks in turn, up to the first error.
  unfoldable pub run : List Rule → Args → Checked Args
  unfolding check
  run [] args = accepted args
  run (r ∷ rules) args = check r args >>= run rules
