-- ===== src/ToolArgs.antt =====
-- backend/app/services/tool_arg_validator.py: the check of the arguments of a tool call. An argument
-- is a value of Python as far as the checks look at it; a float is known by a number. The conversion
-- `int(...)` and the command policy are parameters. The arguments of a refused call are dropped by the
-- caller (`_evaluate_action` of backend/app/agent.py), so that a refusal is its error alone.
pub mod Helpers
pub mod Structured
pub mod Rules
pub mod Tools
pub mod Action
pub mod Calls
pub mod Slots
pub mod Types
pub mod Scalars
pub mod Lists
pub mod Typing
pub mod Again
pub mod Stable
pub mod Verdict
pub mod Admits
pub mod Judging
pub mod Folding
pub mod Acceptance
mod Examples
use ai_agent_starter_kit.Common.{ℕ, Bool, List, Text}
use ai_agent_starter_kit.Common.Dict.{Dict}

-- Python's integers.
pub data ℤ : Type 0 where
  pos negsuc : ℕ → ℤ

-- A member of a list: a string or something else.
pub data Item : Type 0 where
  word : Text → Item
  thing : Item

-- What stands under a key of a dictionary.
pub data Member : Type 0 where
  members : List Item → Member
  null_member plain_member : Member

pub data Value : Type 0 where
  string : Text → Value
  boolean : Bool → Value
  integer : ℤ → Value
  float : ℕ → Value
  items : List Item → Value
  mapping : Dict Member → Value
  null object : Value

abbrev pub Args : Type 0
Args = Dict Value

-- The messages, one constructor for each. `int_overflow` is the OverflowError that `int` raises of an
-- infinite float and that no handler catches.
pub data Error : Type 0 where
  not_string blank too_long not_boolean not_integer out_of_range : Text → Error
  implausible not_supported : Text → Error
  policy_not_list policy_too_large policy_bad_name : Text → Error
  bad_step : ℕ → Error
  command_blocked no_steps too_many_steps steps_not_list int_overflow : Error
  validator_missing tool_not_allowed tool_unknown unsupported_fields : Error
  missing_argument : Text → Error

pub data Checked {ℓ} (A : Type ℓ) : Type ℓ where
  refused : Error → Checked A
  accepted : A → Checked A

-- `if err: return err` after a check, and the code that comes after it.
infixl 5 ◌>>=◌
abbrev pub ◌>>=◌ {ℓ κ} : {A : Type ℓ} {B : Type κ} → Checked A → (A → Checked B) → Checked B
refused e >>= next = refused e
accepted a >>= next = next a

-- What `int(value)` gives.
pub data Converted : Type 0 where
  converted : ℤ → Converted
  not_a_number overflows : Converted
