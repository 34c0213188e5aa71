-- ===== src/ToolArgs/Types.antt =====
-- The types of the arguments after a check, described apart from the checks.
-- A member of a list that is a string with more than white space.
use ai_agent_starter_kit.ToolArgs.{
  pos, Item, word, thing, Member, members, null_member, plain_member, Value, string, boolean,
  integer, items, mapping, null, Args,
}
use ai_agent_starter_kit.ToolArgs.Helpers.{upper, is_blank, has_nul, Case, fold_case}
use ai_agent_starter_kit.ToolArgs.Rules.{
  Kind, required_text, optional_text, required_path, optional_path, command, required_choice,
  choice, whole, optional_whole, flag, optional_flag, tool_policy, steps, Rule,
}
use ai_agent_starter_kit.ToolArgs.Tools.{validators}
use ai_agent_starter_kit.ToolArgs.Slots.{are_distinct, names}
use ai_agent_starter_kit.Common.{
  ℕ, ◌≡◌, refl, ap, Bool, true, false, not, ◌&&◌, ◌||◌, Option, none, some, List, [], ◌∷◌, arith,
  leb, length, is_empty, all, All, Text, codes, text_eq, elem, strip, normalize,
}
use ai_agent_starter_kit.Common.Dict.{Dict, get}

abbrev pub is_step : Item → Bool
is_step (word s) = not (is_blank s)
is_step thing = false

-- A name of a tool policy: stripped, not empty, at most 80 characters.
abbrev pub is_tool_name : Item → Bool
is_tool_name (word s) = not (is_blank s) && leb (length s) 80 && text_eq (strip s) s
is_tool_name thing = false

abbrev pub is_policy_entry : Text × Member → Bool
is_policy_entry (key, members xs) =
    (text_eq key (codes "allow") || text_eq key (codes "deny"))
    && leb (length xs) 20
    && all is_tool_name xs
is_policy_entry (key, null_member) = false
is_policy_entry (key, plain_member) = false

abbrev pub is_text : Bool → ℕ → Value → Bool
is_text non_empty max_len (string s) = not (non_empty && is_blank s) && leb (length s) max_len
is_text non_empty max_len _ = false

abbrev pub is_path : Value → Bool
is_path (string s) = not (is_blank s) && leb (length s) 400 && not (has_nul s)
is_path _ = false

abbrev pub is_one_of : List Text → Value → Bool
is_one_of options (string s) = elem s options
is_one_of options _ = false

abbrev pub is_whole : ℕ → ℕ → Value → Bool
is_whole lo hi (integer (pos n)) = leb lo n && leb n hi
is_whole lo hi _ = false

abbrev pub is_boolean : Value → Bool
is_boolean (boolean b) = true
is_boolean _ = false

-- A policy has the lists "allow" and "deny" of tool names at most.
abbrev pub is_policy : Value → Bool
is_policy null = true
is_policy (mapping d) = all is_policy_entry d
is_policy _ = false

abbrev pub are_steps : Value → Bool
are_steps (items xs) = not (is_empty xs) && all is_step xs
are_steps _ = false

-- An argument that may be missing, and one that may not.
abbrev pub if_there : (Value → Bool) → Option Value → Bool
if_there p none = true
if_there p (some v) = p v

abbrev pub is_there : (Value → Bool) → Option Value → Bool
is_there p none = false
is_there p (some v) = p v

module _ (violates : Text → Bool) where
  abbrev pub is_command : Value → Bool
  is_command (string s) = not (is_blank s) && leb (length s) 1000 && not (violates s)
  is_command _ = false

  -- The type that the kind of a rule asks of an argument.
  unfoldable pub fits : Kind → Option Value → Bool
  unfolding strip has_nul elem text_eq
  fits (required_text e m) = is_there (is_text e m)
  fits (optional_text e m) = if_there (is_text e m)
  fits required_path = is_there is_path
  fits optional_path = if_there is_path
  fits command = is_there is_command
  fits (required_choice m options) = is_there (is_one_of options)
  fits (choice c m options none) = if_there (is_one_of options)
  fits (choice c m options (some d)) = is_there (is_one_of options)
  fits (whole d lo hi) = is_there (is_whole lo hi)
  fits (optional_whole lo hi) = if_there (is_whole lo hi)
  fits flag = is_there is_boolean
  fits optional_flag = if_there is_boolean
  fits tool_policy = if_there is_policy
  fits steps = is_there are_steps

  -- Each argument that the tool's validator names has its type.
  abbrev pub IsTyped : List Rule → Args → Type 0
  IsTyped rules args = All (λ r. fits r.kind (get args r.name) ≡ true) rules

-- The default of a rule has the type of the rule, and an option is spelled as the check spells it.
abbrev pub is_option : Case → ℕ → Text → Bool
is_option c max_len s = not (is_blank s) && leb (length s) max_len && text_eq (fold_case c s) s

abbrev pub is_sane : Kind → Bool
is_sane (choice c m options none) = all (is_option c m) options
is_sane (choice c m options (some d)) = all (is_option c m) options && elem d options
is_sane (whole d lo hi) = leb lo d && leb d hi
is_sane _ = true

abbrev pub are_sane : List Rule → Bool
are_sane rules = are_distinct (names rules) && all (λ r. is_sane r.kind) rules

validators-are_sane : all (λ e. are_sane e.1) validators ≡ true
unfolding elem text_eq fold_case strip normalize upper
validators-are_sane = refl

all-get :
    (p : List Rule → Bool) (d : Dict (List Rule)) (k : Text) (rules : List Rule)
    → all (λ e. p e.1) d ≡ true
    → get d k ≡ some rules
    → p rules ≡ true
unfolding get
all-get p [] k rules h g = cc
all-get p ((j, w) ∷ d) k rules h g = ground (arith, all-get p d k rules, ap p {x = w} {y = rules})

pub sane_rules :
    (tool : Text) (rules : List Rule) → get validators tool ≡ some rules → are_sane rules ≡ true
sane_rules tool rules g = all-get are_sane validators tool rules validators-are_sane g
