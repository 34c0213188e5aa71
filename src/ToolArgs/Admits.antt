-- ===== src/ToolArgs/Admits.antt =====
-- What a validator asks of an argument as the caller gives it, described apart from the checks.
use ai_agent_starter_kit.ToolArgs.{
  ℤ, pos, negsuc, Item, word, thing, Member, members, null_member, plain_member, Value, string,
  boolean, integer, float, items, mapping, Converted, converted, not_a_number, overflows,
}
use ai_agent_starter_kit.ToolArgs.Helpers.{upper, is_blank, has_nul, Case, lower_case, upper_case}
use ai_agent_starter_kit.ToolArgs.Structured.{split_on}
use ai_agent_starter_kit.ToolArgs.Rules.{
  Kind, required_text, optional_text, required_path, optional_path, command, required_choice,
  choice, whole, optional_whole, flag, optional_flag, tool_policy, steps,
}
use ai_agent_starter_kit.ToolArgs.Types.{is_step, is_text, is_path, if_there, is_there, is_command}
use ai_agent_starter_kit.Common.{
  ℕ, Bool, true, false, not, ◌&&◌, Option, none, some, List, [], ◌∷◌, ltb, leb, length, is_empty,
  any, all, Text, codes, elem, strip, normalize,
}
use ai_agent_starter_kit.Common.Dict.{get}

-- A text with more than white space, of at most so many characters.
abbrev pub is_filled : ℕ → Text → Bool
is_filled max_len s = not (is_blank s) && leb (length s) max_len

-- One of the options, as it is spelled and with the case folded.
abbrev pub names_option : ℕ → List Text → Value → Bool
names_option max_len options (string s) = is_filled max_len s && elem s options
names_option max_len options _ = false

abbrev pub folds_to_option : Case → ℕ → List Text → Value → Bool
folds_to_option lower_case max_len options (string s) =
    is_filled max_len s && elem (normalize s) options
folds_to_option upper_case max_len options (string s) =
    is_filled max_len s && elem (upper (strip s)) options
folds_to_option c max_len options _ = false

abbrev pub is_between : ℕ → ℕ → ℤ → Bool
is_between lo hi (pos n) = leb lo n && leb n hi
is_between lo hi (negsuc n) = false

abbrev pub converts_between : ℕ → ℕ → Converted → Bool
converts_between lo hi (converted z) = is_between lo hi z
converts_between lo hi not_a_number = false
converts_between lo hi overflows = false

abbrev pub is_bit : ℤ → Bool
is_bit (pos n) = ltb n 2
is_bit (negsuc n) = false

abbrev pub truth_words : List Text
truth_words = codes "true" ∷ codes "1" ∷ codes "yes" ∷ codes "false" ∷ codes "0" ∷ codes "no" ∷ []

abbrev pub reads_as_flag : Value → Bool
reads_as_flag (boolean b) = true
reads_as_flag (string s) = elem (normalize s) truth_words
reads_as_flag (integer z) = is_bit z
reads_as_flag _ = false

abbrev pub is_name : Item → Bool
is_name (word s) = is_filled 80 s
is_name thing = false

abbrev pub is_name_list : Option Member → Bool
is_name_list none = true
is_name_list (some null_member) = true
is_name_list (some plain_member) = false
is_name_list (some (members xs)) = leb (length xs) 20 && all is_name xs

-- Only a dictionary can be refused, for its lists "allow" and "deny".
abbrev pub is_tool_policy : Value → Bool
is_tool_policy (mapping d) =
    is_name_list (get d (codes "allow")) && is_name_list (get d (codes "deny"))
is_tool_policy _ = true

-- Texts between commas, one of them not blank; or a list of 1 to 20 texts that are not blank.
abbrev pub gives_steps : Value → Bool
gives_steps (string s) = any (λ part. not (is_blank part)) (split_on b',' s)
gives_steps (items xs) = not (is_empty xs) && leb (length xs) 20 && all is_step xs
gives_steps _ = false

module _ (violates : Text → Bool) (to_int : Value → Converted) where
  abbrev pub reads_between : ℕ → ℕ → Value → Bool
  reads_between lo hi (integer z) = is_between lo hi z
  reads_between lo hi (string s) = converts_between lo hi (to_int (string s))
  reads_between lo hi (float x) = converts_between lo hi (to_int (float x))
  reads_between lo hi _ = false

  unfoldable pub admits : Kind → Option Value → Bool
  unfolding strip has_nul elem normalize upper get split_on
  admits (required_text e m) = is_there (is_text e m)
  admits (optional_text e m) = if_there (is_text e m)
  admits required_path = is_there is_path
  admits optional_path = if_there is_path
  admits command = is_there (is_command violates)
  admits (required_choice m options) = is_there (names_option m options)
  admits (choice c m options d) = if_there (folds_to_option c m options)
  admits (whole d lo hi) = if_there (reads_between lo hi)
  admits (optional_whole lo hi) = if_there (reads_between lo hi)
  admits flag = if_there reads_as_flag
  admits optional_flag = if_there reads_as_flag
  admits tool_policy = if_there is_tool_policy
  admits steps = is_there gives_steps
