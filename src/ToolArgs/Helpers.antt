-- ===== src/ToolArgs/Helpers.antt =====
-- The helpers of `ToolArgValidator` for texts, flags, integers and options.
-- `str.upper`, by the ASCII letters.
use ai_agent_starter_kit.ToolArgs.{
  ℤ, pos, negsuc, Value, string, boolean, integer, float, not_string, blank, too_long, not_boolean,
  not_integer, out_of_range, not_supported, int_overflow, Checked, refused, accepted, Converted,
  converted, not_a_number, overflows,
}
use ai_agent_starter_kit.Common.{
  ℕ, zero, suc, ◌-◌, Bool, true, false, ◌&&◌, ◌||◌, Option, some, List, [], ◌∷◌, ltb, leb, ◌==◌,
  if◌then◌else◌, length, is_empty, Text, codes, elem, strip, normalize,
}

unfoldable pub upper_char : ℕ → ℕ
upper_char c = if leb b'a' c && leb c b'z' then c - 32 else c

unfoldable pub upper : Text → Text
unfolding upper_char
upper [] = []
upper (c ∷ s) = upper_char c ∷ upper s

abbrev pub is_blank : Text → Bool
is_blank s = is_empty (strip s)

-- `"\x00" in s`
unfoldable pub has_nul : Text → Bool
has_nul [] = false
has_nul (c ∷ s) = c == 0 || has_nul s

-- `_require_str_arg`, of what stands under the name
unfoldable pub require_str : Text → Bool → ℕ → Option Value → Checked Text
unfolding strip
require_str name non_empty max_len (some (string s)) =
    if non_empty && is_blank s
    then refused (blank name)
    else if ltb max_len (length s)
    then refused (too_long name)
    else accepted s
require_str name non_empty max_len _ = refused (not_string name)

-- `_require_bool_arg` of an argument that is there
unfoldable pub require_bool : Text → Value → Checked Bool
unfolding normalize elem
require_bool name (boolean b) = accepted b
require_bool name (string s) =
    if elem (normalize s) (codes "true" ∷ codes "1" ∷ codes "yes" ∷ [])
    then accepted true
    else if elem (normalize s) (codes "false" ∷ codes "0" ∷ codes "no" ∷ [])
    then accepted false
    else refused (not_boolean name)
require_bool name (integer (pos zero)) = accepted false
require_bool name (integer (pos (suc zero))) = accepted true
require_bool name _ = refused (not_boolean name)

-- `value < min_value or value > max_value`, for bounds that are not negative
unfoldable pub in_range : Text → ℕ → ℕ → ℤ → Checked ℕ
in_range name lo hi (pos n) =
    if ltb n lo || ltb hi n then refused (out_of_range name) else accepted n
in_range name lo hi (negsuc n) = refused (out_of_range name)

unfoldable pub convert : Text → ℕ → ℕ → Converted → Checked ℕ
unfolding in_range
convert name lo hi (converted z) = in_range name lo hi z
convert name lo hi not_a_number = refused (not_integer name)
convert name lo hi overflows = refused int_overflow

-- `_optional_int_arg` of an argument that is there
unfoldable pub optional_int : (Value → Converted) → Text → ℕ → ℕ → Value → Checked ℕ
unfolding in_range convert
optional_int to_int name lo hi (integer z) = in_range name lo hi z
optional_int to_int name lo hi (string s) = convert name lo hi (to_int (string s))
optional_int to_int name lo hi (float x) = convert name lo hi (to_int (float x))
optional_int to_int name lo hi _ = refused (not_integer name)

pub data Case : Type 0 where
  lower_case upper_case : Case

unfoldable pub fold_case : Case → Text → Text
unfolding normalize upper strip
fold_case lower_case s = normalize s
fold_case upper_case s = upper (strip s)

-- `normalized_value not in valid`, after `_require_str_arg`
unfoldable pub choose : Text → (Text → Text) → List Text → Text → Checked Text
unfolding elem
choose name fold options s =
    if elem (fold s) options then accepted (fold s) else refused (not_supported name)
