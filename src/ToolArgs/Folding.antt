-- ===== src/ToolArgs/Folding.antt =====
-- The tests of paths and options after `_require_str_arg`.
use ai_agent_starter_kit.ToolArgs.{
  Value, string, boolean, integer, float, items, mapping, null, object, implausible, refused,
  accepted, ◌>>=◌,
}
use ai_agent_starter_kit.ToolArgs.Helpers.{has_nul, Case, lower_case, upper_case, fold_case, choose}
use ai_agent_starter_kit.ToolArgs.Types.{is_path}
use ai_agent_starter_kit.ToolArgs.Admits.{names_option, folds_to_option}
use ai_agent_starter_kit.ToolArgs.Judging.{tested}
use ai_agent_starter_kit.Common.{ℕ, ◌≡◌, refl, some, List, arith, if◌then◌else◌, Text}

pub path_test :
    (n : Text) (v : Value)
    → tested (λ s. if has_nul s then refused (implausible n) else accepted (some (string s))) 400 v
      ≡ is_path v
unfolding tested
path_test n (string s) = ground arith
path_test n (boolean b) = refl
path_test n (integer z) = refl
path_test n (float x) = refl
path_test n (items xs) = refl
path_test n (mapping d) = refl
path_test n null = refl
path_test n object = refl

pub option_test :
    (n : Text) (m : ℕ) (options : List Text) (v : Value)
    → tested (λ s. choose n (λ t. t) options s >>= λ t. accepted (some (string t))) m v
      ≡ names_option m options v
unfolding tested choose
option_test n m options (string s) = ground arith
option_test n m options (boolean b) = refl
option_test n m options (integer z) = refl
option_test n m options (float x) = refl
option_test n m options (items xs) = refl
option_test n m options (mapping d) = refl
option_test n m options null = refl
option_test n m options object = refl

pub folded_test :
    (n : Text) (c : Case) (m : ℕ) (options : List Text) (v : Value)
    → tested (λ s. choose n (fold_case c) options s >>= λ t. accepted (some (string t))) m v
      ≡ folds_to_option c m options v
unfolding tested choose fold_case
folded_test n lower_case m options (string s) = ground arith
folded_test n upper_case m options (string s) = ground arith
folded_test n lower_case m options (boolean b) = refl
folded_test n upper_case m options (boolean b) = refl
folded_test n lower_case m options (integer z) = refl
folded_test n upper_case m options (integer z) = refl
folded_test n lower_case m options (float x) = refl
folded_test n upper_case m options (float x) = refl
folded_test n lower_case m options (items xs) = refl
folded_test n upper_case m options (items xs) = refl
folded_test n lower_case m options (mapping d) = refl
folded_test n upper_case m options (mapping d) = refl
folded_test n lower_case m options null = refl
folded_test n upper_case m options null = refl
folded_test n lower_case m options object = refl
folded_test n upper_case m options object = refl
