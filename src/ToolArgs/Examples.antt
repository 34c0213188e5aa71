-- ===== src/ToolArgs/Examples.antt =====
-- Calls of four tools, with an `int` that reads one numeral.
use ai_agent_starter_kit.ToolArgs.{
  pos, Item, word, members, plain_member, Value, string, boolean, integer, float, items, mapping,
  Args, too_many_steps, int_overflow, refused, accepted, Converted, converted, not_a_number,
  overflows,
}
use ai_agent_starter_kit.ToolArgs.Helpers.{upper_case}
use ai_agent_starter_kit.ToolArgs.Structured.{normalize_policy, require_steps}
use ai_agent_starter_kit.ToolArgs.Rules.{choice, slot}
use ai_agent_starter_kit.ToolArgs.Tools.Files.{file_search}
use ai_agent_starter_kit.ToolArgs.Tools.{validate}
use ai_agent_starter_kit.ToolArgs.Action.{ToolSpec, evaluate_action}
use ai_agent_starter_kit.ToolArgs.Slots.{names}
use ai_agent_starter_kit.ToolArgs.Types.{IsTyped}
use ai_agent_starter_kit.ToolArgs.Typing.{validate-IsTyped}
use ai_agent_starter_kit.ToolArgs.Stable.{validate-validate}
use ai_agent_starter_kit.ToolArgs.Admits.{admits}
use ai_agent_starter_kit.ToolArgs.Judging.{is_accepted}
use ai_agent_starter_kit.ToolArgs.Acceptance.{validate_accepts_exactly}
use ai_agent_starter_kit.ToolArgs.Calls.{evaluate_action-IsTyped}
use ai_agent_starter_kit.Common.{
  ℕ, zero, suc, ◌≡◌, refl, Bool, true, false, none, some, List, [], ◌∷◌, if◌then◌else◌, all, All,
  Text, codes, text_eq, elem,
}
use ai_agent_starter_kit.Common.Dict.{get, contains}

abbrev no_danger : Text → Bool
no_danger s = text_eq s (codes "rm -rf /")

abbrev read_int : Value → Converted
read_int (string s) = if text_eq s (codes " 7 ") then converted (pos 7) else not_a_number
read_int (float x) = overflows
read_int _ = not_a_number

abbrev search_call : Args
search_call =
    (codes "pattern", string (codes "*.py")) ∷ (codes "max_results", string (codes " 7 ")) ∷ []

abbrev search_args : Args
search_args = (codes "pattern", string (codes "*.py")) ∷ (codes "max_results", integer (pos 7)) ∷ []

abbrev search_spec : ToolSpec
search_spec = record {
  required_args = codes "pattern" ∷ [];
  optional_args = codes "max_results" ∷ [];
}

search_accepted :
    validate no_danger read_int (codes "file_search") search_call ≡ accepted search_args
unfolding validate
search_accepted = refl

validate-IsTyped_example :
    IsTyped no_danger file_search search_args
    × ((k : Text) → elem k (names file_search) ≡ false → get search_args k ≡ get search_call k)
unfolding get
validate-IsTyped_example =
    validate-IsTyped no_danger read_int (codes "file_search") file_search search_call search_args
      refl search_accepted

validate-validate_example :
    validate no_danger read_int (codes "file_search") search_args ≡ accepted search_args
unfolding text_eq
validate-validate_example =
    validate-validate no_danger read_int (codes "file_search") search_call search_args refl
      search_accepted

validate_accepts_exactly_example :
    is_accepted
      (validate no_danger read_int (codes "file_search") ((codes "max_results", boolean true) ∷ []))
    ≡ all
        (λ r.
          admits no_danger read_int r.kind (get ((codes "max_results", boolean true) ∷ []) r.name))
        file_search
unfolding get
validate_accepts_exactly_example =
    validate_accepts_exactly no_danger read_int (codes "file_search") file_search
      ((codes "max_results", boolean true) ∷ []) refl

evaluate_action-IsTyped_example :
    (elem (codes "file_search") (codes "file_search" ∷ []) ≡ true)
    × ((spec : ToolSpec) × (get ((codes "file_search", search_spec) ∷ []) (codes "file_search")
          ≡ some spec)
        × All (λ n. contains search_call n ≡ true) spec.required_args)
    × IsTyped no_danger file_search search_args
    × ((k : Text) → elem k (names file_search) ≡ false → get search_args k ≡ get search_call k)
unfolding get evaluate_action
evaluate_action-IsTyped_example =
    evaluate_action-IsTyped no_danger read_int (codes "file_search" ∷ [])
      ((codes "file_search", search_spec) ∷ []) (codes "file_search") file_search search_call
      search_args refl refl

-- The 20 steps at most are asked of a list alone: a text of 21 names is accepted, and the list
-- that it becomes is not.
abbrev many : ℕ → Text
many zero = codes "a"
many (suc n) = b'a' ∷ b',' ∷ many n

abbrev many_steps : ℕ → List Item
many_steps zero = []
many_steps (suc n) = word (codes "a") ∷ many_steps n

steps_text_accepted : require_steps (some (string (many 20))) ≡ accepted (items (many_steps 21))
unfolding require_steps
steps_text_accepted = refl

steps_list_refused : require_steps (some (items (many_steps 21))) ≡ refused too_many_steps
unfolding require_steps
steps_list_refused = refl

-- An infinite float ends in an exception that the validator does not catch.
infinite_limit :
    validate no_danger read_int
      (codes "file_search")
      ((codes "pattern", string (codes "x")) ∷ (codes "max_results", float 0) ∷ [])
    ≡ refused int_overflow
unfolding validate
infinite_limit = refl

policy_normalized :
    normalize_policy (
      some (
        mapping
          ((codes "deny", members (word (codes " web ") ∷ [])) ∷ (codes "x", plain_member) ∷ [])))
    ≡ accepted (some (mapping ((codes "deny", members (word (codes "web") ∷ [])) ∷ [])))
unfolding normalize_policy
policy_normalized = refl

http_method_folded :
    slot no_danger read_int
      (codes "method")
      (choice upper_case 16 (codes "GET" ∷ []) none)
      (some (string (codes " get")))
    ≡ accepted (some (string (codes "GET")))
unfolding slot
http_method_folded = refl
