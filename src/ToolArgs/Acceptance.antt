-- ===== src/ToolArgs/Acceptance.antt =====
-- A validator accepts exactly the arguments that it admits.
use ai_agent_starter_kit.ToolArgs.{
  pos, Value, string, boolean, integer, float, items, mapping, null, object, Args, Error,
  implausible, command_blocked, no_steps, Checked, refused, accepted, ◌>>=◌, Converted,
}
use ai_agent_starter_kit.ToolArgs.Helpers.{
  has_nul, require_str, require_bool, optional_int, fold_case, choose,
}
use ai_agent_starter_kit.ToolArgs.Structured.{split_on, clean_parts, check_steps, require_steps}
use ai_agent_starter_kit.ToolArgs.Rules.{
  Kind, required_text, optional_text, required_path, optional_path, command, required_choice,
  choice, whole, optional_whole, flag, optional_flag, tool_policy, steps, Rule, slot,
}
use ai_agent_starter_kit.ToolArgs.Tools.{validators, validate}
use ai_agent_starter_kit.ToolArgs.Types.{is_path, is_there, is_command}
use ai_agent_starter_kit.ToolArgs.Verdict.{error_of, or_next, first_error, validate_verdict}
use ai_agent_starter_kit.ToolArgs.Admits.{names_option, gives_steps, reads_between, admits}
use ai_agent_starter_kit.ToolArgs.Judging.{
  is_accepted, is_accepted-bind, is_accepted-test, text_accepted, tested, tested_accepted,
  same_test, range_accepted, convert_accepted, flag_accepted, policy_accepted, is_empty-clean_parts,
  steps_accepted,
}
use ai_agent_starter_kit.ToolArgs.Folding.{path_test, option_test, folded_test}
use ai_agent_starter_kit.Common.{
  ℕ, ◌≡◌, refl, sym, ap, ◌∙◌, Bool, true, false, ◌&&◌, Option, none, some, List, [], ◌∷◌, arith,
  if◌then◌else◌, is_empty, all, Text,
}
use ai_agent_starter_kit.Common.Dict.{get}

abbrev is_none {ℓ} : {A : Type ℓ} → Option A → Bool
is_none none = true
is_none (some a) = false

module _ (violates : Text → Bool) (to_int : Value → Converted) where
  reads_accepted :
      (n : Text) (lo hi : ℕ) (v : Value)
      → is_accepted (optional_int to_int n lo hi v) ≡ reads_between violates to_int lo hi v
  unfolding optional_int
  reads_accepted n lo hi (integer z) = range_accepted n lo hi z
  reads_accepted n lo hi (string s) = convert_accepted n lo hi (to_int (string s))
  reads_accepted n lo hi (float x) = convert_accepted n lo hi (to_int (float x))
  reads_accepted n lo hi (boolean b) = refl
  reads_accepted n lo hi (items xs) = refl
  reads_accepted n lo hi (mapping d) = refl
  reads_accepted n lo hi null = refl
  reads_accepted n lo hi object = refl

  list_accepted : (v : Option Value) → is_accepted (require_steps v) ≡ is_there gives_steps v
  unfolding require_steps
  list_accepted none = refl
  list_accepted (some (string s)) =
      is_accepted-test (is_empty (clean_parts (split_on b',' s))) no_steps
        (accepted (items (clean_parts (split_on b',' s))))
      ∙ ground (arith, is_empty-clean_parts (split_on b',' s))
  list_accepted (some (items xs)) =
      ground (arith, is_accepted-bind (check_steps 0 xs) (λ _. items xs), steps_accepted 0 xs)
  list_accepted (some (boolean b)) = refl
  list_accepted (some (integer z)) = refl
  list_accepted (some (float x)) = refl
  list_accepted (some (mapping d)) = refl
  list_accepted (some null) = refl
  list_accepted (some object) = refl

  command_test :
      (v : Value)
      → tested
          (λ s. if violates s then refused command_blocked else accepted (some (string s)))
          1000
          v
        ≡ is_command violates v
  unfolding tested
  command_test (string s) = ground arith
  command_test (boolean b) = refl
  command_test (integer z) = refl
  command_test (float x) = refl
  command_test (items xs) = refl
  command_test (mapping d) = refl
  command_test null = refl
  command_test object = refl

  slot_accepted :
      (n : Text) (k : Kind) (v : Option Value)
      → is_accepted (slot violates to_int n k v) ≡ admits violates to_int k v
  unfolding slot admits
  slot_accepted n (required_text e m) v =
      is_accepted-bind (require_str n e m v) (λ s. some (string s)) ∙ text_accepted n e m v
  slot_accepted n (optional_text e m) none = refl
  slot_accepted n (optional_text e m) (some w) =
      is_accepted-bind (require_str n e m (some w)) (λ s. some (string s))
      ∙ text_accepted n e m (some w)
  slot_accepted n required_path v =
      let f : Text → Checked (Option Value) =
        λ s. if has_nul s then refused (implausible n) else accepted (some (string s)) in
      tested_accepted n 400 v f ∙ same_test f 400 is_path v (path_test n)
  slot_accepted n optional_path none = refl
  slot_accepted n optional_path (some w) =
      let f : Text → Checked (Option Value) =
        λ s. if has_nul s then refused (implausible n) else accepted (some (string s)) in
      tested_accepted n 400 (some w) f ∙ path_test n w
  slot_accepted n command v =
      let f : Text → Checked (Option Value) =
        λ s. if violates s then refused command_blocked else accepted (some (string s)) in
      tested_accepted n 1000 v f ∙ same_test f 1000 (is_command violates) v command_test
  slot_accepted n (required_choice m options) v =
      let f : Text → Checked (Option Value) =
        λ s. choose n (λ t. t) options s >>= λ t. accepted (some (string t)) in
      tested_accepted n m v f ∙ same_test f m (names_option m options) v (option_test n m options)
  slot_accepted n (choice c m options d) none = refl
  slot_accepted n (choice c m options d) (some w) =
      tested_accepted n m (some w)
        (λ s. choose n (fold_case c) options s >>= λ t. accepted (some (string t)))
      ∙ folded_test n c m options w
  slot_accepted n (whole d lo hi) none = refl
  slot_accepted n (whole d lo hi) (some w) =
      is_accepted-bind (optional_int to_int n lo hi w) (λ i. some (integer (pos i)))
      ∙ reads_accepted n lo hi w
  slot_accepted n (optional_whole lo hi) none = refl
  slot_accepted n (optional_whole lo hi) (some w) =
      is_accepted-bind (optional_int to_int n lo hi w) (λ i. some (integer (pos i)))
      ∙ reads_accepted n lo hi w
  slot_accepted n flag none = refl
  slot_accepted n flag (some w) =
      is_accepted-bind (require_bool n w) (λ b. some (boolean b)) ∙ flag_accepted n w
  slot_accepted n optional_flag none = refl
  slot_accepted n optional_flag (some w) =
      is_accepted-bind (require_bool n w) (λ b. some (boolean b)) ∙ flag_accepted n w
  slot_accepted n tool_policy v = policy_accepted v
  slot_accepted n steps v = is_accepted-bind (require_steps v) (λ w. some w) ∙ list_accepted v

  accepted_iff_no_error {ℓ} : {A : Type ℓ} (m : Checked A) → is_accepted m ≡ is_none (error_of m)
  accepted_iff_no_error (accepted a) = refl
  accepted_iff_no_error (refused e) = refl

  is_none-or_next : (a b : Option Error) → is_none (or_next a b) ≡ (is_none a && is_none b)
  is_none-or_next none b = refl
  is_none-or_next (some e) b = refl

  no_error-eq :
      (rules : List Rule) (args : Args)
      → is_none (first_error violates to_int rules args)
        ≡ all (λ r. admits violates to_int r.kind (get args r.name)) rules
  unfolding first_error
  no_error-eq [] args = refl
  no_error-eq (r ∷ rules) args =
      let m = slot violates to_int r.name r.kind (get args r.name) in
      rw
        (
          is_none-or_next (error_of m) (first_error violates to_int rules args),
          sym (accepted_iff_no_error m),
          slot_accepted r.name r.kind (get args r.name),
          no_error-eq rules args,
        )
        refl

  -- A tool that has a validator: its arguments are accepted exactly if each argument that the
  -- validator names is, as the caller gave it, one that its kind admits: present where it is
  -- required, a text of the stated length, a path without NUL, a command that the policy does not
  -- refuse, an option up to the case, something that reads as a number within the bounds or as a
  -- flag, lists of tool names, or steps.
  pub validate_accepts_exactly :
      (tool : Text) (rules : List Rule) (args : Args)
      → get validators tool ≡ some rules
      → is_accepted (validate violates to_int tool args)
        ≡ all (λ r. admits violates to_int r.kind (get args r.name)) rules
  validate_accepts_exactly tool rules args g =
      accepted_iff_no_error (validate violates to_int tool args)
      ∙ ap is_none (validate_verdict violates to_int tool rules args g)
      ∙ no_error-eq rules args
