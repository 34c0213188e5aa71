-- ===== src/ToolArgs/Stable.antt =====
-- Accepted arguments are accepted again, unchanged.
-- The kind of the rule for the steps of a workflow.
use ai_agent_starter_kit.ToolArgs.{
  Value, string, Args, implausible, command_blocked, validator_missing, refused, accepted, ◌>>=◌,
  Converted,
}
use ai_agent_starter_kit.ToolArgs.Helpers.{has_nul, require_bool, in_range, optional_int, choose}
use ai_agent_starter_kit.ToolArgs.Rules.{
  Kind, required_text, optional_text, required_path, optional_path, command, required_choice,
  choice, whole, optional_whole, flag, optional_flag, tool_policy, steps, Rule, slot,
}
use ai_agent_starter_kit.ToolArgs.Tools.{validators, is_mcp, validate}
use ai_agent_starter_kit.ToolArgs.Slots.{of_accepted, AreChecked, run-checked, checked-run}
use ai_agent_starter_kit.ToolArgs.Types.{is_sane, are_sane, sane_rules}
use ai_agent_starter_kit.ToolArgs.Again.{
  policy_again, text_again, kept_text, tested_again, choose_same, choice_again, chosen_again,
  whole_again, flag_again,
}
use ai_agent_starter_kit.Common.{
  subst, ◌≡◌, refl, inl, inr, Bool, true, false, not, ◌||◌, Option, none, some, List, [], ◌∷◌,
  arith, if◌then◌else◌, Bool-cases, Option-cases, all, Text, codes, text_eq, text_eq_iff,
}
use ai_agent_starter_kit.Common.Dict.{Dict, get}

abbrev is_steps : Kind → Bool
is_steps steps = true
is_steps _ = false

module _ (violates : Text → Bool) (to_int : Value → Converted) where
  slot_again :
      (n : Text) (k : Kind) (v w : Option Value)
      → is_sane k ≡ true
      → is_steps k ≡ false
      → slot violates to_int n k v ≡ accepted w
      → slot violates to_int n k w ≡ accepted w
  unfolding slot
  slot_again n (required_text e m) v w u p h =
      let (s, same, again) = text_again n e m v w (λ s. accepted (some (string s))) kept_text h in
      rw same again
  slot_again n (optional_text e m) none w u p h =
      of_accepted (λ o. slot violates to_int n (optional_text e m) o ≡ accepted o) h refl
  slot_again n (optional_text e m) (some v) w u p h =
      let (s, same, again) =
        text_again n e m (some v) w (λ s. accepted (some (string s))) kept_text h in
      rw same again
  slot_again n required_path v w u p h =
      let (s, same, again) =
        text_again n true 400 v w
          (λ s. if has_nul s then refused (implausible n) else accepted (some (string s)))
          (tested_again has_nul (implausible n)) h in
      rw same again
  slot_again n optional_path none w u p h =
      of_accepted (λ o. slot violates to_int n optional_path o ≡ accepted o) h refl
  slot_again n optional_path (some v) w u p h =
      let (s, same, again) =
        text_again n true 400 (some v) w
          (λ s. if has_nul s then refused (implausible n) else accepted (some (string s)))
          (tested_again has_nul (implausible n)) h in
      rw same again
  slot_again n command v w u p h =
      let (s, same, again) =
        text_again n true 1000 v w
          (λ s. if violates s then refused command_blocked else accepted (some (string s)))
          (tested_again violates command_blocked) h in
      rw same again
  slot_again n (required_choice m options) v w u p h =
      let (s, same, again) =
        text_again n true m v w
          (λ s. choose n (λ t. t) options s >>= λ t. accepted (some (string t)))
          (choose_same n options) h in
      rw same again
  slot_again n (choice c m options none) none w u p h =
      of_accepted (λ o. slot violates to_int n (choice c m options none) o ≡ accepted o) h refl
  slot_again n (choice c m options (some d)) none w u p h =
      of_accepted (λ o. slot violates to_int n (choice c m options (some d)) o ≡ accepted o) h
        (choice_again n c m options d (ground (arith, u)) (ground (arith, u)))
  slot_again n (choice c m options none) (some v) w u p h =
      let (t, same, again) = chosen_again n c m options v w u h in rw same again
  slot_again n (choice c m options (some d)) (some v) w u p h =
      let (t, same, again) = chosen_again n c m options v w (ground (arith, u)) h in rw same again
  slot_again n (whole d lo hi) none w u p h =
      of_accepted (λ o. slot violates to_int n (whole d lo hi) o ≡ accepted o) h
        (unfold optional_int in_range in ground (arith, u))
  slot_again n (whole d lo hi) (some v) w u p h =
      let (i, same, again) = whole_again to_int n lo hi v w h in rw same again
  slot_again n (optional_whole lo hi) none w u p h =
      of_accepted (λ o. slot violates to_int n (optional_whole lo hi) o ≡ accepted o) h refl
  slot_again n (optional_whole lo hi) (some v) w u p h =
      let (i, same, again) = whole_again to_int n lo hi v w h in rw same again
  slot_again n flag none w u p h =
      of_accepted (λ o. slot violates to_int n flag o ≡ accepted o) h (unfold require_bool in refl)
  slot_again n flag (some v) w u p h =
      let (b, same) = flag_again n v w h in rw same (unfold require_bool in refl)
  slot_again n optional_flag none w u p h =
      of_accepted (λ o. slot violates to_int n optional_flag o ≡ accepted o) h refl
  slot_again n optional_flag (some v) w u p h =
      let (b, same) = flag_again n v w h in rw same (unfold require_bool in refl)
  slot_again n tool_policy v w u p h = policy_again v w h
  slot_again n steps v w u p h = absurd (ground arith)

  checked_again :
      (rules : List Rule) (args out : Args)
      → all (λ r. is_sane r.kind) rules ≡ true
      → all (λ r. not (is_steps r.kind)) rules ≡ true
      → AreChecked violates to_int args out rules
      → AreChecked violates to_int out out rules
  checked_again [] args out u p c = tt
  checked_again (r ∷ rules) args out u p c = (
    slot_again r.name r.kind (get args r.name) (get out r.name) (ground (arith, u))
        (ground (arith, p)) c.0,
    checked_again rules args out (ground (arith, u)) (ground (arith, p)) c.1,
  )

-- Only the validator of `create_workflow` has a rule for steps.
steps_rules :
    all
      (λ e. text_eq e.0 (codes "create_workflow") || all (λ r. not (is_steps r.kind)) e.1)
      validators
    ≡ true
unfolding text_eq
steps_rules = refl

without_steps :
    (d : Dict (List Rule)) (k t : Text) (rules : List Rule)
    → all (λ e. text_eq e.0 t || all (λ r. not (is_steps r.kind)) e.1) d ≡ true
    → text_eq k t ≡ false
    → get d k ≡ some rules
    → all (λ r. not (is_steps r.kind)) rules ≡ true
unfolding get
without_steps [] k t rules a n g = cc
without_steps ((j, w) ∷ d) k t rules a n g = elim (Bool-cases (text_eq j k)) [
  | inl e ↦
      let same : j ≡ k = (text_eq_iff j k).0 e in
      let other : text_eq j t ≡ false = rw same n in
      let found : w ≡ rules = ground (arith, g, e) in
      subst (λ l. all (λ r. not (is_steps r.kind)) l ≡ true) found (ground (arith, a, other))
  | inr e ↦ without_steps d k t rules (ground (arith, a)) n (ground (arith, g, e))
]

-- Accepted arguments of any tool but `create_workflow` are a fixed point: validated again they are
-- accepted and stay as they are.
pub validate-validate :
    (violates : Text → Bool) (to_int : Value → Converted) (tool : Text) (args out : Args)
    → text_eq tool (codes "create_workflow") ≡ false
    → validate violates to_int tool args ≡ accepted out
    → validate violates to_int tool out ≡ accepted out
unfolding validate
validate-validate violates to_int tool args out n h = elim (Option-cases (get validators tool)) [
  | inl e ↦ rw e (unlisted (is_mcp tool) (rw e at h))
  | inr (rules, e) ↦
      let u : are_sane rules ≡ true = sane_rules tool rules e in
      let checked =
        (run-checked violates to_int rules args out (ground (arith, u)) (rw e at h)).0 in
      rw e (
        checked-run violates to_int rules out (
          checked_again violates to_int rules args out (ground (arith, u))
            (without_steps validators tool (codes "create_workflow") rules steps_rules n e)
            checked))
]
  where
    unlisted :
        (mcp : Bool)
        → (if mcp then accepted args else refused validator_missing) ≡ accepted out
        → (if mcp then accepted out else refused validator_missing) ≡ accepted out
    unlisted true q = refl
    unlisted false q = absurd (ground arith)
