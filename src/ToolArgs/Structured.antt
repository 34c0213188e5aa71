-- ===== src/ToolArgs/Structured.antt =====
-- The checks of the arguments with structure: the tool policy of a subrun, the steps of a workflow.
-- The values of one list of a tool policy: the stripped names.
use ai_agent_starter_kit.ToolArgs.{
  Item, word, thing, Member, members, null_member, plain_member, Value, string, items, mapping,
  null, policy_not_list, policy_too_large, policy_bad_name, bad_step, no_steps, too_many_steps,
  steps_not_list, Checked, refused, accepted, ◌>>=◌,
}
use ai_agent_starter_kit.ToolArgs.Helpers.{is_blank}
use ai_agent_starter_kit.Common.{
  ℕ, ◌+◌, ◌||◌, Option, none, some, List, [], ◌∷◌, ◌++◌, ltb, ◌==◌, if◌then◌else◌, length, is_empty,
  Text, codes, strip,
}
use ai_agent_starter_kit.Common.Dict.{Dict, get}

unfoldable pub policy_names : Text → List Item → Checked (List Item)
unfolding strip
policy_names key [] = accepted []
policy_names key (thing ∷ xs) = refused (policy_bad_name key)
policy_names key (word s ∷ xs) =
    let rest = policy_names key xs in
    if is_blank s || ltb 80 (length s)
    then refused (policy_bad_name key)
    else rest >>= λ names. accepted (word (strip s) ∷ names)

-- One round of the loop over "allow" and "deny": what it adds to the normalized policy.
unfoldable pub policy_part : Text → Option Member → Checked (Dict Member)
unfolding policy_names
policy_part key none = accepted []
policy_part key (some null_member) = accepted []
policy_part key (some plain_member) = refused (policy_not_list key)
policy_part key (some (members xs)) =
    if ltb 20 (length xs)
    then refused (policy_too_large key)
    else policy_names key xs >>= λ names. accepted ((key, members names) ∷ [])

-- The part of `_validate_spawn_subrun_args` on `tool_policy`.
unfoldable pub normalize_policy : Option Value → Checked (Option Value)
unfolding policy_part get
normalize_policy none = accepted none
normalize_policy (some (mapping d)) = do
  allowed ← policy_part (codes "allow") (get d (codes "allow"))
  denied ← policy_part (codes "deny") (get d (codes "deny"))
  accepted (some (mapping (allowed ++ denied)))
normalize_policy (some _) = accepted (some null)

-- `s.split(sep)` for a separator of one character
unfoldable pub split_on : ℕ → Text → List Text
split_on sep [] = [] ∷ []
split_on sep (c ∷ s) = let rest = split_on sep s in if c == sep then [] ∷ rest else push_char c rest
  where
    push_char : ℕ → List Text → List Text
    push_char c [] = (c ∷ []) ∷ []
    push_char c (part ∷ parts) = (c ∷ part) ∷ parts

-- `[s.strip() for s in parts if s.strip()]`
unfoldable pub clean_parts : List Text → List Item
unfolding strip
clean_parts [] = []
clean_parts (s ∷ parts) =
    let rest = clean_parts parts in if is_blank s then rest else word (strip s) ∷ rest

-- The loop over the steps of a list, from the given index.
unfoldable pub check_steps : ℕ → List Item → Checked (Unit {0})
unfolding strip
check_steps i [] = accepted tt
check_steps i (thing ∷ xs) = refused (bad_step i)
check_steps i (word s ∷ xs) =
    let rest = check_steps (i + 1) xs in if is_blank s then refused (bad_step i) else rest

-- The part of `_validate_create_workflow_args` on `steps`.
unfoldable pub require_steps : Option Value → Checked Value
unfolding split_on clean_parts check_steps
require_steps (some (string s)) =
    let parts = clean_parts (split_on b',' s) in
    if is_empty parts then refused no_steps else accepted (items parts)
require_steps (some (items xs)) =
    if is_empty xs
    then refused no_steps
    else if ltb 20 (length xs)
    then refused too_many_steps
    else check_steps 0 xs >>= λ _. accepted (items xs)
require_steps _ = refused steps_not_list
