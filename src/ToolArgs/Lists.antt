-- ===== src/ToolArgs/Lists.antt =====
-- What the checks of a tool policy and of the steps of a workflow accept has its type.
-- The normalized list of a policy has names only, and as many as were given.
use ai_agent_starter_kit.ToolArgs.{
  Item, word, thing, Member, members, null_member, plain_member, Value, string, items, mapping,
  Checked, accepted, ◌>>=◌,
}
use ai_agent_starter_kit.ToolArgs.Helpers.{is_blank}
use ai_agent_starter_kit.ToolArgs.Structured.{
  policy_names, policy_part, normalize_policy, split_on, clean_parts, check_steps, require_steps,
}
use ai_agent_starter_kit.ToolArgs.Slots.{bind-accepted, of_accepted}
use ai_agent_starter_kit.ToolArgs.Types.{
  is_step, is_tool_name, is_policy_entry, is_policy, are_steps, if_there,
}
use ai_agent_starter_kit.ToolArgs.Scalars.{length-strip-le}
use ai_agent_starter_kit.Common.{
  ℕ, suc, ◌+◌, ◌≡◌, refl, inl, inr, true, ◌||◌, Option, none, some, List, [], ◌∷◌, ◌++◌, arith, ltb,
  Bool-cases, length, is_empty, all, Text, codes, text_eq, text_eq_refl, strip, strip-strip,
}
use ai_agent_starter_kit.Common.Dict.{Dict, get}

pub policy_names-ok :
    (key : Text) (xs ys : List Item)
    → policy_names key xs ≡ accepted ys
    → (all is_tool_name ys ≡ true) × (length ys ≡ length xs)
unfolding policy_names text_eq
policy_names-ok key [] ys h =
    of_accepted (λ l. (all is_tool_name l ≡ true) × (length l ≡ 0)) h (refl, refl)
policy_names-ok key (thing ∷ xs) ys h = absurd (ground arith)
policy_names-ok key (word s ∷ xs) ys h = elim (Bool-cases (is_blank s || ltb 80 (length s))) [
  | inl e ↦ absurd (ground (arith, h, e))
  | inr e ↦
      let (rest, found, same) =
        bind-accepted (policy_names key xs) (λ l. accepted (word (strip s) ∷ l)) (rw e at h) in
      let (clean, count) = policy_names-ok key xs rest found in
      of_accepted (λ l. (all is_tool_name l ≡ true) × (length l ≡ suc (length xs))) same
        (
          rw (strip-strip s, text_eq_refl (strip s), clean) (ground (arith, e, length-strip-le s)),
          ground (arith, count),
        )
]

policy_part-ok :
    (key : Text) (m : Option Member) (d : Dict Member)
    → (text_eq key (codes "allow") || text_eq key (codes "deny")) ≡ true
    → policy_part key m ≡ accepted d
    → all is_policy_entry d ≡ true
unfolding policy_part
policy_part-ok key none d k h = of_accepted (λ l. all is_policy_entry l ≡ true) h refl
policy_part-ok key (some null_member) d k h = of_accepted (λ l. all is_policy_entry l ≡ true) h refl
policy_part-ok key (some plain_member) d k h = absurd (ground arith)
policy_part-ok key (some (members xs)) d k h = elim (Bool-cases (ltb 20 (length xs))) [
  | inl e ↦ absurd (ground (arith, h, e))
  | inr e ↦
      let (ys, found, same) =
        bind-accepted (policy_names key xs) (λ l. accepted ((key, members l) ∷ [])) (rw e at h) in
      let (clean, count) = policy_names-ok key xs ys found in
      of_accepted (λ l. all is_policy_entry l ≡ true) same
        (rw (k, clean) (ground (arith, e, count)))
]

all-append :
    (d e : Dict Member)
    → all is_policy_entry d ≡ true
    → all is_policy_entry e ≡ true
    → all is_policy_entry (d ++ e) ≡ true
all-append [] e h k = k
all-append (x ∷ d) e h k = ground (arith, h, all-append d e, k)

-- The two parts of a policy that is accepted.
pub policy_parts :
    (d : Dict Member) (w : Option Value)
    → normalize_policy (some (mapping d)) ≡ accepted w
    → (a : Dict Member) × (b : Dict Member) × (policy_part (codes "allow") (get d (codes "allow"))
        ≡ accepted a)
      × (policy_part (codes "deny") (get d (codes "deny")) ≡ accepted b)
      × (w ≡ some (mapping (a ++ b)))
unfolding normalize_policy
policy_parts d w h =
    let (a, first, rest) =
      bind-accepted (policy_part (codes "allow") (get d (codes "allow"))) with_denied h in
    let (b, second, same) =
      bind-accepted (policy_part (codes "deny") (get d (codes "deny")))
        (λ l. accepted (some (mapping (a ++ l)))) rest in
    (a, b, first, second, of_accepted (λ o. o ≡ some (mapping (a ++ b))) same refl)
  where
    with_denied : Dict Member → Checked (Option Value)
    with_denied a = policy_part (codes "deny") (get d (codes "deny")) >>= λ l.
        accepted (some (mapping (a ++ l)))

pub policy-fits :
    (v w : Option Value) → normalize_policy v ≡ accepted w → if_there is_policy w ≡ true
unfolding normalize_policy
policy-fits none w h = of_accepted (λ o. if_there is_policy o ≡ true) h refl
policy-fits (some (mapping d)) w h =
    let (a, b, first, second, same) = policy_parts d w h in
    rw same (
      all-append a b
        (policy_part-ok (codes "allow") (get d (codes "allow")) a (unfold text_eq in refl) first)
        (policy_part-ok (codes "deny") (get d (codes "deny")) b (unfold text_eq in refl) second))
policy-fits (some _) w h = of_accepted (λ o. if_there is_policy o ≡ true) h refl

clean_parts-steps : (parts : List Text) → all is_step (clean_parts parts) ≡ true
unfolding clean_parts
clean_parts-steps [] = refl
clean_parts-steps (s ∷ parts) = ground (arith, clean_parts-steps parts, strip-strip s)

check_steps-ok : (i : ℕ) (xs : List Item) → check_steps i xs ≡ accepted tt → all is_step xs ≡ true
unfolding check_steps
check_steps-ok i [] h = refl
check_steps-ok i (thing ∷ xs) h = absurd (ground arith)
check_steps-ok i (word s ∷ xs) h = ground (arith, h, check_steps-ok (i + 1) xs)

pub steps-fit : (v : Option Value) (w : Value) → require_steps v ≡ accepted w → are_steps w ≡ true
unfolding require_steps
steps-fit (some (string s)) w h =
    let parts : List Item = clean_parts (split_on b',' s) in
    elim (Bool-cases (is_empty parts)) [
      | inl e ↦ absurd (ground (arith, h, e))
      | inr e ↦
          of_accepted (λ v. are_steps v ≡ true) (rw e at h)
            (rw e (clean_parts-steps (split_on b',' s)))
    ]
steps-fit (some (items xs)) w h = elim (Bool-cases (is_empty xs)) [
  | inl e ↦ absurd (ground (arith, h, e))
  | inr e ↦ elim (Bool-cases (ltb 20 (length xs))) [
    | inl long ↦ absurd (ground (arith, h, e, long))
    | inr short ↦
        let (u, found, same) =
          bind-accepted (check_steps 0 xs) (λ _. accepted (items xs)) (rw (e, short) at h) in
        of_accepted (λ v. are_steps v ≡ true) same (rw e (check_steps-ok 0 xs found))
  ]
]
steps-fit _ w h = absurd (ground arith)
