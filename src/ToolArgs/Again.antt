-- ===== src/ToolArgs/Again.antt =====
-- What a single check has accepted and stored it accepts again.
use ai_agent_starter_kit.ToolArgs.{
  pos, Item, word, thing, Member, members, null_member, plain_member, Value, string, boolean,
  integer, mapping, Error, Checked, refused, accepted, ◌>>=◌, Converted,
}
use ai_agent_starter_kit.ToolArgs.Helpers.{
  is_blank, require_str, require_bool, in_range, optional_int, Case, fold_case, choose,
}
use ai_agent_starter_kit.ToolArgs.Structured.{policy_names, policy_part, normalize_policy}
use ai_agent_starter_kit.ToolArgs.Slots.{bind-accepted, of_accepted}
use ai_agent_starter_kit.ToolArgs.Types.{is_tool_name, is_one_of, is_there, is_option}
use ai_agent_starter_kit.ToolArgs.Scalars.{require_str-ok, choice-fits, optional_int-ok}
use ai_agent_starter_kit.ToolArgs.Lists.{policy_names-ok, policy_parts}
use ai_agent_starter_kit.Common.{
  ℕ, ◌≡◌, refl, ap, ◌∙◌, ◌⊎◌, inl, inr, Bool, true, false, ◌||◌, Option, none, some, List, [], ◌∷◌,
  ◌++◌, arith, ltb, if◌then◌else◌, Bool-cases, length, all, Text, codes, text_eq, text_eq_iff, elem,
  strip,
}
use ai_agent_starter_kit.Common.Dict.{Dict, get}

names_again :
    (key : Text) (ys : List Item) → all is_tool_name ys ≡ true → policy_names key ys ≡ accepted ys
unfolding policy_names
names_again key [] a = refl
names_again key (thing ∷ ys) a = absurd (ground arith)
names_again key (word s ∷ ys) a =
    let kept : strip s ≡ s = (text_eq_iff (strip s) s).0 (ground (arith, a)) in
    let fine : (is_blank s || ltb 80 (length s)) ≡ false = ground (arith, a) in
    rw (fine, names_again key ys (ground (arith, a)), kept) refl

-- One part of a normalized policy: nothing, or the names under the key.
IsPart : Text → Dict Member → Type 0
IsPart key d =
    (d ≡ [])
    ⊎ ((ys : List Item) × (d ≡ (key, members ys) ∷ [])
        × (all is_tool_name ys ≡ true)
        × (ltb 20 (length ys) ≡ false))

policy_part-IsPart :
    (key : Text) (m : Option Member) (d : Dict Member)
    → policy_part key m ≡ accepted d
    → IsPart key d
unfolding IsPart policy_part
policy_part-IsPart key none d h = inl (of_accepted (λ l. l ≡ []) h refl)
policy_part-IsPart key (some null_member) d h = inl (of_accepted (λ l. l ≡ []) h refl)
policy_part-IsPart key (some plain_member) d h = absurd (ground arith)
policy_part-IsPart key (some (members xs)) d h = elim (Bool-cases (ltb 20 (length xs))) [
  | inl e ↦ absurd (ground (arith, h, e))
  | inr e ↦
      let (ys, found, same) =
        bind-accepted (policy_names key xs) (λ l. accepted ((key, members l) ∷ [])) (rw e at h) in
      let (clean, count) = policy_names-ok key xs ys found in
      inr (ys, of_accepted (λ l. l ≡ (key, members ys) ∷ []) same refl, clean, rw count e)
]

part_again :
    (key : Text) (ys : List Item)
    → all is_tool_name ys ≡ true
    → ltb 20 (length ys) ≡ false
    → policy_part key (some (members ys)) ≡ accepted ((key, members ys) ∷ [])
unfolding policy_part
part_again key ys a e = rw (e, names_again key ys a) refl

parts_again :
    (a b : Dict Member)
    → IsPart (codes "allow") a
    → IsPart (codes "deny") b
    → normalize_policy (some (mapping (a ++ b))) ≡ accepted (some (mapping (a ++ b)))
unfolding IsPart normalize_policy get text_eq
parts_again a b (inl p) (inl q) = rw (p, q) (unfold policy_part in refl)
parts_again a b (inl p) (inr (ys, q, c, e)) =
    rw (p, q, part_again (codes "deny") ys c e) (unfold policy_part in refl)
parts_again a b (inr (xs, p, c, e)) (inl q) =
    rw (p, q, part_again (codes "allow") xs c e) (unfold policy_part in refl)
parts_again a b (inr (xs, p, c, e)) (inr (ys, q, f, g)) =
    rw (p, q, part_again (codes "allow") xs c e, part_again (codes "deny") ys f g) refl

pub policy_again :
    (v w : Option Value) → normalize_policy v ≡ accepted w → normalize_policy w ≡ accepted w
unfolding normalize_policy
policy_again none w h = of_accepted (λ o. normalize_policy o ≡ accepted o) h refl
policy_again (some (mapping d)) w h =
    let (a, b, first, second, same) = policy_parts d w h in
    rw same (
      parts_again a b (policy_part-IsPart (codes "allow") (get d (codes "allow")) a first)
        (policy_part-IsPart (codes "deny") (get d (codes "deny")) b second))
policy_again (some _) w h = of_accepted (λ o. normalize_policy o ≡ accepted o) h refl

-- The check of a text that `_require_str_arg` has accepted before.
require_str_again :
    (n : Text) (e : Bool) (m : ℕ) (v : Option Value) (s : Text)
    → require_str n e m v ≡ accepted s
    → require_str n e m (some (string s)) ≡ accepted s
require_str_again n e m v s h = rw (require_str-ok n e m v s h).0 at h

-- A text that is stored as it was read.
pub text_again :
    (n : Text) (e : Bool) (m : ℕ) (v w : Option Value) (f : Text → Checked (Option Value))
    → ((s : Text) (w : Option Value) → f s ≡ accepted w → w ≡ some (string s))
    → (require_str n e m v >>= f) ≡ accepted w
    → (s : Text) × (w ≡ some (string s))
      × ((require_str n e m (some (string s)) >>= f) ≡ accepted (some (string s)))
text_again n e m v w f keeps h =
    let (s, found, rest) = bind-accepted (require_str n e m v) f h in
    let eq : w ≡ some (string s) = keeps s w rest in
    (s, eq, rw (require_str_again n e m v s found) (rest ∙ ap (λ o. accepted o) eq))

pub kept_text :
    (s : Text) (w : Option Value)
    → ◌≡◌ {A = Checked (Option Value)} (accepted (some (string s))) (accepted w)
    → w ≡ some (string s)
kept_text s w h = of_accepted (λ o. o ≡ some (string s)) h refl

pub tested_again :
    (bad : Text → Bool) (why : Error) (s : Text) (w : Option Value)
    → (if bad s then refused why else accepted (some (string s))) ≡ accepted w
    → w ≡ some (string s)
tested_again bad why s w h = elim (Bool-cases (bad s)) [
  | inl e ↦ absurd (ground (arith, h, e))
  | inr e ↦ of_accepted (λ o. o ≡ some (string s)) (rw e at h) refl
]

pub choose_same :
    (n : Text) (options : List Text) (s : Text) (w : Option Value)
    → (choose n (λ t. t) options s >>= λ t. accepted (some (string t))) ≡ accepted w
    → w ≡ some (string s)
unfolding choose
choose_same n options s w h = elim (Bool-cases (elem s options)) [
  | inl e ↦ of_accepted (λ o. o ≡ some (string s)) (rw e at h) refl
  | inr e ↦ absurd (ground (arith, h, e))
]

option-IsOption :
    (c : Case) (m : ℕ) (t : Text) (options : List Text)
    → all (is_option c m) options ≡ true
    → elem t options ≡ true
    → is_option c m t ≡ true
unfolding elem
option-IsOption c m t [] a e = absurd (ground arith)
option-IsOption c m t (o ∷ options) a e = elim (Bool-cases (text_eq t o)) [
  | inl p ↦ let same : t ≡ o = (text_eq_iff t o).0 p in rw same (ground (arith, a))
  | inr p ↦ option-IsOption c m t options (ground (arith, a)) (ground (arith, e, p))
]

-- An option that was chosen is chosen again.
pub choice_again :
    (n : Text) (c : Case) (m : ℕ) (options : List Text) (t : Text)
    → all (is_option c m) options ≡ true
    → elem t options ≡ true
    → (require_str n true m (some (string t)) >>= λ s.
        choose n (fold_case c) options s >>= λ t. accepted (some (string t)))
      ≡ accepted (some (string t))
unfolding require_str choose
choice_again n c m options t a e =
    let o : is_option c m t ≡ true = option-IsOption c m t options a e in
    let folded : fold_case c t ≡ t = (text_eq_iff (fold_case c t) t).0 (ground (arith, o)) in
    let shown : is_blank t ≡ false = ground (arith, o) in
    let short : ltb m (length t) ≡ false = ground (arith, o) in rw (shown, short, folded, e) refl

one_of-text :
    (options : List Text) (w : Option Value)
    → is_there (is_one_of options) w ≡ true
    → (t : Text) × (w ≡ some (string t)) × (elem t options ≡ true)
one_of-text options none h = absurd (ground arith)
one_of-text options (some (string t)) h = (t, refl, h)
one_of-text options (some _) h = absurd (ground arith)

pub chosen_again :
    (n : Text) (c : Case) (m : ℕ) (options : List Text) (v : Value) (w : Option Value)
    → all (is_option c m) options ≡ true
    → (require_str n true m (some v) >>= λ s.
        choose n (fold_case c) options s >>= λ t. accepted (some (string t)))
      ≡ accepted w
    → (t : Text) × (w ≡ some (string t))
      × ((require_str n true m (some (string t)) >>= λ s.
            choose n (fold_case c) options s >>= λ t. accepted (some (string t)))
          ≡ accepted (some (string t)))
chosen_again n c m options v w a h =
    let (t, same, e) = one_of-text options w (choice-fits n m (fold_case c) options (some v) w h) in
    (t, same, choice_again n c m options t a e)

pub whole_again :
    (to_int : Value → Converted) (n : Text) (lo hi : ℕ) (v : Value) (w : Option Value)
    → (optional_int to_int n lo hi v >>= λ i. accepted (some (integer (pos i)))) ≡ accepted w
    → (i : ℕ) × (w ≡ some (integer (pos i)))
      × ((optional_int to_int n lo hi (integer (pos i)) >>= λ i. accepted (some (integer (pos i))))
          ≡ accepted (some (integer (pos i))))
whole_again to_int n lo hi v w h =
    let (i, found, same) =
      bind-accepted (optional_int to_int n lo hi v) (λ i. accepted (some (integer (pos i)))) h in
    (
      i,
      of_accepted (λ o. o ≡ some (integer (pos i))) same refl,
      unfold optional_int in_range in ground (arith, optional_int-ok to_int n lo hi v i found),
    )

pub flag_again :
    (n : Text) (v : Value) (w : Option Value)
    → (require_bool n v >>= λ b. accepted (some (boolean b))) ≡ accepted w
    → (b : Bool) × (w ≡ some (boolean b))
flag_again n v w h =
    let (b, found, same) = bind-accepted (require_bool n v) (λ b. accepted (some (boolean b))) h in
    (b, of_accepted (λ o. o ≡ some (boolean b)) same refl)
