-- ===== src/ToolArgs/Judging.antt =====
-- Each check accepts exactly what it is described to admit.
use ai_agent_starter_kit.ToolArgs.{
  ℤ, pos, negsuc, Item, word, thing, Member, members, null_member, plain_member, Value, string,
  boolean, integer, float, items, mapping, null, object, Error, policy_too_large, policy_bad_name,
  Checked, refused, accepted, ◌>>=◌, Converted, converted, not_a_number, overflows,
}
use ai_agent_starter_kit.ToolArgs.Helpers.{is_blank, require_str, require_bool, in_range, convert}
use ai_agent_starter_kit.ToolArgs.Structured.{
  policy_names, policy_part, normalize_policy, clean_parts, check_steps,
}
use ai_agent_starter_kit.ToolArgs.Types.{is_step, is_text, if_there, is_there}
use ai_agent_starter_kit.ToolArgs.Admits.{
  is_filled, is_between, converts_between, reads_as_flag, is_name, is_name_list, is_tool_policy,
}
use ai_agent_starter_kit.Common.{
  ℕ, zero, suc, ◌+◌, ◌≡◌, refl, ◌∙◌, Bool, true, false, not, ◌&&◌, ◌||◌, Option, none, some, List,
  [], ◌∷◌, ◌++◌, arith, ltb, if◌then◌else◌, length, is_empty, any, all, Text, codes, elem, strip,
}
use ai_agent_starter_kit.Common.Dict.{Dict, get}

abbrev pub is_accepted {ℓ} : {A : Type ℓ} → Checked A → Bool
is_accepted (accepted a) = true
is_accepted (refused e) = false

-- What is done with the result of a check does not refuse it.
pub is_accepted-bind {ℓ κ} :
    {A : Type ℓ} {B : Type κ} (m : Checked A) (f : A → B)
    → is_accepted (m >>= λ a. accepted (f a)) ≡ is_accepted m
is_accepted-bind (accepted a) f = refl
is_accepted-bind (refused e) f = refl

pub is_accepted-test {ℓ} :
    {A : Type ℓ} (b : Bool) (e : Error) (m : Checked A)
    → is_accepted (if b then refused e else m) ≡ (not b && is_accepted m)
is_accepted-test true e m = refl
is_accepted-test false e m = refl

pub text_accepted :
    (n : Text) (e : Bool) (m : ℕ) (v : Option Value)
    → is_accepted (require_str n e m v) ≡ is_there (is_text e m) v
unfolding require_str
text_accepted n e m none = refl
text_accepted n e m (some (string s)) = ground arith
text_accepted n e m (some (boolean b)) = refl
text_accepted n e m (some (integer z)) = refl
text_accepted n e m (some (float x)) = refl
text_accepted n e m (some (items xs)) = refl
text_accepted n e m (some (mapping d)) = refl
text_accepted n e m (some null) = refl
text_accepted n e m (some object) = refl

-- A filled text that passes one more test.
unfoldable pub tested {ℓ} : {A : Type ℓ} → (Text → Checked A) → ℕ → Value → Bool
tested f m (string s) = is_filled m s && is_accepted (f s)
tested f m _ = false

pub tested_accepted {ℓ} :
    {A : Type ℓ} (n : Text) (m : ℕ) (v : Option Value) (f : Text → Checked A)
    → is_accepted (require_str n true m v >>= f) ≡ is_there (tested f m) v
unfolding require_str tested
tested_accepted n m none f = refl
tested_accepted n m (some (string s)) f = ground arith
tested_accepted n m (some (boolean b)) f = refl
tested_accepted n m (some (integer z)) f = refl
tested_accepted n m (some (float x)) f = refl
tested_accepted n m (some (items xs)) f = refl
tested_accepted n m (some (mapping d)) f = refl
tested_accepted n m (some null) f = refl
tested_accepted n m (some object) f = refl

-- The test after `_require_str_arg` may be stated by what it asks of the text.
pub same_test {ℓ} :
    {A : Type ℓ} (f : Text → Checked A) (m : ℕ) (p : Value → Bool) (v : Option Value)
    → ((w : Value) → tested f m w ≡ p w)
    → is_there (tested f m) v ≡ is_there p v
same_test f m p none h = refl
same_test f m p (some w) h = h w

pub range_accepted :
    (n : Text) (lo hi : ℕ) (z : ℤ) → is_accepted (in_range n lo hi z) ≡ is_between lo hi z
unfolding in_range
range_accepted n lo hi (pos k) = ground arith
range_accepted n lo hi (negsuc k) = refl

pub convert_accepted :
    (n : Text) (lo hi : ℕ) (c : Converted)
    → is_accepted (convert n lo hi c) ≡ converts_between lo hi c
unfolding convert
convert_accepted n lo hi (converted z) = range_accepted n lo hi z
convert_accepted n lo hi not_a_number = refl
convert_accepted n lo hi overflows = refl

pub flag_accepted : (n : Text) (v : Value) → is_accepted (require_bool n v) ≡ reads_as_flag v
unfolding require_bool elem
flag_accepted n (string s) = ground arith
flag_accepted n (boolean b) = refl
flag_accepted n (integer (pos zero)) = refl
flag_accepted n (integer (pos (suc zero))) = refl
flag_accepted n (integer (pos (suc (suc k)))) = ground arith
flag_accepted n (integer (negsuc k)) = refl
flag_accepted n (float x) = refl
flag_accepted n (items xs) = refl
flag_accepted n (mapping d) = refl
flag_accepted n null = refl
flag_accepted n object = refl

names_accepted : (key : Text) (xs : List Item) → is_accepted (policy_names key xs) ≡ all is_name xs
unfolding policy_names
names_accepted key [] = refl
names_accepted key (thing ∷ xs) = refl
names_accepted key (word s ∷ xs) =
    is_accepted-test (is_blank s || ltb 80 (length s)) (policy_bad_name key)
      (policy_names key xs >>= λ names. accepted (word (strip s) ∷ names))
    ∙ ground (
      arith,
      is_accepted-bind (policy_names key xs) (λ names. word (strip s) ∷ names),
      names_accepted key xs,
    )

part_accepted : (key : Text) (v : Option Member) → is_accepted (policy_part key v) ≡ is_name_list v
unfolding policy_part
part_accepted key none = refl
part_accepted key (some null_member) = refl
part_accepted key (some plain_member) = refl
part_accepted key (some (members xs)) =
    let listed : List Item → Dict Member = λ names. (key, members names) ∷ [] in
    is_accepted-test (ltb 20 (length xs)) (policy_too_large key)
      (policy_names key xs >>= λ names. accepted ((key, members names) ∷ []))
    ∙ ground (arith, is_accepted-bind (policy_names key xs) listed, names_accepted key xs)

both_accepted :
    (m k : Checked (Dict Member))
    → is_accepted (m >>= λ allowed. k >>= λ denied. accepted (some (mapping (allowed ++ denied))))
      ≡ (is_accepted m && is_accepted k)
both_accepted (accepted a) (accepted b) = refl
both_accepted (accepted a) (refused e) = refl
both_accepted (refused e) k = refl

pub policy_accepted :
    (v : Option Value) → is_accepted (normalize_policy v) ≡ if_there is_tool_policy v
unfolding normalize_policy
policy_accepted none = refl
policy_accepted (some (mapping d)) =
    both_accepted (policy_part (codes "allow") (get d (codes "allow")))
      (policy_part (codes "deny") (get d (codes "deny")))
    ∙ rw
        (
          part_accepted (codes "allow") (get d (codes "allow")),
          part_accepted (codes "deny") (get d (codes "deny")),
        )
        refl
policy_accepted (some (string s)) = refl
policy_accepted (some (boolean b)) = refl
policy_accepted (some (integer z)) = refl
policy_accepted (some (float x)) = refl
policy_accepted (some (items xs)) = refl
policy_accepted (some null) = refl
policy_accepted (some object) = refl

pub is_empty-clean_parts :
    (parts : List Text) → not (is_empty (clean_parts parts)) ≡ any (λ s. not (is_blank s)) parts
unfolding clean_parts
is_empty-clean_parts [] = refl
is_empty-clean_parts (s ∷ parts) = ground (arith, is_empty-clean_parts parts)

pub steps_accepted : (i : ℕ) (xs : List Item) → is_accepted (check_steps i xs) ≡ all is_step xs
unfolding check_steps
steps_accepted i [] = refl
steps_accepted i (thing ∷ xs) = refl
steps_accepted i (word s ∷ xs) = ground (arith, steps_accepted (i + 1) xs)
