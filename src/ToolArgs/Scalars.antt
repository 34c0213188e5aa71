-- ===== src/ToolArgs/Scalars.antt =====
-- What the checks of texts, numbers and flags accept has the type they ask for.
use ai_agent_starter_kit.ToolArgs.{
  ℤ, pos, negsuc, Value, string, boolean, integer, float, Error, implausible, refused, accepted,
  ◌>>=◌, Converted, converted, not_a_number, overflows,
}
use ai_agent_starter_kit.ToolArgs.Helpers.{
  is_blank, has_nul, require_str, require_bool, in_range, convert, optional_int, choose,
}
use ai_agent_starter_kit.ToolArgs.Slots.{bind-accepted, of_accepted}
use ai_agent_starter_kit.ToolArgs.Types.{
  is_text, is_path, is_one_of, is_whole, is_boolean, if_there, is_there,
}
use ai_agent_starter_kit.Common.{
  ℕ, ◌≤◌, ◌≡◌, refl, inl, inr, Bool, true, false, ◌&&◌, Option, none, some, List, [], ◌∷◌, arith,
  leb, if◌then◌else◌, Bool-cases, length, Text, elem, lstrip, rstrip, strip,
}

pub require_str-ok :
    (n : Text) (e : Bool) (m : ℕ) (v : Option Value) (s : Text)
    → require_str n e m v ≡ accepted s
    → (v ≡ some (string s)) × ((e && is_blank s) ≡ false) × (length s ≤ m)
unfolding require_str
require_str-ok n e m (some (string t)) s h =
    let same : t ≡ s = ground (arith, h) in
    rw same (refl, ground (arith, h, same), ground (arith, h, same))
require_str-ok n e m _ s h = absurd (ground arith)

length-lstrip-le : (s : Text) → length (lstrip s) ≤ length s
unfolding lstrip
length-lstrip-le [] = omega arith
length-lstrip-le (c ∷ s) = ground (arith, length-lstrip-le s)

length-rstrip-le : (s : Text) → length (rstrip s) ≤ length s
unfolding rstrip
length-rstrip-le [] = omega arith
length-rstrip-le (c ∷ s) = ground (arith, length-rstrip-le s)

pub length-strip-le : (s : Text) → length (strip s) ≤ length s
unfolding strip
length-strip-le s = omega (arith, length-rstrip-le (lstrip s), length-lstrip-le s)

pub text-fits :
    (n : Text) (e : Bool) (m : ℕ) (v w : Option Value)
    → (require_str n e m v >>= λ s. accepted (some (string s))) ≡ accepted w
    → is_there (is_text e m) w ≡ true
text-fits n e m v w h =
    let (s, found, same) =
      bind-accepted (require_str n e m v) (λ s. accepted (some (string s))) h in
    let (old, shown, short) = require_str-ok n e m v s found in
    of_accepted (λ o. is_there (is_text e m) o ≡ true) same (ground (arith, shown, short))

-- A text that passes one more test than `_require_str_arg` makes.
pub tested-fits :
    (n : Text) (m : ℕ) (v w : Option Value) (bad : Text → Bool) (why : Error)
    → (require_str n true m v >>= λ s. if bad s then refused why else accepted (some (string s)))
      ≡ accepted w
    → (s : Text) × (w ≡ some (string s)) × (is_blank s ≡ false) × (length s ≤ m) × (bad s ≡ false)
tested-fits n m v w bad why h =
    let (s, found, same) =
      bind-accepted (require_str n true m v)
        (λ s. if bad s then refused why else accepted (some (string s))) h in
    let (old, shown, short) = require_str-ok n true m v s found in
    let fine : bad s ≡ false = ground (arith, same) in
    (s, ground (arith, same, fine), ground (arith, shown), short, fine)

pub path-fits :
    (n : Text) (v w : Option Value)
    → (require_str n true 400 v >>= λ s.
        if has_nul s then refused (implausible n) else accepted (some (string s)))
      ≡ accepted w
    → is_there is_path w ≡ true
path-fits n v w h =
    let (s, same, shown, short, fine) = tested-fits n 400 v w has_nul (implausible n) h in
    rw (same, shown, fine) (ground (arith, short))

pub choose-ok :
    (n : Text) (fold : Text → Text) (options : List Text) (s t : Text)
    → choose n fold options s ≡ accepted t
    → elem t options ≡ true
unfolding choose
choose-ok n fold options s t h = elim (Bool-cases (elem (fold s) options)) [
  | inl e ↦ of_accepted (λ l. elem l options ≡ true) (rw e at h) e
  | inr e ↦ absurd (ground (arith, h, e))
]

pub choice-fits :
    (n : Text) (m : ℕ) (fold : Text → Text) (options : List Text) (v w : Option Value)
    → (require_str n true m v >>= λ s. choose n fold options s >>= λ t. accepted (some (string t)))
      ≡ accepted w
    → is_there (is_one_of options) w ≡ true
choice-fits n m fold options v w h =
    let (s, found, rest) =
      bind-accepted (require_str n true m v)
        (λ s. choose n fold options s >>= λ t. accepted (some (string t))) h in
    let (t, chosen, same) =
      bind-accepted (choose n fold options s) (λ t. accepted (some (string t))) rest in
    of_accepted (λ o. is_there (is_one_of options) o ≡ true) same
      (choose-ok n fold options s t chosen)

in_range-ok :
    (n : Text) (lo hi : ℕ) (z : ℤ) (i : ℕ)
    → in_range n lo hi z ≡ accepted i
    → (leb lo i && leb i hi) ≡ true
unfolding in_range
in_range-ok n lo hi (pos x) i h = ground (arith, h)
in_range-ok n lo hi (negsuc x) i h = absurd (ground arith)

convert-ok :
    (n : Text) (lo hi : ℕ) (c : Converted) (i : ℕ)
    → convert n lo hi c ≡ accepted i
    → (leb lo i && leb i hi) ≡ true
unfolding convert
convert-ok n lo hi (converted z) i h = in_range-ok n lo hi z i h
convert-ok n lo hi not_a_number i h = absurd (ground arith)
convert-ok n lo hi overflows i h = absurd (ground arith)

pub optional_int-ok :
    (to_int : Value → Converted) (n : Text) (lo hi : ℕ) (v : Value) (i : ℕ)
    → optional_int to_int n lo hi v ≡ accepted i
    → (leb lo i && leb i hi) ≡ true
unfolding optional_int
optional_int-ok to_int n lo hi (integer z) i h = in_range-ok n lo hi z i h
optional_int-ok to_int n lo hi (string s) i h = convert-ok n lo hi (to_int (string s)) i h
optional_int-ok to_int n lo hi (float x) i h = convert-ok n lo hi (to_int (float x)) i h
optional_int-ok to_int n lo hi _ i h = absurd (ground arith)

pub whole-fits :
    (to_int : Value → Converted) (n : Text) (lo hi : ℕ) (v : Value) (w : Option Value)
    → (optional_int to_int n lo hi v >>= λ i. accepted (some (integer (pos i)))) ≡ accepted w
    → is_there (is_whole lo hi) w ≡ true
whole-fits to_int n lo hi v w h =
    let (i, found, same) =
      bind-accepted (optional_int to_int n lo hi v) (λ i. accepted (some (integer (pos i)))) h in
    of_accepted (λ o. is_there (is_whole lo hi) o ≡ true) same
      (optional_int-ok to_int n lo hi v i found)

pub flag-fits :
    (n : Text) (v : Value) (w : Option Value)
    → (require_bool n v >>= λ b. accepted (some (boolean b))) ≡ accepted w
    → is_there is_boolean w ≡ true
flag-fits n v w h =
    let (b, found, same) = bind-accepted (require_bool n v) (λ b. accepted (some (boolean b))) h in
    of_accepted (λ o. is_there is_boolean o ≡ true) same refl

pub there-if : (p : Value → Bool) (w : Option Value) → is_there p w ≡ true → if_there p w ≡ true
there-if p none h = refl
there-if p (some v) h = h
