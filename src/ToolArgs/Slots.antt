-- ===== src/ToolArgs/Slots.antt =====
-- The rules of a validator act each on its own argument.
-- No name stands twice in the list.
use ai_agent_starter_kit.ToolArgs.{Value, Args, Checked, refused, accepted, ◌>>=◌, Converted}
use ai_agent_starter_kit.ToolArgs.Structured.{normalize_policy}
use ai_agent_starter_kit.ToolArgs.Rules.{
  Kind, required_text, optional_text, required_path, optional_path, command, required_choice,
  choice, whole, optional_whole, flag, optional_flag, tool_policy, steps, Rule, store, slot, check,
  run,
}
use ai_agent_starter_kit.Common.{
  subst, ◌≡◌, refl, ap, ◌∙◌, inl, inr, Bool, true, false, not, ◌&&◌, Option, none, some, List, [],
  ◌∷◌, arith, Bool-cases, Option-cases, All, Text, text_eq, text_eq_iff, elem,
}
use ai_agent_starter_kit.Common.Dict.{get, put, get-put, get-put_self}

abbrev pub are_distinct : List Text → Bool
are_distinct [] = true
are_distinct (n ∷ ns) = not (elem n ns) && are_distinct ns

abbrev pub names : List Rule → List Text
names [] = []
names (r ∷ rules) = r.name ∷ names rules

-- A chain that is accepted: its first part was, and so was the rest on what that gave.
pub bind-accepted {ℓ κ} :
    {A : Type ℓ} {B : Type κ} (first : Checked A) (next : A → Checked B) {b : B}
    → (first >>= next) ≡ accepted b
    → (a : A) × (first ≡ accepted a) × (next a ≡ accepted b)
bind-accepted (refused e) next done = cc
bind-accepted (accepted a) next done = (a, refl, done)

-- What holds of an accepted value holds of the value it is said to be.
pub of_accepted {ℓ κ} :
    {A : Type ℓ} (P : A → Type κ) {a b : A} → accepted a ≡ accepted b → P a → P b
of_accepted P {a} {b} h p = let same : a ≡ b = ground (arith, h) in subst P same p

pub put-get : (d : Args) (k : Text) (v : Value) → get d k ≡ some v → put d k v ≡ d
unfolding get put
put-get [] k v h = cc
put-get ((j, w) ∷ d) k v h = elim (Bool-cases (text_eq j k)) [
  | inl e ↦ let q : w ≡ v = ground (arith, h, e) in rw (e, q) refl
  | inr e ↦
      let g : get d k ≡ some v = ground (arith, h, e) in
      rw e (ap (λ l. (j, w) ∷ l) (put-get d k v g))
]

pub get-store_other :
    (args : Args) (n k : Text) (v : Option Value)
    → text_eq n k ≡ false
    → get (store args n v) k ≡ get args k
get-store_other args n k none h = refl
get-store_other args n k (some v) h = rw (get-put args n k v, h) refl

pub store-get : (args : Args) (n : Text) → store args n (get args n) ≡ args
store-get args n = elim (Option-cases (get args n)) [
  | inl e ↦ rw e refl
  | inr (v, e) ↦ rw e (put-get args n v e)
]

module _ (violates : Text → Bool) (to_int : Value → Converted) where
  -- A check leaves nothing under the name only where nothing was.
  slot-none :
      (n : Text) (k : Kind) (v : Option Value)
      → slot violates to_int n k v ≡ accepted none
      → v ≡ none
  unfolding slot normalize_policy
  slot-none n k none h = refl
  slot-none n (required_text e m) (some v) h = absurd (ground arith)
  slot-none n (optional_text e m) (some v) h = absurd (ground arith)
  slot-none n required_path (some v) h = absurd (ground arith)
  slot-none n optional_path (some v) h = absurd (ground arith)
  slot-none n command (some v) h = absurd (ground arith)
  slot-none n (required_choice m os) (some v) h = absurd (ground arith)
  slot-none n (choice c m os d) (some v) h = absurd (ground arith)
  slot-none n (whole d lo hi) (some v) h = absurd (ground arith)
  slot-none n (optional_whole lo hi) (some v) h = absurd (ground arith)
  slot-none n flag (some v) h = absurd (ground arith)
  slot-none n optional_flag (some v) h = absurd (ground arith)
  slot-none n tool_policy (some v) h = absurd (ground arith)
  slot-none n steps (some v) h = absurd (ground arith)

  get-store_self :
      (args : Args) (n : Text) (k : Kind) (v : Option Value)
      → slot violates to_int n k (get args n) ≡ accepted v
      → get (store args n v) n ≡ v
  get-store_self args n k none h = slot-none n k (get args n) h
  get-store_self args n k (some v) h = get-put_self args n v

  -- Every argument of the result is what its own check made of the caller's argument.
  abbrev pub AreChecked : Args → Args → List Rule → Type 0
  AreChecked args out rules =
      All (λ r. slot violates to_int r.name r.kind (get args r.name) ≡ accepted (get out r.name))
        rules

  -- The arguments without a rule are kept.
  abbrev pub AreKept : Args → Args → List Rule → Type 0
  AreKept args out rules = (k : Text) → elem k (names rules) ≡ false → get out k ≡ get args k

  checked_rest :
      (rules : List Rule) (args : Args) (n : Text) (v : Option Value) (out : Args)
      → elem n (names rules) ≡ false
      → AreChecked (store args n v) out rules
      → AreChecked args out rules
  unfolding elem
  checked_rest [] args n v out h c = tt
  checked_rest (r ∷ rules) args n v out h c =
      let other : text_eq n r.name ≡ false = ground (arith, h) in
      (
        rw (get-store_other args n r.name v other) at c.0,
        checked_rest rules args n v out (ground (arith, h)) c.1,
      )

  extend :
      (r : Rule) (rules : List Rule) (args : Args) (v : Option Value) (out : Args)
      → elem r.name (names rules) ≡ false
      → slot violates to_int r.name r.kind (get args r.name) ≡ accepted v
      → AreChecked (store args r.name v) out rules × AreKept (store args r.name v) out rules
      → AreChecked args out (r ∷ rules) × AreKept args out (r ∷ rules)
  unfolding elem
  extend r rules args v out u made (c, kept) =
      let settled : get out r.name ≡ v = kept r.name u ∙ get-store_self args r.name r.kind v made in
      (
        (rw settled made, checked_rest rules args r.name v out u c),
        λ k e.
            let other : text_eq r.name k ≡ false =
              ground (arith, e, text_eq_iff k r.name, text_eq_iff r.name k) in
            kept k (ground (arith, e)) ∙ get-store_other args r.name k v other,
      )

  -- A run that is not refused checks every argument and touches no other.
  pub run-checked :
      (rules : List Rule) (args out : Args)
      → are_distinct (names rules) ≡ true
      → run violates to_int rules args ≡ accepted out
      → AreChecked args out rules × AreKept args out rules
  unfolding run check elem
  run-checked [] args out u h = (tt, λ k _. ground (arith, h))
  run-checked (r ∷ rules) args out u h =
      let (mid, first, rest) =
        bind-accepted (check violates to_int r args) (run violates to_int rules) h in
      let (v, made, stored) =
        bind-accepted (slot violates to_int r.name r.kind (get args r.name))
          (λ v. accepted (store args r.name v)) first in
      let same : store args r.name v ≡ mid = ground (arith, stored) in
      let rest : run violates to_int rules (store args r.name v) ≡ accepted out = rw same rest in
      extend r rules args v out (ground (arith, u)) made
        (run-checked rules (store args r.name v) out (ground (arith, u)) rest)

  -- Checks that change nothing are accepted in a run.
  pub checked-run :
      (rules : List Rule) (args : Args)
      → AreChecked args args rules
      → run violates to_int rules args ≡ accepted args
  unfolding run check
  checked-run [] args c = refl
  checked-run (r ∷ rules) args c = rw (c.0, store-get args r.name) (checked-run rules args c.1)
