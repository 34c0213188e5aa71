-- ===== src/Common/Dict.antt =====
-- Python's `dict` with text keys, in insertion order: a new key goes to the end, an old one keeps
-- its place, and `remove` is `pop(key, None)`.
use ai_agent_starter_kit.Common.Tests.{if◌then◌else◌, is_some, Bool-cases}
use ai_agent_starter_kit.Common.Lists.{length, All, filter}
use ai_agent_starter_kit.Common.Strings.{Text, text_eq, text_eq_iff, text_eq_refl, elem}
use Prim.Native.Nat.{suc, ◌≤◌}
use mathlib.Core.Path.{◌≡◌, refl, subst, ap}
use mathlib.Core.Logic.{inl, inr}
use mathlib.Core.Bool.{Bool, true, false}
use mathlib.Core.Option.{Option, none, some}
use mathlib.Core.List.{List, [], ◌∷◌}
use native.Mathlib.Omega.{arith}

abbrev pub Dict {ℓ} : Type ℓ → Type ℓ
Dict V = List (Text × V)

module _ {ℓ} {V : Type ℓ} where
  unfoldable pub get : Dict V → Text → Option V
  unfolding text_eq
  get [] k = none
  get ((j, v) ∷ d) k = if text_eq j k then some v else get d k

  unfoldable pub put : Dict V → Text → V → Dict V
  unfolding text_eq
  put [] k v = (k, v) ∷ []
  put ((j, w) ∷ d) k v = let rest = put d k v in if text_eq j k then (j, v) ∷ d else (j, w) ∷ rest

  unfoldable pub remove : Dict V → Text → Dict V
  unfolding text_eq
  remove [] k = []
  remove ((j, w) ∷ d) k = let rest = remove d k in if text_eq j k then rest else (j, w) ∷ rest

  unfoldable pub contains : Dict V → Text → Bool
  unfolding get
  contains d k = is_some (get d k)

  abbrev pub keys : Dict V → List Text
  keys [] = []
  keys ((j, v) ∷ d) = j ∷ keys d

  abbrev pub values : Dict V → List V
  values [] = []
  values ((j, v) ∷ d) = v ∷ values d

  pub get-put :
      (d : Dict V) (k j : Text) (v : V)
      → get (put d k v) j ≡ (if text_eq k j then some v else get d j)
  unfolding get put
  get-put [] k j v = refl
  get-put ((i, w) ∷ d) k j v =
      ground (arith, get-put d k j v, text_eq_iff i k, text_eq_iff i j, text_eq_iff k j)

  pub get-remove :
      (d : Dict V) (k j : Text) → get (remove d k) j ≡ (if text_eq k j then none else get d j)
  unfolding get remove
  get-remove [] k j = ground arith
  get-remove ((i, w) ∷ d) k j =
      ground (arith, get-remove d k j, text_eq_iff i k, text_eq_iff i j, text_eq_iff k j)

  pub get-put_self : (d : Dict V) (k : Text) (v : V) → get (put d k v) k ≡ some v
  get-put_self d k v = ground (arith, get-put d k k v, text_eq_refl k)

  pub get-remove_self : (d : Dict V) (k : Text) → get (remove d k) k ≡ none
  get-remove_self d k = ground (arith, get-remove d k k, text_eq_refl k)

  -- A new key makes the dictionary one longer, an old one leaves its length.
  pub length-put :
      (d : Dict V) (k : Text) (v : V)
      → length (put d k v) ≡ (if contains d k then length d else suc (length d))
  unfolding put get contains
  length-put [] k v = refl
  length-put ((i, w) ∷ d) k v = ground (arith, length-put d k v)

  pub length-remove-le : (d : Dict V) (k : Text) → length (remove d k) ≤ length d
  unfolding remove
  length-remove-le [] k = ground arith
  length-remove-le ((i, w) ∷ d) k = ground (arith, length-remove-le d k)

  -- Removing a key that is there makes the dictionary shorter.
  pub length-remove-lt :
      (d : Dict V) (k : Text) → contains d k ≡ true → suc (length (remove d k)) ≤ length d
  unfolding remove get contains
  length-remove-lt [] k h = ground arith
  length-remove-lt ((i, w) ∷ d) k h = ground (arith, length-remove-le d k, length-remove-lt d k)

pub ruleset dict_laws = (get-put, get-remove)

-- No key stands twice, which is what a `dict` gives.
abbrev pub IsUnique {ℓ} : {V : Type ℓ} → Dict V → Type 0
IsUnique [] = Unit
IsUnique ((k, v) ∷ d) = (contains d k ≡ false) × IsUnique d

module _ {ℓ} {V : Type ℓ} where
  pub put-IsUnique : (d : Dict V) (k : Text) (v : V) → IsUnique d → IsUnique (put d k v)
  unfolding put contains
  put-IsUnique [] k v h = (refl, tt)
  put-IsUnique ((i, w) ∷ d) k v h =
      ground (arith, put-IsUnique d k v h.1, get-put d k i v, text_eq_iff i k, text_eq_iff k i)

  pub remove-IsUnique : (d : Dict V) (k : Text) → IsUnique d → IsUnique (remove d k)
  unfolding remove contains
  remove-IsUnique [] k h = tt
  remove-IsUnique ((i, w) ∷ d) k h =
      ground (arith, remove-IsUnique d k h.1, get-remove d k i, text_eq_iff i k, text_eq_iff k i)

  -- A key of the filtered entries is bound to a value that passes the test.
  pub elem-keys-filter :
      (p : Text × V → Bool) (d : Dict V) (k : Text) (v : V)
      → IsUnique d
      → get d k ≡ some v
      → elem k (keys (filter p d)) ≡ true
      → p (k, v) ≡ true
  unfolding get elem contains
  elem-keys-filter p [] k v u g e = cc
  elem-keys-filter p ((i, w) ∷ d) k v u g e =
      ground
        (arith, elem-keys-filter p d k v u.1, not-elem-keys p d k, text_eq_iff i k, text_eq_iff k i)
    where
      not-elem-keys :
          (p : Text × V → Bool) (d : Dict V) (k : Text)
          → contains d k ≡ false
          → elem k (keys (filter p d)) ≡ false
      not-elem-keys p [] k h = refl
      not-elem-keys p ((j, x) ∷ r) k h =
          ground (arith, not-elem-keys p r k, text_eq_iff j k, text_eq_iff k j)

  pub All-put {κ} :
      (P : Text × V → Type κ) (d : Dict V) (k : Text) (v : V)
      → All P d
      → P (k, v)
      → All P (put d k v)
  unfolding put
  All-put P [] k v h p = (p, tt)
  All-put P ((i, w) ∷ d) k v h p = elim (Bool-cases (text_eq i k)) [
    | inl e ↦ let q : i ≡ k = (text_eq_iff i k).0 e in rw e (rw q (p, h.1))
    | inr e ↦ rw e (h.0, All-put P d k v h.1 p)
  ]

  pub All-remove {κ} :
      (P : Text × V → Type κ) (d : Dict V) (k : Text) → All P d → All P (remove d k)
  unfolding remove
  All-remove P [] k h = h
  All-remove P ((i, w) ∷ d) k h = ground (arith, All-remove P d k h.1)

  pub All-get {κ} :
      (P : Text × V → Type κ) (d : Dict V) (k : Text) (v : V)
      → All P d
      → get d k ≡ some v
      → P (k, v)
  unfolding get
  All-get P [] k v h g = absurd (ground arith)
  All-get P ((i, w) ∷ d) k v h g = elim (Bool-cases (text_eq i k)) [
    | inl e ↦
        let q : i ≡ k = (text_eq_iff i k).0 e in
        let r : w ≡ v = ground arith in subst (λ x. P (x, v)) q (subst (λ x. P (i, x)) r h.0)
    | inr e ↦ All-get P d k v h.1 (ground arith)
  ]

-- `f` of a value that may be missing.
abbrev pub fmap {ℓ κ} : {A : Type ℓ} {B : Type κ} → (A → B) → Option A → Option B
fmap f none = none
fmap f (some a) = some (f a)

abbrev pub keep {ℓ} : {A : Type ℓ} → (A → Bool) → Option A → Option A
keep p none = none
keep p (some a) = if p a then some a else none

module _ {ℓ} {V : Type ℓ} where
  contains-filter-le :
      (p : V → Bool) (d : Dict V) (k : Text)
      → contains d k ≡ false
      → contains (filter (λ e. p e.1) d) k ≡ false
  unfolding contains get
  contains-filter-le p [] k h = refl
  contains-filter-le p ((i, w) ∷ d) k h = ground (arith, contains-filter-le p d k)

  pub filter-IsUnique : (p : V → Bool) (d : Dict V) → IsUnique d → IsUnique (filter (λ e. p e.1) d)
  filter-IsUnique p [] h = tt
  filter-IsUnique p ((i, w) ∷ d) h =
      ground (arith, filter-IsUnique p d h.1, contains-filter-le p d i h.0)

  -- A lookup among the entries whose values pass a test.
  pub get-filter :
      (p : V → Bool) (d : Dict V) (k : Text)
      → IsUnique d
      → get (filter (λ e. p e.1) d) k ≡ keep p (get d k)
  unfolding get contains
  get-filter p [] k h = refl
  get-filter p ((i, w) ∷ d) k h = ground (
    arith,
    get-filter p d k h.1,
    contains-filter-le p d i h.0,
    text_eq_iff i k,
    ap (get (filter (λ e. p e.1) d)) {x = i} {y = k},
  )
