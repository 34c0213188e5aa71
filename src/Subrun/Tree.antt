-- ===== src/Subrun/Tree.antt =====
-- The tree walks of the lane: `_collect_visible_sessions` and `_collect_descendants`.
-- A Python list that is popped at its right end is a list with that end first. The walks take fuel,
-- one unit for each turn of the `while` loop, and give none when it runs out.
use ai_agent_starter_kit.Subrun.{set_of}
use ai_agent_starter_kit.Common.{
  subst, ℕ, zero, suc, ◌+◌, ◌≤◌, ◌<◌, ◌≡◌, refl, sym, ap, ◌↔◌, inl, inr, Bool, true, false, not,
  ◌&&◌, ◌||◌, Option, none, some, List, [], ◌∷◌, ◌++◌, arith, if◌then◌else◌, Bool-cases, length,
  filter, length-append, length-filter-le, All, All-append, All-filter, Text, text_eq, text_eq_iff,
  text_eq_refl, elem, elem-append,
}
use ai_agent_starter_kit.Common.Dict.{Dict, get}

-- Reachability along the children.
pub data Reach (d : Dict (List Text)) (s : Text) : Text → Type 0 where
  here : Reach d s s
  child : {t : Text} → Reach d s t → (u : Text) → elem u (set_of d t) ≡ true → Reach d s u

-- The loop of `_collect_visible_sessions` over its queue and the visible sessions.
unfoldable pub visible_loop : Dict (List Text) → ℕ → List Text → List Text → Option (List Text)
unfolding elem set_of
visible_loop d zero queue visible = none
visible_loop d (suc fuel) [] visible = some visible
visible_loop d (suc fuel) (current ∷ queue) visible =
    let skipped = visible_loop d fuel queue visible in
    let children = filter (λ c. not (elem c (current ∷ visible))) (set_of d current) in
    let expanded = visible_loop d fuel (children ++ queue) (current ∷ visible) in
    if elem current visible then skipped else expanded

abbrev pub edges : Dict (List Text) → ℕ
edges [] = 0
edges ((k, cs) ∷ d) = length cs + edges d

unfoldable pub collect_visible_sessions : Dict (List Text) → Text → Option (List Text)
unfolding visible_loop
collect_visible_sessions d requester = visible_loop d (edges d + 2) (requester ∷ []) []

-- The children of the sessions that are not visible yet.
pending : Dict (List Text) → List Text → ℕ
unfolding elem
pending [] visible = 0
pending ((k, cs) ∷ d) visible = (if elem k visible then 0 else length cs) + pending d visible

pending-nil : (d : Dict (List Text)) → pending d [] ≡ edges d
unfolding pending elem
pending-nil [] = refl
pending-nil ((k, cs) ∷ d) = ground (arith, pending-nil d)

pending-cons-le :
    (d : Dict (List Text)) (t : Text) (visible : List Text)
    → pending d (t ∷ visible) ≤ pending d visible
unfolding pending elem
pending-cons-le [] t visible = omega arith
pending-cons-le ((k, cs) ∷ d) t visible = ground (arith, pending-cons-le d t visible)

pending-expand :
    (d : Dict (List Text)) (t : Text) (visible : List Text)
    → elem t visible ≡ false
    → pending d (t ∷ visible) + length (set_of d t) ≤ pending d visible
unfolding pending elem set_of get
pending-expand [] t visible n = omega arith
pending-expand ((k, cs) ∷ d) t visible n =
    ground (arith, pending-cons-le d t visible, pending-expand d t visible n, text_eq_iff k t)

-- The children that the walk has met are all in sight.
abbrev IsClosed : Dict (List Text) → List Text → List Text → Type 0
IsClosed d queue visible =
    (x c : Text)
    → elem x visible ≡ true
    → elem c (set_of d x) ≡ true
    → (elem c visible || elem c queue) ≡ true

All-of-elem :
    (P : Text → Type 0) (xs : List Text) → ((x : Text) → elem x xs ≡ true → P x) → All P xs
unfolding elem
All-of-elem P [] h = tt
All-of-elem P (x ∷ xs) h = (h x (rw text_eq_refl), All-of-elem P xs (λ y e. h y (ground arith)))

elem-of-All : (P : Text → Type 0) (xs : List Text) (x : Text) → All P xs → elem x xs ≡ true → P x
unfolding elem
elem-of-All P [] x h e = absurd (cc)
elem-of-All P (y ∷ ys) x h e = elim (Bool-cases (text_eq x y)) [
  | inl q ↦ subst P (sym ((text_eq_iff x y).0 q)) h.0
  | inr q ↦ elem-of-All P ys x h.1 (ground arith)
]

elem-filter_iff :
    (p : Text → Bool) (x : Text) (xs : List Text) → elem x (filter p xs) ≡ (elem x xs && p x)
unfolding elem
elem-filter_iff p x [] = refl
elem-filter_iff p x (y ∷ ys) = elim (Bool-cases (text_eq x y)) [
  | inl q ↦ let e = ap p ((text_eq_iff x y).0 q) in ground (arith, e, elem-filter_iff p x ys)
  | inr q ↦ ground (arith, elem-filter_iff p x ys)
]

expanded-IsClosed :
    (d : Dict (List Text)) (t : Text) (queue visible : List Text)
    → IsClosed d (t ∷ queue) visible
    → IsClosed d (filter (λ c. not (elem c (t ∷ visible))) (set_of d t) ++ queue) (t ∷ visible)
unfolding elem
expanded-IsClosed d t queue visible h x c ex ec =
    let p = λ (u : Text). not (elem u (t ∷ visible)) in
    let a = elem-append c (filter p (set_of d t)) queue in
    let f = elem-filter_iff p c (set_of d t) in
    elim (Bool-cases (text_eq x t)) [
      | inl q ↦
          let e : elem c (set_of d t) ≡ true =
            subst (λ u. elem c (set_of d u) ≡ true) ((text_eq_iff x t).0 q) ec in
          ground (arith, a, f, e)
      | inr q ↦ ground (arith, a, h x c (ground arith) ec)
    ]

skipped-IsClosed :
    (d : Dict (List Text)) (t : Text) (queue visible : List Text)
    → elem t visible ≡ true
    → IsClosed d (t ∷ queue) visible
    → IsClosed d queue visible
unfolding elem
skipped-IsClosed d t queue visible v h x c ex ec = elim (Bool-cases (text_eq c t)) [
  | inl q ↦
      let e : elem c visible ≡ true =
        subst (λ u. elem u visible ≡ true) (sym ((text_eq_iff c t).0 q)) v in
      rw e
  | inr q ↦ ground (arith, h x c ex ec)
]

or_nil : (b : Bool) → (b || false) ≡ true → b ≡ true
or_nil b h = ground arith

closed_complete :
    (d : Dict (List Text)) (root : Text) (visible : List Text)
    → elem root visible ≡ true
    → IsClosed d [] visible
    → (s : Text) → Reach d root s
    → elem s visible ≡ true
unfolding elem
closed_complete d root visible r h s here = r
closed_complete d root visible r h s (child {t = t} p s' e) =
    or_nil (elem s visible) (h t s (closed_complete d root visible r h t p) e)

-- The root stays in sight.
root-skipped :
    (root t : Text) (queue visible : List Text)
    → elem t visible ≡ true
    → (elem root visible || elem root (t ∷ queue)) ≡ true
    → (elem root visible || elem root queue) ≡ true
unfolding elem
root-skipped root t queue visible e r = elim (Bool-cases (text_eq root t)) [
  | inl q ↦
      let v : elem root visible ≡ true =
        subst (λ u. elem u visible ≡ true) (sym ((text_eq_iff root t).0 q)) e in
      rw v
  | inr q ↦ ground arith
]

root-expanded :
    (root t : Text) (children queue visible : List Text)
    → (elem root visible || elem root (t ∷ queue)) ≡ true
    → (elem root (t ∷ visible) || elem root (children ++ queue)) ≡ true
unfolding elem
root-expanded root t children queue visible r = ground (arith, elem-append root children queue)

-- What a walk from `root` has found.
abbrev pub IsReachSet : Dict (List Text) → Text → List Text → Type 0
IsReachSet d root found = (s : Text) → (elem s found ≡ true) ↔ Reach d root s

visible_loop_lem :
    (d : Dict (List Text)) (root : Text) (fuel : ℕ) (queue visible : List Text)
    → length queue + pending d visible < fuel
    → All (Reach d root) queue
    → All (Reach d root) visible
    → IsClosed d queue visible
    → (elem root visible || elem root queue) ≡ true
    → (found : List Text) × (visible_loop d fuel queue visible ≡ some found)
      × IsReachSet d root found
unfolding visible_loop
visible_loop_lem d root zero queue visible m q v c r = absurd (omega arith)
visible_loop_lem d root (suc fuel) [] visible m q v c r = (
  visible,
  refl,
  λ s. (
    elem-of-All (Reach d root) visible s v,
    closed_complete d root visible (unfold elem in ground arith) c s,
  ),
)
visible_loop_lem d root (suc fuel) (t ∷ queue) visible m q v c r =
    elim (Bool-cases (elem t visible)) [
      | inl e ↦ rw e (
          visible_loop_lem d root fuel queue visible (omega arith) q.1 v
            (skipped-IsClosed d t queue visible e c) (root-skipped root t queue visible e r))
      | inr e ↦
          let p = λ (u : Text). not (elem u (t ∷ visible)) in
          let children = filter p (set_of d t) in
          rw e (
            visible_loop_lem d root fuel (children ++ queue) (t ∷ visible)
              (omega (
                arith,
                pending-expand d t visible e,
                length-filter-le p (set_of d t),
                length-append {0} children queue,
              ))
              (All-append (Reach d root) children queue
                (All-filter (Reach d root) p (set_of d t)
                  (All-of-elem (Reach d root) (set_of d t) (λ u h. child q.0 u h)))
                q.1)
              (q.0, v) (expanded-IsClosed d t queue visible c)
              (root-expanded root t children queue visible r))
    ]

-- The walk always ends, and the sessions that are visible to a requester are exactly those that can
-- be reached from its own session along the child sessions.
pub collect_visible_sessions_exact :
    (d : Dict (List Text)) (requester : Text)
    → (visible : List Text) × (collect_visible_sessions d requester ≡ some visible)
      × IsReachSet d requester visible
unfolding collect_visible_sessions
collect_visible_sessions_exact d requester =
    visible_loop_lem d requester (edges d + 2) (requester ∷ []) [] (omega (arith, pending-nil d))
      (here, tt) tt (λ x c ex ec. absurd (none_in_nil x ex)) (unfold elem in rw text_eq_refl)
  where
    none_in_nil : (x : Text) → elem x [] ≡ true → ⊥
    none_in_nil x e = unfold elem in cc
