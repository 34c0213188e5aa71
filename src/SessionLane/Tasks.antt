-- ===== src/SessionLane/Tasks.antt =====
-- Counting the tasks of a list, and their locks under changes of the cache.
use ai_agent_starter_kit.SessionLane.{Task, update_idx}
use ai_agent_starter_kit.Common.{
  subst, ℕ, zero, suc, ◌+◌, ◌≤◌, ◌<◌, ◌≡◌, refl, sym, ap, ◌∙◌, Bool, true, false, ◌&&◌, Option,
  none, some, List, [], ◌∷◌, arith, ◌==◌, if◌then◌else◌, get_elem?, erase_idx, any, All, Text,
  text_eq, text_eq_iff, text_eq_refl,
}

abbrev pub count : (Task → Bool) → List Task → ℕ
count p [] = 0
count p (t ∷ ts) = (if p t then 1 else 0) + count p ts

abbrev pub of_session : Text → Task → Bool
of_session k t = text_eq t.key k

abbrev pub inside : Text → Task → Bool
inside k t = t.entered && text_eq t.key k

abbrev pub holder_of : ℕ → Task → Bool
holder_of l t = t.holds_lock && t.lock == l

pub count-erase_idx :
    (p : Task → Bool) (ts : List Task) (i : ℕ) (t : Task)
    → get_elem? ts i ≡ some t
    → count p ts ≡ (if p t then 1 else 0) + count p (erase_idx ts i)
count-erase_idx p [] i t e = cc
count-erase_idx p (u ∷ ts) zero t e = ground (arith, e)
count-erase_idx p (u ∷ ts) (suc i) t e = ground (arith, count-erase_idx p ts i t e)

pub All-erase_idx : (P : Task → Type 0) (ts : List Task) (i : ℕ) → All P ts → All P (erase_idx ts i)
All-erase_idx P [] i h = h
All-erase_idx P (u ∷ ts) zero h = h.1
All-erase_idx P (u ∷ ts) (suc i) h = (h.0, All-erase_idx P ts i h.1)

-- A change of the locks of sessions without tasks leaves the tasks with their locks.
pub relock :
    (f g : Text → Option ℕ) (c : Text → ℕ) (ts : List Task)
    → ((k : Text) → count (of_session k) ts ≤ c k)
    → ((k : Text) → 0 < c k → g k ≡ f k)
    → All (λ t. f t.key ≡ some t.lock) ts
    → All (λ t. g t.key ≡ some t.lock) ts
relock f g c [] l s h = tt
relock f g c (t ∷ ts) l s h = (
  s t.key (omega (arith, counted, l t.key)) ∙ h.0,
  relock f g c ts (λ k. ground (arith, l k)) s h.1,
)
  where
    counted : 0 < count (of_session t.key) (t ∷ ts)
    counted = rw (text_eq_refl t.key) (omega arith)

abbrev pub has_entered : Task → Bool
has_entered t = t.entered

pub none-count :
    (f : Text → Option ℕ) (k : Text) (ts : List Task)
    → f k ≡ none
    → All (λ t. f t.key ≡ some t.lock) ts
    → count (of_session k) ts ≡ 0
none-count f k [] n h = refl
none-count f k (t ∷ ts) n h =
    ground (arith, n, h.0, text_eq_iff t.key k, ap f {x = t.key} {y = k}, none-count f k ts n h.1)

pub update_idx-count :
    (f : Task → Task) (p : Task → Bool) (ts : List Task) (i : ℕ) (t : Task)
    → get_elem? ts i ≡ some t
    → count p (update_idx f ts i) + (if p t then 1 else 0) ≡ count p ts + (if p (f t) then 1 else 0)
update_idx-count f p [] i t e = cc
update_idx-count f p (u ∷ ts) zero t e =
    let q : u ≡ t = ground (arith, e) in
    subst
      (λ (x : Task).
        count p (f u ∷ ts) + (if p x then 1 else 0) ≡ count p (u ∷ ts) + (if p (f x) then 1 else 0))
      q (omega arith)
update_idx-count f p (u ∷ ts) (suc i) t e = ground (arith, update_idx-count f p ts i t e)

pub All-update_idx :
    (P : Task → Type 0) (f : Task → Task) (ts : List Task) (i : ℕ)
    → ((t : Task) → P t → P (f t))
    → All P ts
    → All P (update_idx f ts i)
All-update_idx P f [] i k h = tt
All-update_idx P f (u ∷ ts) zero k h = (k u h.0, h.1)
All-update_idx P f (u ∷ ts) (suc i) k h = (h.0, All-update_idx P f ts i k h.1)

pub All-update_at :
    (P : Task → Type 0) (f : Task → Task) (ts : List Task) (i : ℕ) (t : Task)
    → get_elem? ts i ≡ some t
    → P (f t)
    → All P ts
    → All P (update_idx f ts i)
All-update_at P f [] i t e p h = tt
All-update_at P f (u ∷ ts) zero t e p h =
    (subst (λ (x : Task). P (f x)) (sym (head-eq u t e)) p, h.1)
  where
    head-eq : (u t : Task) → some u ≡ some t → u ≡ t
    head-eq u t e = cc e
All-update_at P f (u ∷ ts) (suc i) t e p h = (h.0, All-update_at P f ts i t e p h.1)

-- A lock that is not held has no holder.
pub any-count : (p : Task → Bool) (ts : List Task) → any p ts ≡ false → count p ts ≡ 0
any-count p [] h = refl
any-count p (t ∷ ts) h = ground (arith, any-count p ts, h)

pub count-inside-le :
    (f : Text → Option ℕ) (k : Text) (l : ℕ) (ts : List Task)
    → f k ≡ some l
    → All (λ t. f t.key ≡ some t.lock) ts
    → All (λ t. t.entered ≡ true → t.holds_lock ≡ true) ts
    → count (inside k) ts ≤ count (holder_of l) ts
count-inside-le f k l [] g h o = omega arith
count-inside-le f k l (t ∷ ts) g h o = ground (
  arith,
  g,
  h.0,
  text_eq_iff t.key k,
  ap f {x = t.key} {y = k},
  o.0,
  count-inside-le f k l ts g h.1 o.1,
)

pub count-inside-le-of_session :
    (k : Text) (ts : List Task) → count (inside k) ts ≤ count (of_session k) ts
count-inside-le-of_session k [] = omega arith
count-inside-le-of_session k (t ∷ ts) = ground (arith, count-inside-le-of_session k ts)
