-- ===== src/Idempotency/Calls.antt =====
-- A run that is stored, over any calls of the manager.
use ai_agent_starter_kit.Idempotency.{
  Entry, Registry, Lookup, absent, conflict, replay, lookup, register,
}
use ai_agent_starter_kit.Idempotency.Held.{IsHeld, weaken-IsHeld}
use ai_agent_starter_kit.Idempotency.History.{lookup-IsHeld, register_other-IsHeld, held-lookup}
use ai_agent_starter_kit.Idempotency.Manager.{
  Manager, namespace_key, get_registry, with_registry, lookup_or_raise, register_in, new_run,
  same_run, start_conflict, answer_start, run_start,
}
use ai_agent_starter_kit.Idempotency.Namespaces.{get_registry-with}
use ai_agent_starter_kit.Common.{
  subst, ℕ, ◌+◌, ◌≤◌, ◌<◌, ◌≡◌, refl, sym, inl, inr, Bool, true, false, List, [], ◌∷◌, arith,
  if◌then◌else◌, Bool-cases, is_empty, Text, codes, text_eq, text_eq_iff, text_eq_refl,
}

-- A call of the manager: a start of a run, or a use of another namespace.
pub data Call : Type 0 where
  start : ℕ → Text → Text → Text → Call
  look_up_in : Text → ℕ → Text → Text → Call
  enter_in : Text → ℕ → Text → Text → Text → Call

unfoldable pub answer_call : Call → Manager → Manager
unfolding run_start lookup_or_raise register_in
answer_call (start now key print id) m = (run_start now key print id m).0
answer_call (look_up_in namespace now key print) m = (lookup_or_raise now namespace key print m).0
answer_call (enter_in namespace now key print value) m = register_in now namespace key print value m

unfoldable pub answer_all : List Call → Manager → Manager
unfolding answer_call
answer_all [] m = m
answer_all (c ∷ cs) m = answer_all cs (answer_call c m)

abbrev pub run_key : Text
run_key = codes "run"

-- Starts are made by a time, where entries expire; the other calls are not of the runs' namespace.
abbrev pub IsApart : ℕ → ℕ → Call → Type 0
IsApart ttl last (start now key print id) = 0 < ttl → now ≤ last
IsApart ttl last (look_up_in namespace now key print) =
    text_eq (namespace_key namespace) (namespace_key run_key) ≡ false
IsApart ttl last (enter_in namespace now key print value) =
    text_eq (namespace_key namespace) (namespace_key run_key) ≡ false

-- The number of starts with other keys.
abbrev pub other_starts : Text → List Call → ℕ
other_starts key [] = 0
other_starts key (start now j print id ∷ cs) =
    other_starts key cs + (if text_eq key j then 0 else 1)
other_starts key (look_up_in namespace now j print ∷ cs) = other_starts key cs
other_starts key (enter_in namespace now j print value ∷ cs) = other_starts key cs

pub new-absent :
    (now : ℕ) (key print id : Text) (p : Manager × Lookup)
    → (answer_start now key print id p).1 ≡ new_run id
    → (p.1 ≡ absent)
      × ((answer_start now key print id p).0 ≡ register_in now (codes "run") key print id p.0)
unfolding answer_start
new-absent now key print id (looked, replay existing) h = absurd (ground arith)
new-absent now key print id (looked, conflict) h = absurd (ground arith)
new-absent now key print id (looked, absent) h = (refl, refl)

pub second_answer :
    (now : ℕ) (key print first_id second_id : Text) (same : Bool) (p : Manager × Lookup)
    → p.1 ≡ (if same then replay first_id else conflict)
    → (answer_start now key print second_id p).1
      ≡ (if same then same_run first_id else start_conflict)
unfolding answer_start
second_answer now key print first_id second_id true (looked, answer) h = rw h refl
second_answer now key print first_id second_id false (looked, answer) h = rw h refl

-- The manager has these limits and holds the entry among the runs.
unfoldable pub IsRunHeld : ℕ → ℕ → Text → Entry → ℕ → Manager → Type 0
IsRunHeld ttl max_count key e n m =
    (m.ttl_seconds ≡ ttl) × (m.max_entries ≡ max_count) × IsHeld key e n (get_registry m run_key)

pub get_registry-run :
    (m : Manager) (d : Registry) → get_registry (with_registry m run_key d) run_key ≡ d
get_registry-run m d =
    rw (get_registry-with m run_key run_key d, text_eq_refl (namespace_key run_key)) refl

pub get_registry-apart :
    (m : Manager) (a : Text) (d : Registry)
    → text_eq (namespace_key a) (namespace_key run_key) ≡ false
    → get_registry (with_registry m a d) run_key ≡ get_registry m run_key
get_registry-apart m a d n = rw (get_registry-with m a run_key d, n) refl

module _ (ttl max_count : ℕ) (key : Text) (e : Entry) where
  with-IsRunHeld :
      (n k : ℕ) (m : Manager) (d : Registry)
      → IsRunHeld ttl max_count key e n m
      → IsHeld key e k d
      → IsRunHeld ttl max_count key e k (with_registry m run_key d)
  unfolding IsRunHeld
  with-IsRunHeld n k m d r h = (r.0, r.1, subst (IsHeld key e k) (sym (get_registry-run m d)) h)

  looked-IsRunHeld :
      (n now : ℕ) (j print : Text) (m : Manager)
      → (0 < ttl → now ≤ e.created_at + ttl)
      → (0 < max_count → n ≤ max_count)
      → IsRunHeld ttl max_count key e n m
      → IsRunHeld ttl max_count key e n (lookup_or_raise now run_key j print m).0
  unfolding lookup_or_raise IsRunHeld
  looked-IsRunHeld n now j print m t room r =
      with-IsRunHeld n n m
        (lookup m.ttl_seconds m.max_entries now j print (get_registry m run_key)).0 r
        (lookup-IsHeld m.ttl_seconds m.max_entries now j print (get_registry m run_key) key e n
          (λ p. omega (arith, r.0, t (omega (arith, r.0, p))))
          (λ p. omega (arith, r.1, room (omega (arith, r.1, p)))) r.2)

  answered-IsRunHeld :
      (n now : ℕ) (j print id : Text) (p : Manager × Lookup)
      → text_eq key j ≡ false
      → (0 < ttl → now ≤ e.created_at + ttl)
      → (0 < max_count → n + 1 ≤ max_count)
      → IsRunHeld ttl max_count key e n p.0
      → IsRunHeld ttl max_count key e (n + 1) (answer_start now j print id p).0
  unfolding answer_start register_in IsRunHeld
  answered-IsRunHeld n now j print id (m, replay existing) o t room r =
      (r.0, r.1, weaken-IsHeld key e n (n + 1) (get_registry m run_key) (omega arith) r.2)
  answered-IsRunHeld n now j print id (m, conflict) o t room r =
      (r.0, r.1, weaken-IsHeld key e n (n + 1) (get_registry m run_key) (omega arith) r.2)
  answered-IsRunHeld n now j print id (m, absent) o t room r =
      with-IsRunHeld n (n + 1) m
        (register m.ttl_seconds m.max_entries now j print id (get_registry m run_key)) r
        (register_other-IsHeld m.ttl_seconds m.max_entries now j print id (get_registry m run_key)
          key e n o (λ p. omega (arith, r.0, t (omega (arith, r.0, p))))
          (λ p. omega (arith, r.1, room (omega (arith, r.1, p)))) r.2)

  -- The answer to a start with the key of the entry.
  pub run_held-answer :
      (n now : ℕ) (print : Text) (m : Manager)
      → is_empty key ≡ false
      → (0 < ttl → now ≤ e.created_at + ttl)
      → (0 < max_count → n ≤ max_count)
      → IsRunHeld ttl max_count key e n m
      → (lookup_or_raise now run_key key print m).1
        ≡ (if text_eq e.fingerprint print then replay e.payload else conflict)
  unfolding lookup_or_raise IsRunHeld
  run_held-answer n now print m k t room r =
      held-lookup m.ttl_seconds m.max_entries now key print (get_registry m run_key) e n k
        (λ p. omega (arith, r.0, t (omega (arith, r.0, p))))
        (λ p. omega (arith, r.1, room (omega (arith, r.1, p)))) r.2

  -- It makes no run.
  not_started :
      (n now : ℕ) (print id : Text) (same : Bool) (p : Manager × Lookup)
      → p.1 ≡ (if same then replay e.payload else conflict)
      → IsRunHeld ttl max_count key e n p.0
      → IsRunHeld ttl max_count key e n (answer_start now key print id p).0
  unfolding answer_start
  not_started n now print id true (m, answer) h r = rw h r
  not_started n now print id false (m, answer) h r = rw h r

  pub start-IsRunHeld :
      (n now : ℕ) (j print id : Text) (m : Manager)
      → is_empty key ≡ false
      → (0 < ttl → now ≤ e.created_at + ttl)
      → (0 < max_count → n + (if text_eq key j then 0 else 1) ≤ max_count)
      → IsRunHeld ttl max_count key e n m
      → IsRunHeld ttl max_count key e
          (n + (if text_eq key j then 0 else 1))
          (run_start now j print id m).0
  unfolding run_start
  start-IsRunHeld n now j print id m k t room r =
      let few : 0 < max_count → n ≤ max_count = λ p. omega (arith, room p) in
      let kept = looked-IsRunHeld n now j print m t few r in
      elim (Bool-cases (text_eq key j)) [
        | inl q ↦
            let same : key ≡ j = (text_eq_iff key j).0 q in
            rw q (
              subst
                (λ i.
                  IsRunHeld ttl max_count key e (n + 0)
                    (answer_start now i print id (lookup_or_raise now run_key i print m)).0)
                same
                (subst
                  (λ l.
                    IsRunHeld ttl max_count key e l
                      (answer_start now key print id (lookup_or_raise now run_key key print m)).0)
                  {x = n} (omega arith)
                  (not_started n now print id (text_eq e.fingerprint print)
                    (lookup_or_raise now run_key key print m)
                    (run_held-answer n now print m k t few r)
                    (looked-IsRunHeld n now key print m t few r))))
        | inr q ↦ rw q (
            answered-IsRunHeld n now j print id (lookup_or_raise now run_key j print m) q t
              (λ p. rw q at (room p)) kept)
      ]
