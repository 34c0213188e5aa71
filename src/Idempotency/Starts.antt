-- ===== src/Idempotency/Starts.antt =====
-- A started run is started once, over any calls that come in between.
use ai_agent_starter_kit.Idempotency.{Entry, Lookup, lookup, register}
use ai_agent_starter_kit.Idempotency.Held.{IsHeld}
use ai_agent_starter_kit.Idempotency.History.{register-IsHeld}
use ai_agent_starter_kit.Idempotency.Calls.{
  Call, start, look_up_in, enter_in, answer_call, answer_all, run_key, IsApart, other_starts,
  new-absent, second_answer, IsRunHeld, get_registry-run, get_registry-apart, run_held-answer,
  start-IsRunHeld,
}
use ai_agent_starter_kit.Idempotency.Manager.{
  Manager, get_registry, lookup_or_raise, register_in, new_run, same_run, start_conflict, run_start,
}
use ai_agent_starter_kit.Idempotency.Namespaces.{IsReady, prune-IsReady, get_registry-lookup}
use ai_agent_starter_kit.Common.{
  subst, ℕ, ◌+◌, ◌≤◌, ◌<◌, ◌≡◌, refl, sym, false, List, [], ◌∷◌, arith, if◌then◌else◌, is_empty,
  All, Text, text_eq,
}

module _ (ttl max_count : ℕ) (key : Text) (e : Entry) where
  answer_all-IsRunHeld :
      (cs : List Call) (n : ℕ) (m : Manager)
      → is_empty key ≡ false
      → All (IsApart ttl (e.created_at + ttl)) cs
      → (0 < max_count → n + other_starts key cs ≤ max_count)
      → IsRunHeld ttl max_count key e n m
      → IsRunHeld ttl max_count key e (n + other_starts key cs) (answer_all cs m)
  unfolding answer_all answer_call
  answer_all-IsRunHeld [] n m k a room r =
      subst (λ l. IsRunHeld ttl max_count key e l m) {x = n} (omega arith) r
  answer_all-IsRunHeld (start now j print id ∷ cs) n m k a room r =
      let next = answer_call (start now j print id) m in
      subst (λ l. IsRunHeld ttl max_count key e l (answer_all cs next))
        {x = n + (if text_eq key j then 0 else 1) + other_starts key cs} (omega arith)
        (answer_all-IsRunHeld cs (n + (if text_eq key j then 0 else 1)) next k a.1
          (λ p. omega (arith, room p))
          (start-IsRunHeld ttl max_count key e n now j print id m k a.0 (λ p. omega (arith, room p))
            r))
  answer_all-IsRunHeld (look_up_in namespace now j print ∷ cs) n m k a room r =
      answer_all-IsRunHeld cs n (answer_call (look_up_in namespace now j print) m) k a.1 room (
        unfold IsRunHeld lookup_or_raise in
        (
          r.0,
          r.1,
          subst (IsHeld key e n)
              (sym (
                get_registry-apart m namespace
                  (lookup m.ttl_seconds m.max_entries now j print (get_registry m namespace)).0
                  a.0))
              r.2,
        ))
  answer_all-IsRunHeld (enter_in namespace now j print value ∷ cs) n m k a room r =
      answer_all-IsRunHeld cs n (answer_call (enter_in namespace now j print value) m) k a.1 room (
        unfold IsRunHeld register_in in
        (
          r.0,
          r.1,
          subst (IsHeld key e n)
              (sym (
                get_registry-apart m namespace
                  (register m.ttl_seconds m.max_entries now j print value
                    (get_registry m namespace))
                  a.0))
              r.2,
        ))

-- A start that makes a run stores it.
first-IsRunHeld :
    (m : Manager) (now : ℕ) (key print id : Text)
    → is_empty key ≡ false
    → IsReady now (get_registry m run_key)
    → (run_start now key print id m).1 ≡ new_run id
    → IsRunHeld m.ttl_seconds m.max_entries key
        (record { fingerprint = print; payload = id; created_at = now })
        1
        (run_start now key print id m).0
unfolding run_start IsRunHeld
first-IsRunHeld m now key print id k r new =
    let looked : Manager × Lookup = lookup_or_raise now run_key key print m in
    let ready : IsReady now (get_registry looked.0 run_key) =
      rw (get_registry-lookup now run_key key print m k)
        (prune-IsReady m.ttl_seconds m.max_entries now (get_registry m run_key) r) in
    rw (new-absent now key print id looked new).1 (
      unfold register_in lookup_or_raise in
      (
        refl,
        refl,
        subst (IsHeld key (record { fingerprint = print; payload = id; created_at = now }) 1)
            (sym (
              get_registry-run looked.0 (
                register m.ttl_seconds m.max_entries now key print id
                  (get_registry looked.0 run_key))))
            (register-IsHeld m.ttl_seconds m.max_entries now key print id
              (get_registry looked.0 run_key) k ready.0 ready.1),
      ))

-- A start of a run with a key that is not empty makes a new run, later than the other runs that are
-- stored. After any starts, with this key or with others, and any lookups and registrations in other
-- namespaces, a start with this key makes none: it answers with the run of the first if its
-- fingerprint is the same, and with a conflict if not. Where entries expire, all the starts are made
-- before the time to live of the first is over; where the registry has a cap, the starts with other
-- keys in between are fewer than it.
pub run_start_once :
    (m : Manager) (now later : ℕ) (key print other first_id second_id : Text) (between : List Call)
    → is_empty key ≡ false
    → IsReady now (get_registry m run_key)
    → All (IsApart m.ttl_seconds (now + m.ttl_seconds)) between
    → (0 < m.ttl_seconds → later ≤ now + m.ttl_seconds)
    → (0 < m.max_entries → other_starts key between < m.max_entries)
    → (run_start now key print first_id m).1 ≡ new_run first_id
    → (run_start later key other second_id
        (answer_all between (run_start now key print first_id m).0)).1
      ≡ (if text_eq print other then same_run first_id else start_conflict)
unfolding run_start
run_start_once m now later key print other first_id second_id between k r a t room new =
    let ttl = m.ttl_seconds in
    let e : Entry = record { fingerprint = print; payload = first_id; created_at = now } in
    let first = (run_start now key print first_id m).0 in
    let held =
      answer_all-IsRunHeld ttl m.max_entries key e between 1 first k a (λ p. omega (arith, room p))
        (first-IsRunHeld m now key print first_id k r new) in
    second_answer later key other first_id second_id (text_eq print other)
      (lookup_or_raise later run_key key other (answer_all between first))
      (run_held-answer ttl m.max_entries key e (1 + other_starts key between) later other
        (answer_all between first) k t (λ p. omega (arith, room p)) held)
