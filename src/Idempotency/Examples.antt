-- ===== src/Idempotency/Examples.antt =====
-- A registry of two entries.
use ai_agent_starter_kit.Idempotency.{Registry, absent, conflict, replay, lookup, register}
use ai_agent_starter_kit.Idempotency.History.{
  Request, look_up, enter, serve_all, register-serve_all-lookup,
}
use ai_agent_starter_kit.Idempotency.Calls.{Call, start, look_up_in, answer_all}
use ai_agent_starter_kit.Idempotency.Starts.{run_start_once}
use ai_agent_starter_kit.Idempotency.Manager.{
  Manager, namespace_key, get_registry, lookup_or_raise, register_in, same_run, start_conflict,
  run_start, begin_execute,
}
use ai_agent_starter_kit.Idempotency.Namespaces.{namespaces_exact}
use ai_agent_starter_kit.Idempotency.Overlap.{overlap_executes_twice}
use ai_agent_starter_kit.Common.{
  ◌≡◌, refl, true, List, [], ◌∷◌, arith, if◌then◌else◌, codes, text_eq,
}
use ai_agent_starter_kit.Common.Dict.{contains, keys}

abbrev two_entries : Registry
two_entries =
    (codes "r1", record { fingerprint = codes "f1"; payload = codes "one"; created_at = 10 })
    ∷ (codes "r2", record { fingerprint = codes "f2"; payload = codes "two"; created_at = 20 })
    ∷ []

oldest_dropped :
    keys (register 100 2 30 (codes "r3") (codes "f3") (codes "three") two_entries)
    ≡ codes "r2" ∷ codes "r3" ∷ []
unfolding register
oldest_dropped = refl

abbrev meanwhile : List Request
meanwhile =
    look_up 40 (codes "r3") (codes "f3") ∷ enter 45 (codes "r4") (codes "f4") (codes "four") ∷ []

register-serve_all-lookup_example :
    (lookup 100 2 50 (codes "r3") (codes "f4") (
      serve_all 100 2 meanwhile
        (register 100 2 30 (codes "r3") (codes "f3") (codes "three") two_entries))).1
    ≡ (if text_eq (codes "f3") (codes "f4") then replay (codes "three") else conflict)
unfolding contains text_eq
register-serve_all-lookup_example =
    register-serve_all-lookup 100 2 30 50 (codes "r3") (codes "f3") (codes "f4") (codes "three")
      two_entries meanwhile refl (refl, (refl, tt)) (omega arith, (omega arith, tt))
      ((λ _. omega arith), ((refl, (λ _. omega arith)), tt)) (λ _. omega arith) (λ _. omega arith)

abbrev empty_manager : Manager
empty_manager = record { namespaces = []; ttl_seconds = 100; max_entries = 2 }

namespaces_exact_example :
    (lookup_or_raise 12
      (codes "run")
      (codes "k")
      (codes "f")
      (register_in 10 (codes " RUN") (codes "k") (codes "f") (codes "v") empty_manager)).1
    ≡ (if text_eq (namespace_key (codes " RUN")) (namespace_key (codes "run"))
        then (if text_eq (codes "f") (codes "f") then replay (codes "v") else conflict)
        else (lookup_or_raise 12 (codes "run") (codes "k") (codes "f") empty_manager).1)
unfolding get_registry
namespaces_exact_example =
    namespaces_exact empty_manager (codes " RUN") (codes "run") (codes "k") (codes "f") (codes "f")
      (codes "v") 10 12 refl (tt, tt) (omega arith) (λ _. omega arith)

namespaces_folded : text_eq (namespace_key (codes " RUN")) (namespace_key (codes "run")) ≡ true
unfolding namespace_key text_eq
namespaces_folded = refl

abbrev other_calls : List Call
other_calls =
    start 11 (codes "k") (codes "f") (codes "r3")
    ∷ start 11 (codes "k2") (codes "f") (codes "r4")
    ∷ look_up_in (codes "workflow_execute") 11 (codes "k") (codes "f")
    ∷ []

run_start_once_example :
    (run_start 12 (codes "k") (codes "g") (codes "r2") (
      answer_all other_calls (run_start 10 (codes "k") (codes "f") (codes "r1") empty_manager).0)).1
    ≡ (if text_eq (codes "f") (codes "g") then same_run (codes "r1") else start_conflict)
unfolding run_start get_registry text_eq namespace_key
run_start_once_example =
    run_start_once empty_manager 10 12 (codes "k") (codes "f") (codes "g") (codes "r1") (codes "r2")
      other_calls refl (tt, tt) ((λ _. omega arith), ((λ _. omega arith), (refl, tt)))
      (λ _. omega arith) (λ _. omega arith) refl

overlap_executes_twice_example :
    (begin_execute 12
      (codes "k")
      (codes "f")
      (begin_execute 10 (codes "k") (codes "f") empty_manager).0).1
    ≡ absent
unfolding begin_execute
overlap_executes_twice_example =
    overlap_executes_twice empty_manager 10 12 (codes "k") (codes "f") (codes "f") refl refl
