-- ===== src/Inbox/Examples.antt =====
-- A session with three messages, and the theorems at it.
use ai_agent_starter_kit.Inbox.{
  InboxMessage, Inbox, purge_expired, queue_of, write_back, open_queue, scan, select,
  dequeue_prioritized,
}
use ai_agent_starter_kit.Inbox.Priority.{dequeue_prioritized_exact}
use ai_agent_starter_kit.Inbox.Queue.{drain, drain_in_order}
use ai_agent_starter_kit.Common.{
  ℕ, ◌≡◌, refl, Bool, true, false, none, some, List, [], ◌∷◌, map, codes, text_eq, is_space, lstrip,
  rstrip, strip,
}
use ai_agent_starter_kit.Common.Dict.{get}

abbrev message_at : ℕ → Bool → InboxMessage
message_at time is_follow_up = record {
  session_id = codes "s1";
  run_id = codes "r1";
  message = codes "hello";
  is_follow_up = is_follow_up;
  enqueued_at = time;
}

abbrev waiting : List InboxMessage
waiting = message_at 10 true ∷ message_at 20 false ∷ message_at 30 true ∷ []

abbrev inbox : Inbox
inbox = record { max_queue_length = 100; ttl_seconds = 600; queues = (codes "s1", waiting) ∷ [] }

-- The second message is taken, and the first one is deferred.
takes_second :
    ((dequeue_prioritized inbox 600 (codes " s1") false).1 ≡ some (message_at 20 false))
    × ((dequeue_prioritized inbox 600 (codes " s1") false).2 ≡ true)
unfolding dequeue_prioritized open_queue queue_of purge_expired select scan get text_eq strip lstrip
    rstrip is_space
takes_second = (refl, refl)

dequeue_prioritized_exact_example : dequeue_prioritized inbox 600 (codes " s1") true ≡ (
  write_back inbox (codes "s1") (message_at 20 false ∷ message_at 30 true ∷ []),
  some (message_at 10 true),
  false,
)
unfolding open_queue queue_of purge_expired get text_eq strip lstrip rstrip is_space
dequeue_prioritized_exact_example =
    dequeue_prioritized_exact inbox 600 (codes " s1") true (message_at 10 true)
      (message_at 20 false ∷ message_at 30 true ∷ []) refl

drain_in_order_example :
    ((drain 3 inbox 600 (codes " s1")).1 ≡ map some waiting)
    × (get (drain 3 inbox 600 (codes " s1")).0.queues (codes "s1") ≡ none)
unfolding get text_eq strip lstrip rstrip is_space
drain_in_order_example = drain_in_order waiting inbox 600 (codes " s1") refl refl refl
