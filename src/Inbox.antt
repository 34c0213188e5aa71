-- ===== src/Inbox.antt =====
-- backend/app/services/session_inbox_service.py: one queue of waiting messages per session. The
-- lock makes each method one step; the clock reading of a call is an argument, in whole seconds.
-- Of `meta` only `queue_mode` is read: whether `str(meta.get("queue_mode") or "wait")` is
-- "follow_up" is a field of the message.
pub mod Priority
pub mod Queue
pub mod Length
mod Examples
use ai_agent_starter_kit.Common.{
  ℕ, suc, ◌-◌, max, Bool, true, false, not, ◌&&◌, ◌||◌, Option, none, some, List, [], ◌∷◌, ◌++◌,
  leb, if◌then◌else◌, or_else, length, is_empty, get_elem?, erase_idx, filter, Text, text_eq, strip,
}
use ai_agent_starter_kit.Common.Dict.{Dict, get, put, remove}

pub record InboxMessage : Type 0 where
  pub session_id : Text
  pub run_id : Text
  pub message : Text
  pub is_follow_up : Bool
  pub enqueued_at : ℕ

pub record Inbox : Type 0 where
  pub max_queue_length : ℕ
  pub ttl_seconds : ℕ
  pub queues : Dict (List InboxMessage)

-- `__init__`
unfoldable pub new_inbox : ℕ → ℕ → Inbox
new_inbox max_queue_length ttl_seconds = record {
  max_queue_length = max 1 max_queue_length;
  ttl_seconds = max 1 ttl_seconds;
  queues = [];
}

-- `_purge_expired_locked`: from the left, up to the first message that is young enough.
unfoldable pub purge_expired : ℕ → ℕ → List InboxMessage → List InboxMessage
purge_expired ttl now [] = []
purge_expired ttl now (i ∷ q) =
    let rest = purge_expired ttl now q in if leb (now - i.enqueued_at) ttl then i ∷ q else rest

-- `self._queues.get(session)`, where a missing queue and an empty one are treated alike.
unfoldable pub queue_of : Inbox → Text → List InboxMessage
unfolding get
queue_of b session = or_else [] (get b.queues session)

pub data Enqueued : Type 0 where
  empty_session : Enqueued
  overflow : Inbox → Enqueued
  queued : Inbox → InboxMessage → Enqueued

-- `enqueue`; `empty_session` is the ValueError and `overflow` the OverflowError, which leaves the
-- queue purged.
unfoldable pub enqueue : Inbox → ℕ → Text → Text → Text → Bool → Enqueued
unfolding strip queue_of purge_expired put
enqueue b now session_id run_id message is_follow_up =
    let session = strip session_id in
    let payload : InboxMessage = record {
      session_id = session;
      run_id = strip run_id;
      message = message;
      is_follow_up = is_follow_up;
      enqueued_at = now;
    } in
    let queue = purge_expired b.ttl_seconds now (queue_of b session) in
    if is_empty session
    then empty_session
    else if leb b.max_queue_length (length queue)
    then overflow (record b { queues = put b.queues session queue })
    else queued (record b { queues = put b.queues session (queue ++ payload ∷ []) }) payload

-- The queue is written back, or popped when it is empty.
unfoldable pub write_back : Inbox → Text → List InboxMessage → Inbox
unfolding remove put
write_back b session [] = record b { queues = remove b.queues session }
write_back b session (i ∷ q) = record b { queues = put b.queues session (i ∷ q) }

-- What a reading method finds: nothing to do for a session without messages, or the purged queue.
unfoldable pub open_queue : Inbox → ℕ → Text → Option (List InboxMessage)
unfolding queue_of purge_expired
open_queue b now session =
    let queue = queue_of b session in
    if is_empty session || is_empty queue
    then none
    else some (purge_expired b.ttl_seconds now queue)

unfoldable pub dequeue : Inbox → ℕ → Text → Inbox × Option InboxMessage
unfolding strip open_queue write_back
dequeue b now session_id = elim (open_queue b now (strip session_id)) [
  | none ↦ (b, none)
  | some [] ↦ (write_back b (strip session_id) [], none)
  | some (i ∷ q) ↦ (write_back b (strip session_id) q, some i)
]

-- The index of the first message for which the test holds, counted from `n`.
unfoldable pub first_index : (InboxMessage → Bool) → ℕ → List InboxMessage → Option ℕ
first_index p n [] = none
first_index p n (i ∷ q) = let rest = first_index p (suc n) q in if p i then some n else rest

-- The loop without `force_follow_up`, at index `n`: the index it selects, 0 if it runs out, and
-- whether it has passed a follow-up.
unfoldable pub scan : ℕ → Bool → List InboxMessage → ℕ × Bool
scan n deferred [] = (0, deferred)
scan n deferred (i ∷ q) =
    let rest = scan (suc n) true q in if i.is_follow_up then rest else (n, deferred)

unfoldable pub select : Bool → List InboxMessage → ℕ × Bool
unfolding first_index scan
select true q = (or_else 0 (first_index (λ i. i.is_follow_up) 0 q), false)
select false q = scan 0 false q

unfoldable pub dequeue_prioritized : Inbox → ℕ → Text → Bool → Inbox × Option InboxMessage × Bool
unfolding strip open_queue write_back select
dequeue_prioritized b now session_id force_follow_up =
    let session = strip session_id in
    elim (open_queue b now session) [
      | none ↦ (b, none, false)
      | some [] ↦ (write_back b session [], none, false)
      | some (i ∷ q) ↦
          let s = select force_follow_up (i ∷ q) in
          let item = or_else i (get_elem? (i ∷ q) s.0) in
          (write_back b session (erase_idx (i ∷ q) s.0), some item, s.1 && not item.is_follow_up)
    ]

-- The purge as a call of its own: what `peek_newer_than` and `size` do to the state.
unfoldable pub touch : Inbox → Text → Option (List InboxMessage) → Inbox
unfolding write_back
touch b session none = b
touch b session (some q) = write_back b session q

unfoldable pub peek_newer_than : Inbox → ℕ → Text → Text → Inbox × List InboxMessage
unfolding strip open_queue touch text_eq
peek_newer_than b now session_id run_id =
    let session = strip session_id in
    let marker = strip run_id in
    let found = open_queue b now session in
    let queue = or_else [] found in
    (
      touch b session found,
      if is_empty marker
          then queue
          else filter (λ i. not (is_empty i.run_id) && not (text_eq i.run_id marker)) queue,
    )

unfoldable pub has_newer_than : Inbox → ℕ → Text → Text → Inbox × Bool
unfolding peek_newer_than
has_newer_than b now session_id run_id =
    let r = peek_newer_than b now session_id run_id in (r.0, not (is_empty r.1))

unfoldable pub size : Inbox → ℕ → Text → Inbox × ℕ
unfolding strip open_queue touch
size b now session_id =
    let found = open_queue b now (strip session_id) in
    (touch b (strip session_id) found, length (or_else [] found))
