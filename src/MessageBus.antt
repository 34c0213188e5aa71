-- ===== src/MessageBus.antt =====
-- backend/app/multi_agency/agent_message_bus.py: the mailboxes of the agents of a session, and the bus that
-- delivers to them. A handler is a function from a message to the payload of its reply; none stands for no
-- reply, a timeout and an exception alike. Message ids, times, metadata and the message log are left
-- out; the waiting for a message is left out too, as it only ends in a dequeue.
pub mod Mailbox
pub mod Ledger
pub mod Conservation
mod Examples
use ai_agent_starter_kit.Common.{
  ℕ, suc, ◌-◌, max, Bool, true, false, not, ◌&&◌, ◌||◌, Option, none, some, List, [], ◌∷◌, ◌++◌,
  leb, if◌then◌else◌, or_else, length, is_empty, drop, filter, Text, text_eq, normalize, add_member,
  discard,
}
use ai_agent_starter_kit.Common.Dict.{Dict, get, put, remove, contains, keys}

pub data MessagePriority : Type 0 where
  low normal high urgent : MessagePriority

-- `MessageType`; `directed` are the types that are delivered like DIRECT.
pub data MessageType : Type 0 where
  directed broadcast request reply topic_message : MessageType

pub record AgentMessage : Type 0 where
  pub sender_agent_id : Text
  pub recipient_agent_id : Text
  pub message_type : MessageType
  pub payload : Text
  pub priority : MessagePriority
  pub correlation_id : Text
  pub topic : Text

abbrev pub is_urgent : MessagePriority → Bool
is_urgent urgent = true
is_urgent _ = false

abbrev pub is_high : MessagePriority → Bool
is_high high = true
is_high _ = false

-- The insertion of a message of high priority behind the urgent ones in front.
unfoldable pub insert_behind_urgent : AgentMessage → List AgentMessage → List AgentMessage
insert_behind_urgent m [] = m ∷ []
insert_behind_urgent m (existing ∷ inbox) =
    let rest = insert_behind_urgent m inbox in
    if not (is_urgent existing.priority) then m ∷ existing ∷ inbox else existing ∷ rest

-- The insertion of `AgentMailbox.enqueue`, by priority.
unfoldable pub insert_message : AgentMessage → List AgentMessage → List AgentMessage
unfolding insert_behind_urgent
insert_message m inbox =
    if is_urgent m.priority
    then m ∷ inbox
    else if is_high m.priority
    then insert_behind_urgent m inbox
    else inbox ++ m ∷ []

-- `AgentMailbox.enqueue`; none is the full mailbox. A mailbox is its inbox, the bus has the size.
unfoldable pub enqueue : ℕ → AgentMessage → List AgentMessage → Option (List AgentMessage)
unfolding insert_message
enqueue max_size m inbox =
    if leb max_size (length inbox) then none else some (insert_message m inbox)

-- `AgentMailbox.dequeue`
unfoldable pub dequeue : List AgentMessage → Option (AgentMessage × List AgentMessage)
dequeue [] = none
dequeue (m ∷ inbox) = some (m, inbox)

-- The attributes of `AgentMessageBus`. A request that waits for its reply is an entry of
-- `pending_replies`, with the reply once it is there.
pub record Bus : Type 0 where
  pub max_mailbox_size : ℕ
  pub mailboxes : Dict (List AgentMessage)
  pub topic_subscribers : Dict (List Text)
  pub message_handlers : Dict (AgentMessage → Option Text)
  pub dead_letter_queue : List AgentMessage
  pub sent_count : ℕ
  pub delivered_count : ℕ
  pub failed_count : ℕ
  pub pending_replies : Dict (Option AgentMessage)

abbrev pub new_bus : ℕ → Bus
new_bus max_mailbox_size = record {
  max_mailbox_size = max 10 max_mailbox_size;
  mailboxes = [];
  topic_subscribers = [];
  message_handlers = [];
  dead_letter_queue = [];
  sent_count = 0;
  delivered_count = 0;
  failed_count = 0;
  pending_replies = [];
}

abbrev pub dead_letter_limit : ℕ
dead_letter_limit = 200

-- `append` of a deque with `maxlen`: the oldest goes.
unfoldable pub append_bounded : ℕ → List AgentMessage → AgentMessage → List AgentMessage
append_bounded limit queue m = let longer = queue ++ m ∷ [] in drop (length longer - limit) longer

unfoldable pub bury : AgentMessage → Bus → Bus
unfolding append_bounded
bury m b = record b {
  dead_letter_queue = append_bounded dead_letter_limit b.dead_letter_queue m;
  failed_count = suc b.failed_count;
}

-- The part of `_deliver_direct` before the handler, with the flag whether the message was delivered.
unfoldable pub deliver_to_mailbox : AgentMessage → Bus → Bus × Bool
unfolding bury enqueue get put
deliver_to_mailbox m b = elim (get b.mailboxes m.recipient_agent_id) [
  | none ↦ (bury m b, false)
  | some inbox ↦ elim (enqueue b.max_mailbox_size m inbox) [
    | none ↦ (bury m b, false)
    | some inbox' ↦ (
      record b {
        mailboxes = put b.mailboxes m.recipient_agent_id inbox';
        delivered_count = suc b.delivered_count;
      },
      true,
    )
  ]
]

-- `_deliver_reply`: a pending request gets the reply, which also goes to the mailbox.
unfoldable pub deliver_reply : AgentMessage → Bus → Bus
unfolding deliver_to_mailbox get put
deliver_reply m b =
    let resolved = elim (get b.pending_replies m.correlation_id) as (λ _. Bus) [
      | some none ↦ record b { pending_replies = put b.pending_replies m.correlation_id (some m) }
      | _ ↦ b
    ] in
    (deliver_to_mailbox m resolved).0

abbrev pub is_request : MessageType → Bool
is_request request = true
is_request _ = false

-- The reply of a handler, through `reply` and `send`.
abbrev pub reply_to : AgentMessage → Text → AgentMessage
reply_to m payload = record {
  sender_agent_id = normalize m.recipient_agent_id;
  recipient_agent_id = normalize m.sender_agent_id;
  message_type = reply;
  payload = payload;
  priority = normal;
  correlation_id = m.correlation_id;
  topic = [];
}

-- `_deliver_direct`
unfoldable pub deliver_direct : AgentMessage → Bus → Bus
unfolding deliver_to_mailbox deliver_reply get normalize
deliver_direct m b =
    let (b', delivered) = deliver_to_mailbox m b in
    if delivered && is_request m.message_type
    then elim (get b'.message_handlers m.recipient_agent_id) [
      | none ↦ b'
      | some handler ↦ elim (handler m) [
        | none ↦ b'
        | some payload ↦
            deliver_reply (reply_to m payload) (record b' { sent_count = suc b'.sent_count })
      ]
    ]
    else b'

-- The copies of `_broadcast` and `_publish_topic`, one after the other.
unfoldable pub deliver_copies : AgentMessage → List Text → Bus → Bus
unfolding deliver_direct
deliver_copies m [] b = b
deliver_copies m (target ∷ targets) b =
    deliver_copies m targets (deliver_direct (record m { recipient_agent_id = target }) b)

abbrev pub others : Text → List Text → List Text
others sender ids = filter (λ id. not (text_eq id sender)) ids

-- `send`, for a message with the ids as they are given.
unfoldable pub send : AgentMessage → Bus → Bus
unfolding normalize deliver_copies deliver_direct deliver_reply get text_eq
send given b =
    let m = record given {
      sender_agent_id = normalize given.sender_agent_id;
      recipient_agent_id = normalize given.recipient_agent_id;
    } in
    let counted = record b { sent_count = suc b.sent_count } in
    elim m.message_type [
      | broadcast ↦ deliver_copies m (others m.sender_agent_id (keys counted.mailboxes)) counted
      | topic_message ↦
          if is_empty m.topic
          then deliver_direct m counted
          else deliver_copies m
              (others m.sender_agent_id
                (or_else [] (get counted.topic_subscribers (normalize m.topic))))
              counted
      | reply ↦ deliver_reply m counted
      | directed ↦ deliver_direct m counted
      | request ↦ deliver_direct m counted
    ]

-- `register_agent`; none is the ValueError.
unfoldable pub register_agent : Text → Bus → Option Bus
unfolding normalize contains put
register_agent agent_id b =
    let normalized = normalize agent_id in
    if is_empty normalized
    then none
    else if contains b.mailboxes normalized
    then some b
    else some (record b { mailboxes = put b.mailboxes normalized [] })

abbrev pub discard_everywhere : Text → Dict (List Text) → Dict (List Text)
discard_everywhere agent_id [] = []
discard_everywhere agent_id ((t, ids) ∷ d) =
    (t, discard agent_id ids) ∷ discard_everywhere agent_id d

unfoldable pub unregister_agent : Text → Bus → Bus
unfolding normalize remove discard
unregister_agent agent_id b =
    let normalized = normalize agent_id in
    record b {
      mailboxes = remove b.mailboxes normalized;
      message_handlers = remove b.message_handlers normalized;
      topic_subscribers = discard_everywhere normalized b.topic_subscribers;
    }

unfoldable pub set_handler : Text → (AgentMessage → Option Text) → Bus → Bus
unfolding normalize put
set_handler agent_id handler b = record b {
  message_handlers = put b.message_handlers (normalize agent_id) handler;
}

unfoldable pub subscribe : Text → Text → Bus → Bus
unfolding normalize get put add_member
subscribe agent_id t b =
    let agent = normalize agent_id in
    let name = normalize t in
    if is_empty agent || is_empty name then b else record b {
      topic_subscribers =
          put b.topic_subscribers name
            (add_member agent (or_else [] (get b.topic_subscribers name)));
    }

unfoldable pub unsubscribe : Text → Text → Bus → Bus
unfolding normalize get put discard
unsubscribe agent_id t b =
    let name = normalize t in
    elim (get b.topic_subscribers name) [
      | none ↦ b
      | some ids ↦ record b {
        topic_subscribers = put b.topic_subscribers name (discard (normalize agent_id) ids);
      }
    ]

-- `receive`
unfoldable pub receive : Text → Bus → Bus × Option AgentMessage
unfolding normalize get put dequeue
receive agent_id b = elim (get b.mailboxes (normalize agent_id)) [
  | none ↦ (b, none)
  | some inbox ↦ elim (dequeue inbox) [
    | none ↦ (b, none)
    | some (m, rest) ↦ (record b { mailboxes = put b.mailboxes (normalize agent_id) rest }, some m)
  ]
]

-- The two ends of `request`: the waiting begins, and ends with the reply or the timeout.
unfoldable pub begin_request : Text → Bus → Bus
unfolding put
begin_request correlation_id b = record b {
  pending_replies = put b.pending_replies correlation_id none;
}

unfoldable pub end_request : Text → Bus → Bus × Option AgentMessage
unfolding get remove
end_request correlation_id b = (
  record b { pending_replies = remove b.pending_replies correlation_id },
  or_else none (get b.pending_replies correlation_id),
)
