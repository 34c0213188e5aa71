-- ===== src/MessageBus/Conservation.antt =====
-- No delivered message is lost: the calls of the bus keep its ledger.
use ai_agent_starter_kit.MessageBus.{
  MessageType, directed, broadcast, request, reply, topic_message, AgentMessage, dequeue, Bus,
  new_bus, deliver_to_mailbox, deliver_reply, is_request, reply_to, deliver_direct, deliver_copies,
  others, send, register_agent, unregister_agent, set_handler, subscribe, unsubscribe, receive,
  begin_request, end_request,
}
use ai_agent_starter_kit.MessageBus.Ledger.{
  inbox_of, IsBalanced, waiting-put, waiting-remove, delivered-IsBalanced,
}
use ai_agent_starter_kit.Common.{
  subst, ℕ, suc, ◌+◌, ◌≤◌, ◌≡◌, refl, ap, Bool, true, false, ◌&&◌, Option, none, some, List, [],
  ◌∷◌, arith, if◌then◌else◌, is_some, or_else, length, is_empty, Text, normalize,
}
use ai_agent_starter_kit.Common.Dict.{
  Dict, get, put, contains, keys, put-IsUnique, remove-IsUnique, All-put, All-remove, All-get,
}

deliver_reply-IsBalanced :
    (m : AgentMessage) (b : Bus) (gone : ℕ)
    → IsBalanced b gone
    → IsBalanced (deliver_reply m b) gone
unfolding deliver_reply
deliver_reply-IsBalanced m b gone h = of_pending (get b.pending_replies m.correlation_id)
  where
    of_pending :
        (o : Option (Option AgentMessage))
        → IsBalanced
            (deliver_to_mailbox m (elim o as (λ _. Bus) [
              | some none ↦ record b {
                pending_replies = put b.pending_replies m.correlation_id (some m);
              }
              | _ ↦ b
            ])).0
            gone
    of_pending none = delivered-IsBalanced m b gone h
    of_pending (some none) =
        delivered-IsBalanced m
          (record b { pending_replies = put b.pending_replies m.correlation_id (some m) }) gone h
    of_pending (some (some earlier)) = delivered-IsBalanced m b gone h

deliver_direct-IsBalanced :
    (m : AgentMessage) (b : Bus) (gone : ℕ)
    → IsBalanced b gone
    → IsBalanced (deliver_direct m b) gone
unfolding deliver_direct
deliver_direct-IsBalanced m b gone h =
    handled (deliver_to_mailbox m b).0 (delivered-IsBalanced m b gone h)
      ((deliver_to_mailbox m b).1 && is_request m.message_type)
  where
    replied :
        (b' : Bus)
        → IsBalanced b' gone
        → (o : Option (AgentMessage → Option Text))
        → IsBalanced
            (elim o as (λ _. Bus) [
              | none ↦ b'
              | some handler ↦ elim (handler m) [
                | none ↦ b'
                | some payload ↦
                    deliver_reply
                      (reply_to m payload)
                      (record b' { sent_count = suc b'.sent_count })
              ]
            ])
            gone
    replied b' g none = g
    replied b' g (some handler) = of_reply (handler m)
      where
        of_reply :
            (o : Option Text)
            → IsBalanced
                (elim o as (λ _. Bus) [
                  | none ↦ b'
                  | some payload ↦
                      deliver_reply
                        (reply_to m payload)
                        (record b' { sent_count = suc b'.sent_count })
                ])
                gone
        of_reply none = g
        of_reply (some payload) =
            deliver_reply-IsBalanced (reply_to m payload)
              (record b' { sent_count = suc b'.sent_count }) gone g

    handled :
        (b' : Bus)
        → IsBalanced b' gone
        → (x : Bool)
        → IsBalanced
            (if x
              then elim (get b'.message_handlers m.recipient_agent_id) as (λ _. Bus) [
                | none ↦ b'
                | some handler ↦ elim (handler m) [
                  | none ↦ b'
                  | some payload ↦
                      deliver_reply
                        (reply_to m payload)
                        (record b' { sent_count = suc b'.sent_count })
                ]
              ]
              else b')
            gone
    handled b' g true = replied b' g (get b'.message_handlers m.recipient_agent_id)
    handled b' g false = g

deliver_copies-IsBalanced :
    (m : AgentMessage) (targets : List Text) (b : Bus) (gone : ℕ)
    → IsBalanced b gone
    → IsBalanced (deliver_copies m targets b) gone
unfolding deliver_copies
deliver_copies-IsBalanced m [] b gone h = h
deliver_copies-IsBalanced m (t ∷ targets) b gone h =
    deliver_copies-IsBalanced m targets (deliver_direct (record m { recipient_agent_id = t }) b)
      gone (deliver_direct-IsBalanced (record m { recipient_agent_id = t }) b gone h)

send-IsBalanced :
    (given : AgentMessage) (b : Bus) (gone : ℕ) → IsBalanced b gone → IsBalanced (send given b) gone
unfolding send
send-IsBalanced given b gone h = by_type given.message_type
  where
    m : AgentMessage
    m = record given {
      sender_agent_id = normalize given.sender_agent_id;
      recipient_agent_id = normalize given.recipient_agent_id;
    }

    counted : Bus
    counted = record b { sent_count = suc b.sent_count }

    by_topic :
        (x : Bool)
        → IsBalanced
            (if x
              then deliver_direct m counted
              else deliver_copies m
                  (others m.sender_agent_id
                    (or_else [] (get counted.topic_subscribers (normalize m.topic))))
                  counted)
            gone
    by_topic true = deliver_direct-IsBalanced m counted gone h
    by_topic false =
        deliver_copies-IsBalanced m
          (others m.sender_agent_id
            (or_else [] (get counted.topic_subscribers (normalize m.topic))))
          counted gone h

    by_type :
        (t : MessageType)
        → IsBalanced
            (elim t as (λ _. Bus) [
              | broadcast ↦
                  deliver_copies m (others m.sender_agent_id (keys counted.mailboxes)) counted
              | topic_message ↦
                  if is_empty m.topic
                  then deliver_direct m counted
                  else deliver_copies m
                      (others m.sender_agent_id
                        (or_else [] (get counted.topic_subscribers (normalize m.topic))))
                      counted
              | reply ↦ deliver_reply m counted
              | directed ↦ deliver_direct m counted
              | request ↦ deliver_direct m counted
            ])
            gone
    by_type broadcast =
        deliver_copies-IsBalanced m (others m.sender_agent_id (keys counted.mailboxes)) counted gone
          h
    by_type topic_message = by_topic (is_empty m.topic)
    by_type reply = deliver_reply-IsBalanced m counted gone h
    by_type directed = deliver_direct-IsBalanced m counted gone h
    by_type request = deliver_direct-IsBalanced m counted gone h

receive-IsBalanced :
    (id : Text) (b : Bus) (gone : ℕ)
    → IsBalanced b gone
    → IsBalanced (receive id b).0 (if is_some (receive id b).1 then suc gone else gone)
unfolding receive dequeue
receive-IsBalanced id b gone h = of_inbox (get b.mailboxes (normalize id)) refl
  where
    of_inbox :
        (o : Option (List AgentMessage))
        → get b.mailboxes (normalize id) ≡ o
        → let r = elim o as (λ _. Bus × Option AgentMessage) [
          | none ↦ (b, none)
          | some inbox ↦ elim (dequeue inbox) [
            | none ↦ (b, none)
            | some (m, rest) ↦
                (record b { mailboxes = put b.mailboxes (normalize id) rest }, some m)
          ]
        ] in
          IsBalanced r.0 (if is_some r.1 then suc gone else gone)
    of_inbox none e = h
    of_inbox (some []) e = h
    of_inbox (some (m ∷ rest)) e = (
      put-IsUnique b.mailboxes (normalize id) rest h.0,
      All-put (λ e. length e.1 ≤ b.max_mailbox_size) b.mailboxes (normalize id) rest h.1
          (let l =
              All-get (λ e. length e.1 ≤ b.max_mailbox_size) b.mailboxes (normalize id) (m ∷ rest)
                h.1 e in
            omega (arith, l)),
      ground (
        arith,
        h.2,
        waiting-put b.mailboxes (normalize id) rest,
        ap (λ o. length (or_else [] o)) e,
      ),
      h.3,
    )

pub data BusCall : Type 0 where
  sending : AgentMessage → BusCall
  registering unregistering receiving : Text → BusCall
  handling : Text → (AgentMessage → Option Text) → BusCall
  subscribing unsubscribing : Text → Text → BusCall
  beginning ending : Text → BusCall

-- The bus after a call, and the messages that the call has taken out of the mailboxes.
unfoldable pub bus_step : BusCall → Bus → Bus × ℕ
unfolding send register_agent unregister_agent receive set_handler subscribe unsubscribe
    begin_request end_request
bus_step (sending m) b = (send m b, 0)
bus_step (registering id) b = (or_else b (register_agent id b), 0)
bus_step (unregistering id) b =
    (unregister_agent id b, length (inbox_of b.mailboxes (normalize id)))
bus_step (receiving id) b = ((receive id b).0, if is_some (receive id b).1 then 1 else 0)
bus_step (handling id handler) b = (set_handler id handler b, 0)
bus_step (subscribing id t) b = (subscribe id t b, 0)
bus_step (unsubscribing id t) b = (unsubscribe id t b, 0)
bus_step (beginning id) b = (begin_request id b, 0)
bus_step (ending id) b = ((end_request id b).0, 0)

unfoldable pub bus_run : List BusCall → Bus → ℕ → Bus × ℕ
unfolding bus_step
bus_run [] b gone = (b, gone)
bus_run (call ∷ calls) b gone = let (b', n) = bus_step call b in bus_run calls b' (gone + n)

none_gone : (b : Bus) (gone : ℕ) → IsBalanced b gone → IsBalanced b (gone + 0)
none_gone b gone h = subst (IsBalanced b) (omega arith) h

register-IsBalanced :
    (id : Text) (b : Bus) (gone : ℕ)
    → IsBalanced b gone
    → IsBalanced (or_else b (register_agent id b)) gone
unfolding register_agent
register-IsBalanced id b gone h =
    of_id (is_empty (normalize id)) (contains b.mailboxes (normalize id)) refl
  where
    of_id :
        (blank known : Bool)
        → contains b.mailboxes (normalize id) ≡ known
        → IsBalanced
            (or_else b (
              if blank
              then none
              else if known
              then some b
              else some (record b { mailboxes = put b.mailboxes (normalize id) [] })))
            gone
    of_id true known e = h
    of_id false true e = h
    of_id false false e = (
      put-IsUnique b.mailboxes (normalize id) [] h.0,
      All-put (λ e. length e.1 ≤ b.max_mailbox_size) b.mailboxes (normalize id) [] h.1
          (omega arith),
      omega (
        arith,
        h.2,
        waiting-put b.mailboxes (normalize id) [],
        absent_inbox b.mailboxes (normalize id) e,
      ),
      h.3,
    )
      where
        absent_inbox :
            (d : Dict (List AgentMessage)) (k : Text)
            → contains d k ≡ false
            → length (inbox_of d k) ≡ 0
        absent_inbox d k c = unfold contains in ground (arith, c)

-- Subscriptions do not touch what the ledger reads.
abbrev SameLedger : Bus → Bus → Type 0
SameLedger b b' =
    (b'.max_mailbox_size ≡ b.max_mailbox_size)
    × (b'.mailboxes ≡ b.mailboxes)
    × (b'.delivered_count ≡ b.delivered_count)
    × (b'.failed_count ≡ b.failed_count)
    × (b'.dead_letter_queue ≡ b.dead_letter_queue)

subscribe-SameLedger : (id t : Text) (b : Bus) → SameLedger b (subscribe id t b)
unfolding subscribe
subscribe-SameLedger id t b = ground arith

unsubscribe-SameLedger : (id t : Text) (b : Bus) → SameLedger b (unsubscribe id t b)
unfolding unsubscribe
unsubscribe-SameLedger id t b = ground arith

same-IsBalanced : (b b' : Bus) (gone : ℕ) → SameLedger b b' → IsBalanced b gone → IsBalanced b' gone
same-IsBalanced b b' gone s h = rw (s.0, s.1, s.2, s.3, s.4) h

bus_step-IsBalanced :
    (call : BusCall) (b : Bus) (gone : ℕ)
    → IsBalanced b gone
    → IsBalanced (bus_step call b).0 (gone + (bus_step call b).1)
unfolding bus_step
bus_step-IsBalanced (sending m) b gone h = none_gone (send m b) gone (send-IsBalanced m b gone h)
bus_step-IsBalanced (registering id) b gone h =
    none_gone (or_else b (register_agent id b)) gone (register-IsBalanced id b gone h)
bus_step-IsBalanced (unregistering id) b gone h =
    unfold unregister_agent in
    (
      remove-IsUnique b.mailboxes (normalize id) h.0,
      All-remove (λ e. length e.1 ≤ b.max_mailbox_size) b.mailboxes (normalize id) h.1,
      omega (arith, h.2, waiting-remove b.mailboxes (normalize id) h.0),
      h.3,
    )
bus_step-IsBalanced (receiving id) b gone h =
    subst (IsBalanced (receive id b).0) (ground arith) (receive-IsBalanced id b gone h)
bus_step-IsBalanced (handling id handler) b gone h =
    none_gone (set_handler id handler b) gone (unfold set_handler in h)
bus_step-IsBalanced (subscribing id t) b gone h =
    none_gone (subscribe id t b) gone
      (same-IsBalanced b (subscribe id t b) gone (subscribe-SameLedger id t b) h)
bus_step-IsBalanced (unsubscribing id t) b gone h =
    none_gone (unsubscribe id t b) gone
      (same-IsBalanced b (unsubscribe id t b) gone (unsubscribe-SameLedger id t b) h)
bus_step-IsBalanced (beginning id) b gone h =
    none_gone (begin_request id b) gone (unfold begin_request in h)
bus_step-IsBalanced (ending id) b gone h =
    none_gone (end_request id b).0 gone (unfold end_request in h)

bus_run-from :
    (calls : List BusCall) (b : Bus) (gone : ℕ)
    → IsBalanced b gone
    → IsBalanced (bus_run calls b gone).0 (bus_run calls b gone).1
unfolding bus_run
bus_run-from [] b gone h = h
bus_run-from (call ∷ calls) b gone h =
    bus_run-from calls (bus_step call b).0 (gone + (bus_step call b).1)
      (bus_step-IsBalanced call b gone h)

-- On a new bus, over any calls: the copies that the bus counts as delivered are as many as wait in
-- the mailboxes and were taken out of them, by `receive` or by the end of an agent's registration;
-- no mailbox is over its size; and there are as many dead letters as failed deliveries, up to the
-- limit of 200.
pub bus_run-IsBalanced :
    (calls : List BusCall) (max_mailbox_size : ℕ)
    → let (b, gone) = bus_run calls (new_bus max_mailbox_size) 0 in IsBalanced b gone
bus_run-IsBalanced calls max_mailbox_size =
    bus_run-from calls (new_bus max_mailbox_size) 0 (tt, tt, refl, refl)
