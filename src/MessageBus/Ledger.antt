-- ===== src/MessageBus/Ledger.antt =====
-- What becomes of the messages of the bus: each copy that is delivered waits in a mailbox, or was taken out.
use ai_agent_starter_kit.MessageBus.{
  AgentMessage, insert_behind_urgent, insert_message, enqueue, Bus, dead_letter_limit,
  append_bounded, bury, deliver_to_mailbox,
}
use ai_agent_starter_kit.Common.{
  subst, ℕ, suc, ◌+◌, ◌-◌, ◌≤◌, min, ◌≡◌, refl, ap, inl, inr, Bool, true, false, Option, none, some,
  List, [], ◌∷◌, ◌++◌, arith, leb, if◌then◌else◌, Bool-cases, or_else, length, length-append,
  length-drop, All, Text, text_eq, text_eq_iff,
}
use ai_agent_starter_kit.Common.Dict.{
  Dict, get, put, remove, contains, IsUnique, put-IsUnique, All-put,
}

-- The messages in all mailboxes.
abbrev pub waiting : Dict (List AgentMessage) → ℕ
waiting [] = 0
waiting ((id, inbox) ∷ d) = length inbox + waiting d

abbrev pub inbox_of : Dict (List AgentMessage) → Text → List AgentMessage
inbox_of d id = or_else [] (get d id)

-- The bus when so many messages have left its mailboxes.
abbrev pub IsBalanced : Bus → ℕ → Type 0
IsBalanced b gone =
    IsUnique b.mailboxes
    × All (λ e. length e.1 ≤ b.max_mailbox_size) b.mailboxes
    × (b.delivered_count ≡ waiting b.mailboxes + gone)
    × (length b.dead_letter_queue ≡ min dead_letter_limit b.failed_count)

pub waiting-put :
    (d : Dict (List AgentMessage)) (k : Text) (inbox : List AgentMessage)
    → waiting (put d k inbox) + length (inbox_of d k) ≡ waiting d + length inbox
unfolding get put
waiting-put [] k inbox = omega arith
waiting-put ((i, old) ∷ d) k inbox = ground (arith, waiting-put d k inbox)

waiting-absent :
    (d : Dict (List AgentMessage)) (k : Text)
    → contains d k ≡ false
    → waiting (remove d k) ≡ waiting d
unfolding contains get remove
waiting-absent [] k h = refl
waiting-absent ((i, old) ∷ d) k h = ground (arith, h, waiting-absent d k)

pub waiting-remove :
    (d : Dict (List AgentMessage)) (k : Text)
    → IsUnique d
    → waiting (remove d k) + length (inbox_of d k) ≡ waiting d
unfolding get remove
waiting-remove [] k u = refl
waiting-remove ((i, old) ∷ d) k u = elim (Bool-cases (text_eq i k)) [
  | inl e ↦
      let q : contains d k ≡ false =
        subst (λ x. contains d x ≡ false) ((text_eq_iff i k).0 e) u.0 in
      rw e (omega (arith, waiting-absent d k q))
  | inr e ↦ rw e (omega (arith, waiting-remove d k u.1))
]

length-insert_message :
    (m : AgentMessage) (inbox : List AgentMessage)
    → length (insert_message m inbox) ≡ suc (length inbox)
unfolding insert_message
length-insert_message m inbox = ground (arith, behind inbox, length-append inbox (m ∷ []))
  where
    behind :
        (inbox : List AgentMessage) → length (insert_behind_urgent m inbox) ≡ suc (length inbox)
    behind [] = unfold insert_behind_urgent in refl
    behind (x ∷ inbox) = unfold insert_behind_urgent in ground (arith, behind inbox)

bury-IsBalanced :
    (m : AgentMessage) (b : Bus) (gone : ℕ) → IsBalanced b gone → IsBalanced (bury m b) gone
unfolding bury append_bounded
bury-IsBalanced m b gone h =
    let longer = b.dead_letter_queue ++ m ∷ [] in
    (
      h.0,
      h.1,
      h.2,
      omega (
        arith,
        h.3,
        length-append b.dead_letter_queue (m ∷ []),
        length-drop (length longer - dead_letter_limit) longer,
      ),
    )

pub delivered-IsBalanced :
    (m : AgentMessage) (b : Bus) (gone : ℕ)
    → IsBalanced b gone
    → IsBalanced (deliver_to_mailbox m b).0 gone
unfolding deliver_to_mailbox enqueue
delivered-IsBalanced m b gone h = of_mailbox (get b.mailboxes m.recipient_agent_id) refl
  where
    full :
        (x : Bool) (inbox : List AgentMessage)
        → get b.mailboxes m.recipient_agent_id ≡ some inbox
        → leb b.max_mailbox_size (length inbox) ≡ x
        → IsBalanced
            (elim (if x then none else some (insert_message m inbox)) as (λ _. Bus × Bool) [
              | none ↦ (bury m b, false)
              | some inbox' ↦ (
                record b {
                  mailboxes = put b.mailboxes m.recipient_agent_id inbox';
                  delivered_count = suc b.delivered_count;
                },
                true,
              )
            ]).0
            gone
    full true inbox e x = bury-IsBalanced m b gone h
    full false inbox e x =
        let n = length-insert_message m inbox in
        (
          put-IsUnique b.mailboxes m.recipient_agent_id (insert_message m inbox) h.0,
          All-put (λ e. length e.1 ≤ b.max_mailbox_size) b.mailboxes m.recipient_agent_id
              (insert_message m inbox) h.1 (ground (arith, n, x)),
          ground (
            arith,
            h.2,
            n,
            waiting-put b.mailboxes m.recipient_agent_id (insert_message m inbox),
            ap (λ o. length (or_else [] o)) e,
          ),
          h.3,
        )

    of_mailbox :
        (o : Option (List AgentMessage))
        → get b.mailboxes m.recipient_agent_id ≡ o
        → IsBalanced
            (elim o as (λ _. Bus × Bool) [
              | none ↦ (bury m b, false)
              | some inbox ↦ elim (enqueue b.max_mailbox_size m inbox) [
                | none ↦ (bury m b, false)
                | some inbox' ↦ (
                  record b {
                    mailboxes = put b.mailboxes m.recipient_agent_id inbox';
                    delivered_count = suc b.delivered_count;
                  },
                  true,
                )
              ]
            ]).0
            gone
    of_mailbox none e = bury-IsBalanced m b gone h
    of_mailbox (some inbox) e = full (leb b.max_mailbox_size (length inbox)) inbox e refl
