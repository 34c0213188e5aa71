-- ===== src/MessageBus/Mailbox.antt =====
-- A mailbox as three bands: the urgent messages, those of high priority, and the others.
use ai_agent_starter_kit.MessageBus.{
  AgentMessage, is_urgent, is_high, insert_behind_urgent, insert_message, enqueue, dequeue,
}
use ai_agent_starter_kit.Common.{
  subst, append_assoc, ℕ, ◌+◌, ◌≡◌, refl, ap, ◌∙◌, inl, inr, Bool, true, false, Option, none, some,
  List, [], ◌∷◌, ◌++◌, arith, leb, if◌then◌else◌, Bool-cases, length, length-append, All,
  All-append,
}

pub record Bands : Type 0 where
  pub urgent_ones : List AgentMessage
  pub high_ones : List AgentMessage
  pub other_ones : List AgentMessage

abbrev pub flatten : Bands → List AgentMessage
flatten b = b.urgent_ones ++ (b.high_ones ++ b.other_ones)

abbrev pub size : Bands → ℕ
size b = length b.urgent_ones + length b.high_ones + length b.other_ones

-- The urgent and the high band are stacks, the other one is a queue.
abbrev pub push : AgentMessage → Bands → Bands
push m b =
    if is_urgent m.priority
    then record b { urgent_ones = m ∷ b.urgent_ones }
    else if is_high m.priority
    then record b { high_ones = m ∷ b.high_ones }
    else record b { other_ones = b.other_ones ++ m ∷ [] }

-- The first message of the first band that has one.
abbrev pub pop : Bands → Option (AgentMessage × Bands)
pop b = elim b.urgent_ones [
  | m ∷ u ↦ some (m, record b { urgent_ones = u })
  | [] ↦ elim b.high_ones [
    | m ∷ h ↦ some (m, record b { high_ones = h })
    | [] ↦ elim b.other_ones [ m ∷ o ↦ some (m, record b { other_ones = o }) | [] ↦ none ]
  ]
]

-- What is done with a mailbox: a message is put in, or the next one is taken out.
pub data MailboxCall : Type 0 where
  put_in : AgentMessage → MailboxCall
  take_out : MailboxCall

-- The messages that are taken out of the mailbox over some calls; none is an empty mailbox.
unfoldable pub serve : ℕ → List MailboxCall → List AgentMessage → List (Option AgentMessage)
unfolding enqueue dequeue
serve max_size [] inbox = []
serve max_size (put_in m ∷ calls) inbox = elim (enqueue max_size m inbox) [
  | none ↦ serve max_size calls inbox
  | some inbox' ↦ serve max_size calls inbox'
]
serve max_size (take_out ∷ calls) inbox = elim (dequeue inbox) [
  | none ↦ none ∷ serve max_size calls inbox
  | some (m, rest) ↦ some m ∷ serve max_size calls rest
]

-- The same for the bands.
unfoldable pub serve_bands : ℕ → List MailboxCall → Bands → List (Option AgentMessage)
serve_bands max_size [] b = []
serve_bands max_size (put_in m ∷ calls) b =
    serve_bands max_size calls (if leb max_size (size b) then b else push m b)
serve_bands max_size (take_out ∷ calls) b = elim (pop b) [
  | none ↦ none ∷ serve_bands max_size calls b
  | some (m, b') ↦ some m ∷ serve_bands max_size calls b'
]

abbrev pub AllUrgent : List AgentMessage → Type 0
AllUrgent ms = All (λ m. is_urgent m.priority ≡ true) ms

abbrev pub NoneUrgent : List AgentMessage → Type 0
NoneUrgent ms = All (λ m. is_urgent m.priority ≡ false) ms

abbrev pub AreBands : Bands → Type 0
AreBands b = AllUrgent b.urgent_ones × NoneUrgent (b.high_ones ++ b.other_ones)

insert_in_front :
    (m : AgentMessage) (ms : List AgentMessage) → NoneUrgent ms → insert_behind_urgent m ms ≡ m ∷ ms
unfolding insert_behind_urgent
insert_in_front m [] h = refl
insert_in_front m (x ∷ ms) h = rw (h.0) refl

insert_behind-bands :
    (m : AgentMessage) (us ms : List AgentMessage)
    → AllUrgent us
    → NoneUrgent ms
    → insert_behind_urgent m (us ++ ms) ≡ us ++ m ∷ ms
unfolding insert_behind_urgent
insert_behind-bands m [] ms hu hm = insert_in_front m ms hm
insert_behind-bands m (u ∷ us) ms hu hm =
    rw (hu.0) (ap (λ l. u ∷ l) (insert_behind-bands m us ms hu.1 hm))

insert_message-push :
    (m : AgentMessage) (b : Bands)
    → AreBands b
    → (insert_message m (flatten b) ≡ flatten (push m b)) × AreBands (push m b)
unfolding insert_message
insert_message-push m b h = elim (Bool-cases (is_urgent m.priority)) [
  | inl u ↦ rw u (refl, ((u, h.0), h.1))
  | inr n ↦ elim (Bool-cases (is_high m.priority)) [
    | inl g ↦
        rw (n, g)
          (
            insert_behind-bands m b.urgent_ones (b.high_ones ++ b.other_ones) h.0 h.1,
            (h.0, (n, h.1)),
          )
    | inr g ↦
        rw (n, g)
          (
            append_assoc b.urgent_ones (b.high_ones ++ b.other_ones) (m ∷ [])
                ∙ ap (λ l. b.urgent_ones ++ l) (append_assoc b.high_ones b.other_ones (m ∷ [])),
            (
              h.0,
              subst NoneUrgent (append_assoc b.high_ones b.other_ones (m ∷ [])) (
                  All-append (λ m. is_urgent m.priority ≡ false) (b.high_ones ++ b.other_ones)
                    (m ∷ []) h.1 (n, tt)),
            ),
          )
  ]
]

length-flatten : (b : Bands) → length (flatten b) ≡ size b
length-flatten b = omega (
  arith,
  length-append b.urgent_ones (b.high_ones ++ b.other_ones),
  length-append b.high_ones b.other_ones,
)

-- The first message of a mailbox is the one of the bands.
abbrev SamePop : Option (AgentMessage × List AgentMessage) → Option (AgentMessage × Bands) → Type 0
SamePop none none = Unit
SamePop (some (m, rest)) (some (m', b)) = (m ≡ m') × (rest ≡ flatten b) × AreBands b
SamePop _ _ = ⊥

pop-SamePop :
    (u h o : List AgentMessage)
    → AreBands (record { urgent_ones = u; high_ones = h; other_ones = o })
    → let b : Bands = record { urgent_ones = u; high_ones = h; other_ones = o } in
      SamePop (dequeue (flatten b)) (pop b)
unfolding dequeue
pop-SamePop (m ∷ u) h o v = (refl, refl, (v.0.1, v.1))
pop-SamePop [] (m ∷ h) o v = (refl, refl, (v.0, v.1.1))
pop-SamePop [] [] (m ∷ o) v = (refl, refl, (v.0, v.1.1))
pop-SamePop [] [] [] v = tt

-- Taking out, in front of the rest of the calls.
taken :
    (max_size : ℕ) (calls : List MailboxCall) (b : Bands)
    → AreBands b
    → ((b' : Bands)
        → AreBands b'
        → serve max_size calls (flatten b') ≡ serve_bands max_size calls b')
    → (o : Option (AgentMessage × List AgentMessage)) (p : Option (AgentMessage × Bands))
    → SamePop o p
    → (elim o as (λ _. List (Option AgentMessage)) [
      | none ↦ none ∷ serve max_size calls (flatten b)
      | some (m, rest) ↦ some m ∷ serve max_size calls rest
    ])
      ≡ (elim p as (λ _. List (Option AgentMessage)) [
        | none ↦ none ∷ serve_bands max_size calls b
        | some (m, b') ↦ some m ∷ serve_bands max_size calls b'
      ])
taken max_size calls b h k none none s = ap (λ l. none ∷ l) (k b h)
taken max_size calls b h k (some (m, rest)) (some (m', b')) s =
    let e = ap (serve max_size calls) s.1 ∙ k b' s.2 in cc (s.0, e)
taken max_size calls b h k none (some p) s = absurd s
taken max_size calls b h k (some o) none s = absurd s

-- Putting in, in front of the rest of the calls: the message is refused or inserted.
put_case :
    (max_size : ℕ) (calls : List MailboxCall) (b : Bands) (m : AgentMessage)
    → serve max_size calls (flatten b) ≡ serve_bands max_size calls b
    → serve max_size calls (insert_message m (flatten b)) ≡ serve_bands max_size calls (push m b)
    → (is_full size_reached : Bool) → is_full ≡ size_reached
    → (elim (if is_full then none else some (insert_message m (flatten b)))
        as (λ _. List (Option AgentMessage)) [
          | none ↦ serve max_size calls (flatten b)
          | some inbox' ↦ serve max_size calls inbox'
        ])
      ≡ serve_bands max_size calls (if size_reached then b else push m b)
put_case max_size calls b m refused inserted true true e = refused
put_case max_size calls b m refused inserted false false e = inserted
put_case max_size calls b m refused inserted true false e = absurd (ground (arith, e))
put_case max_size calls b m refused inserted false true e = absurd (ground (arith, e))

-- Over any messages that are put in and taken out, a mailbox whose urgent messages are in front
-- gives out the messages of its bands: first the urgent ones, the latest first, then those of high
-- priority, the latest first, and then the others in the order in which they came, where a message
-- is refused when the bands together have reached the size.
pub mailbox_bands :
    (max_size : ℕ) (calls : List MailboxCall) (b : Bands)
    → AreBands b
    → serve max_size calls (flatten b) ≡ serve_bands max_size calls b
unfolding serve serve_bands
mailbox_bands max_size [] b h = refl
mailbox_bands max_size (put_in m ∷ calls) b h =
    let p = insert_message-push m b h in
    put_case max_size calls b m (mailbox_bands max_size calls b h)
      (ap (serve max_size calls) p.0 ∙ mailbox_bands max_size calls (push m b) p.1)
      (leb max_size (length (flatten b))) (leb max_size (size b))
      (ap (leb max_size) (length-flatten b))
mailbox_bands max_size (take_out ∷ calls) b h =
    taken max_size calls b h (λ b' h'. mailbox_bands max_size calls b' h') (dequeue (flatten b))
      (pop b) (pop-SamePop b.urgent_ones b.high_ones b.other_ones h)
