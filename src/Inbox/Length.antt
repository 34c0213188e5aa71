-- ===== src/Inbox/Length.antt =====
-- The methods one after another, and how long the queues can get.
use ai_agent_starter_kit.Inbox.{
  InboxMessage, Inbox, new_inbox, purge_expired, queue_of, Enqueued, empty_session, overflow,
  queued, enqueue, write_back, open_queue, dequeue, select, dequeue_prioritized, touch,
  peek_newer_than, size,
}
use ai_agent_starter_kit.Common.{
  ℕ, zero, suc, ◌≤◌, ◌≡◌, refl, inl, inr, Bool, false, not, ◌&&◌, Option, none, some, List, [], ◌∷◌,
  ◌++◌, arith, leb, Bool-cases, Option-cases, or_else, length, is_empty, get_elem?, erase_idx,
  length-append, All, Text, strip,
}
use ai_agent_starter_kit.Common.Dict.{get, put, All-put, All-remove, All-get}

length-purge_expired-le :
    (ttl now : ℕ) (q : List InboxMessage) → length (purge_expired ttl now q) ≤ length q
unfolding purge_expired
length-purge_expired-le ttl now [] = omega arith
length-purge_expired-le ttl now (i ∷ q) = ground (arith, length-purge_expired-le ttl now q)

-- The invariant: every queue is within the maximal length.
abbrev pub IsWithinLength : Inbox → Type 0
IsWithinLength b = All (λ (e : Text × List InboxMessage). length e.1 ≤ b.max_queue_length) b.queues

queue_of-bounded :
    (b : Inbox) (s : Text) → IsWithinLength b → length (queue_of b s) ≤ b.max_queue_length
unfolding queue_of
queue_of-bounded b s h = elim (Option-cases (get b.queues s)) [
  | inl e ↦ rw e (omega arith)
  | inr (q, e) ↦
      let x : length q ≤ b.max_queue_length =
        All-get (λ (f : Text × List InboxMessage). length f.1 ≤ b.max_queue_length) b.queues s q h
          e in
      rw e x
]

write_back-IsWithinLength :
    (b : Inbox) (s : Text) (q : List InboxMessage)
    → IsWithinLength b
    → length q ≤ b.max_queue_length
    → IsWithinLength (write_back b s q)
unfolding write_back
write_back-IsWithinLength b s [] h l =
    All-remove (λ (e : Text × List InboxMessage). length e.1 ≤ b.max_queue_length) b.queues s h
write_back-IsWithinLength b s (i ∷ q) h l =
    All-put (λ (e : Text × List InboxMessage). length e.1 ≤ b.max_queue_length) b.queues s (i ∷ q) h
      l

open_queue-bounded :
    (b : Inbox) (now : ℕ) (s : Text) (q : List InboxMessage)
    → IsWithinLength b
    → open_queue b now s ≡ some q
    → length q ≤ b.max_queue_length
unfolding open_queue
open_queue-bounded b now s q h e =
    ground (arith, length-purge_expired-le b.ttl_seconds now (queue_of b s), queue_of-bounded b s h)

length-erase_idx-le : (q : List InboxMessage) (n : ℕ) → length (erase_idx q n) ≤ length q
length-erase_idx-le [] n = omega arith
length-erase_idx-le (i ∷ q) zero = omega arith
length-erase_idx-le (i ∷ q) (suc n) = omega (arith, length-erase_idx-le q n)

touch-IsWithinLength :
    (b : Inbox) (now : ℕ) (s : Text)
    → IsWithinLength b
    → IsWithinLength (touch b s (open_queue b now s))
unfolding touch
touch-IsWithinLength b now s h = elim (Option-cases (open_queue b now s)) [
  | inl e ↦ rw e h
  | inr (q, e) ↦ rw e (write_back-IsWithinLength b s q h (open_queue-bounded b now s q h e))
]

-- One call of a method, with the reading of the clock.
pub data Call : Type 0 where
  on_enqueue : ℕ → Text → Text → Text → Bool → Call
  on_dequeue : ℕ → Text → Call
  on_dequeue_prioritized : ℕ → Text → Bool → Call
  on_peek : ℕ → Text → Text → Call
  on_size : ℕ → Text → Call

abbrev pub enqueued_inbox : Inbox → Enqueued → Inbox
enqueued_inbox b empty_session = b
enqueued_inbox b (overflow b') = b'
enqueued_inbox b (queued b' i) = b'

unfoldable pub step : Inbox → Call → Inbox
unfolding enqueue dequeue dequeue_prioritized peek_newer_than size
step b (on_enqueue now s r m f) = enqueued_inbox b (enqueue b now s r m f)
step b (on_dequeue now s) = (dequeue b now s).0
step b (on_dequeue_prioritized now s f) = (dequeue_prioritized b now s f).0
step b (on_peek now s r) = (peek_newer_than b now s r).0
step b (on_size now s) = (size b now s).0

put-IsWithinLength :
    (b : Inbox) (s : Text) (q : List InboxMessage)
    → IsWithinLength b
    → length q ≤ b.max_queue_length
    → IsWithinLength (record b { queues = put b.queues s q })
put-IsWithinLength b s q h l =
    All-put (λ (e : Text × List InboxMessage). length e.1 ≤ b.max_queue_length) b.queues s q h l

enqueue-IsWithinLength :
    (b : Inbox) (now : ℕ) (s r m : Text) (f : Bool)
    → IsWithinLength b
    → IsWithinLength (enqueued_inbox b (enqueue b now s r m f))
unfolding enqueue
enqueue-IsWithinLength b now s r m f h =
    let q = purge_expired b.ttl_seconds now (queue_of b (strip s)) in
    let l : length q ≤ b.max_queue_length = omega (
      arith,
      length-purge_expired-le b.ttl_seconds now (queue_of b (strip s)),
      queue_of-bounded b (strip s) h,
    ) in
    elim (Bool-cases (is_empty (strip s))) [
      | inl e ↦ rw e h
      | inr e ↦ (elim (Bool-cases (leb b.max_queue_length (length q))) [
        | inl full ↦ rw (e, full) (put-IsWithinLength b (strip s) q h l)
        | inr room ↦
            let i : InboxMessage = record {
              session_id = strip s;
              run_id = strip r;
              message = m;
              is_follow_up = f;
              enqueued_at = now;
            } in
            rw (e, room)
              (put-IsWithinLength b (strip s) (q ++ i ∷ []) h
                (ground (arith, room, length-append q (i ∷ []))))
      ])
    ]

dequeue-IsWithinLength :
    (b : Inbox) (now : ℕ) (s : Text) → IsWithinLength b → IsWithinLength ((dequeue b now s).0)
unfolding dequeue
dequeue-IsWithinLength b now s h = dequeued (open_queue b now (strip s)) refl
  where
    dequeued :
        (o : Option (List InboxMessage))
        → open_queue b now (strip s) ≡ o
        → IsWithinLength (
            (elim o as (λ z. Inbox × Option InboxMessage) [
              | none ↦ (b, none)
              | some [] ↦ (write_back b (strip s) [], none)
              | some (i ∷ q) ↦ (write_back b (strip s) q, some i)
            ]).0)
    dequeued none e = h
    dequeued (some []) e = write_back-IsWithinLength b (strip s) [] h (omega arith)
    dequeued (some (i ∷ q)) e =
        write_back-IsWithinLength b (strip s) q h
          (omega (arith, open_queue-bounded b now (strip s) (i ∷ q) h e))

dequeue_prioritized-IsWithinLength :
    (b : Inbox) (now : ℕ) (s : Text) (f : Bool)
    → IsWithinLength b
    → IsWithinLength ((dequeue_prioritized b now s f).0)
unfolding dequeue_prioritized
dequeue_prioritized-IsWithinLength b now s f h = selected (open_queue b now (strip s)) refl
  where
    selected :
        (o : Option (List InboxMessage))
        → open_queue b now (strip s) ≡ o
        → IsWithinLength (
            (elim o as (λ z. Inbox × Option InboxMessage × Bool) [
              | none ↦ (b, none, false)
              | some [] ↦ (write_back b (strip s) [], none, false)
              | some (i ∷ q) ↦
                  let n = select f (i ∷ q) in
                  let item = or_else i (get_elem? (i ∷ q) n.0) in
                  (
                    write_back b (strip s) (erase_idx (i ∷ q) n.0),
                    some item,
                    n.1 && not item.is_follow_up,
                  )
            ]).0)
    selected none e = h
    selected (some []) e = write_back-IsWithinLength b (strip s) [] h (omega arith)
    selected (some (i ∷ q)) e =
        let n = (select f (i ∷ q)).0 in
        write_back-IsWithinLength b (strip s) (erase_idx (i ∷ q) n) h (
          omega
            (arith, length-erase_idx-le (i ∷ q) n, open_queue-bounded b now (strip s) (i ∷ q) h e))

step-IsWithinLength : (b : Inbox) (c : Call) → IsWithinLength b → IsWithinLength (step b c)
unfolding step peek_newer_than size
step-IsWithinLength b (on_enqueue now s r m f) h = enqueue-IsWithinLength b now s r m f h
step-IsWithinLength b (on_dequeue now s) h = dequeue-IsWithinLength b now s h
step-IsWithinLength b (on_dequeue_prioritized now s f) h =
    dequeue_prioritized-IsWithinLength b now s f h
step-IsWithinLength b (on_peek now s r) h = touch-IsWithinLength b now (strip s) h
step-IsWithinLength b (on_size now s) h = touch-IsWithinLength b now (strip s) h

unfoldable pub run : Inbox → List Call → Inbox
unfolding step
run b [] = b
run b (c ∷ cs) = run (step b c) cs

-- Whatever sequence of calls a new inbox gets, refused ones among them, no queue grows longer than
-- the maximal length.
pub run-IsWithinLength :
    (max_length ttl : ℕ) (cs : List Call) → IsWithinLength (run (new_inbox max_length ttl) cs)
unfolding run new_inbox
run-IsWithinLength max_length ttl cs = run-keeps (new_inbox max_length ttl) cs tt
  where
    run-keeps : (b : Inbox) (cs : List Call) → IsWithinLength b → IsWithinLength (run b cs)
    run-keeps b [] h = h
    run-keeps b (c ∷ cs) h = run-keeps (step b c) cs (step-IsWithinLength b c h)
