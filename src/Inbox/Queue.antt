-- ===== src/Inbox/Queue.antt =====
-- What comes out of a queue: the purge removes what is too old, and `dequeue` gives the messages back
-- in the order in which they came.
use ai_agent_starter_kit.Inbox.{
  InboxMessage, Inbox, purge_expired, queue_of, write_back, open_queue, dequeue,
}
use ai_agent_starter_kit.Common.{
  subst, ℕ, zero, suc, ◌-◌, ◌≤◌, ◌≡◌, refl, sym, ap, ◌∙◌, inl, inr, Bool, true, false, Option, none,
  some, List, [], ◌∷◌, map, arith, leb, if◌then◌else◌, Bool-cases, length, is_empty, filter, all,
  All, Text, strip,
}
use ai_agent_starter_kit.Common.Dict.{get, get-put_self, get-remove_self}

abbrev pub is_young : Inbox → ℕ → InboxMessage → Bool
is_young b now i = leb (now - i.enqueued_at) b.ttl_seconds

-- No message is older than one before it, as the clock gives it.
abbrev pub IsOrdered : List InboxMessage → Type 0
IsOrdered [] = Unit
IsOrdered (i ∷ q) = All (λ j. i.enqueued_at ≤ j.enqueued_at) q × IsOrdered q

-- Behind a message that is young enough all are.
filter-young :
    (ttl now : ℕ) (i : InboxMessage) (q : List InboxMessage)
    → leb (now - i.enqueued_at) ttl ≡ true
    → All (λ j. i.enqueued_at ≤ j.enqueued_at) q
    → filter (λ j. leb (now - j.enqueued_at) ttl) q ≡ q
filter-young ttl now i [] y o = refl
filter-young ttl now i (j ∷ q) y o = ground (arith, filter-young ttl now i q y o.1, o.0)

-- In a queue in the order of the clock the purge, which looks from the left only, removes exactly
-- the messages older than the time to live.
pub purge_expired-eq-filter :
    (ttl now : ℕ) (q : List InboxMessage)
    → IsOrdered q
    → purge_expired ttl now q ≡ filter (λ i. leb (now - i.enqueued_at) ttl) q
unfolding purge_expired
purge_expired-eq-filter ttl now [] o = refl
purge_expired-eq-filter ttl now (i ∷ q) o = elim (Bool-cases (leb (now - i.enqueued_at) ttl)) [
  | inl e ↦ rw e (ap (λ (r : List InboxMessage). i ∷ r) (sym (filter-young ttl now i q e o.0)))
  | inr e ↦ rw e (purge_expired-eq-filter ttl now q o.1)
]

-- As many calls of `dequeue` as told, at one time.
unfoldable pub drain : ℕ → Inbox → ℕ → Text → Inbox × List (Option InboxMessage)
unfolding dequeue
drain zero b now s = (b, [])
drain (suc n) b now s =
    let r = dequeue b now s in let rest = drain n r.0 now s in (rest.0, r.1 ∷ rest.1)

open_queue-young :
    (i : InboxMessage) (q : List InboxMessage) (b : Inbox) (now : ℕ) (k : Text)
    → is_empty k ≡ false
    → get b.queues k ≡ some (i ∷ q)
    → is_young b now i ≡ true
    → open_queue b now k ≡ some (i ∷ q)
unfolding open_queue queue_of purge_expired
open_queue-young i q b now k n g y = rw (g, n) (rw y refl)

dequeue-young :
    (i : InboxMessage) (q : List InboxMessage) (b : Inbox) (now : ℕ) (s : Text)
    → open_queue b now (strip s) ≡ some (i ∷ q)
    → dequeue b now s ≡ (write_back b (strip s) q, some i)
unfolding dequeue
dequeue-young i q b now s e = rw (e, dequeue) refl

write_back-young :
    (q : List InboxMessage) (b : Inbox) (k : Text) (now : ℕ)
    → all (is_young (write_back b k q) now) q ≡ all (is_young b now) q
unfolding write_back
write_back-young [] b k now = refl
write_back-young (i ∷ q) b k now = refl

-- The messages of a session come out in the order in which they stand in the queue, one for each
-- `dequeue`, if none of them is too old at that time; the session is forgotten after the last one.
pub drain_in_order :
    (q : List InboxMessage) (b : Inbox) (now : ℕ) (s : Text)
    → is_empty (strip s) ≡ false
    → get b.queues (strip s) ≡ (if is_empty q then none else some q)
    → all (is_young b now) q ≡ true
    → ((drain (length q) b now s).1 ≡ map some q)
      × (get (drain (length q) b now s).0.queues (strip s) ≡ none)
unfolding drain
drain_in_order [] b now s n g y = (refl, g)
drain_in_order (i ∷ q) b now s n g y =
    let e : dequeue b now s ≡ (write_back b (strip s) q, some i) =
      dequeue-young i q b now s (open_queue-young i q b now (strip s) n g (ground (arith, y))) in
    let h =
      drain_in_order q (write_back b (strip s) q) now s n (written q b (strip s))
        (write_back-young q b (strip s) now ∙ ground (arith, y)) in
    (
      rw e (ap (λ (r : List (Option InboxMessage)). some i ∷ r) h.0),
      subst
          (λ (r : Inbox × Option InboxMessage).
            get (drain (length q) r.0 now s).0.queues (strip s) ≡ none)
          (sym e) h.1,
    )
  where
    written :
        (q : List InboxMessage) (b : Inbox) (k : Text)
        → get (write_back b k q).queues k ≡ (if is_empty q then none else some q)
    written [] b k = unfold write_back in get-remove_self b.queues k
    written (i ∷ q) b k = unfold write_back in get-put_self b.queues k (i ∷ q)
