-- ===== src/Inbox/Priority.antt =====
-- Which message `dequeue_prioritized` takes out of the queue.
use ai_agent_starter_kit.Inbox.{
  InboxMessage, Inbox, write_back, open_queue, first_index, scan, select, dequeue_prioritized,
}
use ai_agent_starter_kit.Common.{
  ℕ, suc, ◌≡◌, refl, ap, ◌∙◌, inl, inr, Bool, true, false, not, ◌&&◌, ◌||◌, Option, none, some,
  List, [], ◌∷◌, arith, if◌then◌else◌, Bool-cases, or_else, get_elem?, erase_idx, Text, strip,
}
use ai_agent_starter_kit.Common.Dict.{fmap}

-- The first message for which the test holds, and the others in their order.
abbrev pub take_first :
    (InboxMessage → Bool) → List InboxMessage → Option (InboxMessage × List InboxMessage)
take_first p [] = none
take_first p (i ∷ q) =
    let rest = fmap (λ (r : InboxMessage × List InboxMessage). (r.0, i ∷ r.1)) (take_first p q) in
    if p i then some (i, q) else rest

-- What is taken from a queue with a first message: the first one that the test accepts, or else the
-- first of all.
abbrev pub preferred :
    (InboxMessage → Bool) → InboxMessage → List InboxMessage → InboxMessage × List InboxMessage
preferred p i q = or_else (i, q) (take_first p (i ∷ q))

-- Follow-ups come first where they are forced and last otherwise.
abbrev pub is_preferred : Bool → InboxMessage → Bool
is_preferred force i = if force then i.is_follow_up else not i.is_follow_up

-- What an index takes out.
abbrev at : InboxMessage → List InboxMessage → ℕ → InboxMessage × List InboxMessage
at d q n = (or_else d (get_elem? q n), erase_idx q n)

first_index-shift :
    (p : InboxMessage → Bool) (n : ℕ) (q : List InboxMessage)
    → first_index p (suc n) q ≡ fmap (λ m. suc m) (first_index p n q)
unfolding first_index
first_index-shift p n [] = refl
first_index-shift p n (i ∷ q) = ground (arith, first_index-shift p (suc n) q)

-- The index found takes out what `take_first` takes out.
take_first-at :
    (p : InboxMessage → Bool) (d : InboxMessage) (q : List InboxMessage)
    → fmap (at d q) (first_index p 0 q) ≡ take_first p q
unfolding first_index
take_first-at p d [] = refl
take_first-at p d (i ∷ q) = elim (Bool-cases (p i)) [
  | inl e ↦ rw e refl
  | inr e ↦ rw (e, first_index-shift p 0 q, ← take_first-at p d q) (moved (first_index p 0 q))
]
  where
    moved :
        (o : Option ℕ)
        → fmap (at d (i ∷ q)) (fmap (λ m. suc m) o)
          ≡ fmap (λ (r : InboxMessage × List InboxMessage). (r.0, i ∷ r.1)) (fmap (at d q) o)
    moved none = refl
    moved (some m) = refl

or_else-at :
    (d : InboxMessage) (i : InboxMessage) (q : List InboxMessage) (o : Option ℕ)
    → at i (i ∷ q) (or_else 0 o) ≡ or_else (i, q) (fmap (at i (i ∷ q)) o)
or_else-at d i q none = refl
or_else-at d i q (some m) = refl

-- The loop is a search for a message that is no follow-up, and marks a follow-up at the front.
scan-first_index :
    (n : ℕ) (deferred : Bool) (q : List InboxMessage)
    → (scan n deferred q).0 ≡ or_else 0 (first_index (λ i. not i.is_follow_up) n q)
unfolding scan first_index
scan-first_index n deferred [] = refl
scan-first_index n deferred (i ∷ q) = ground (arith, scan-first_index (suc n) true q)

select-preferred :
    (force : Bool) (i : InboxMessage) (q : List InboxMessage)
    → at i (i ∷ q) ((select force (i ∷ q)).0) ≡ preferred (is_preferred force) i q
unfolding select
select-preferred true i q =
    or_else-at i i q (first_index (λ j. j.is_follow_up) 0 (i ∷ q))
    ∙ ap (or_else (i, q)) (take_first-at (λ j. j.is_follow_up) i (i ∷ q))
select-preferred false i q =
    ap (at i (i ∷ q)) (scan-first_index 0 false (i ∷ q))
    ∙ or_else-at i i q (first_index (λ j. not j.is_follow_up) 0 (i ∷ q))
    ∙ ap (or_else (i, q)) (take_first-at (λ j. not j.is_follow_up) i (i ∷ q))

-- The flag of the scan: it starts at a follow-up.
scan-deferred : (n : ℕ) (d : Bool) (q : List InboxMessage) → (scan n d q).1 ≡ (d || (scan n d q).1)
unfolding scan
scan-deferred n d [] = ground arith
scan-deferred n d (i ∷ q) = ground (arith, scan-deferred (suc n) true q)

select-deferred :
    (force : Bool) (i : InboxMessage) (q : List InboxMessage)
    → (select force (i ∷ q)).1 ≡ (not force && i.is_follow_up)
unfolding select scan
select-deferred true i q = refl
select-deferred false i q = ground (arith, scan-deferred 1 true q)

-- `dequeue_prioritized` on a session whose queue, purged, starts with `i` and goes on with `q`: it
-- returns the first follow-up if follow-ups are forced, or else the first message that is none, and
-- the first message where there is no such; it leaves the others in their order; and it says that
-- a follow-up was deferred exactly if a follow-up at the front was passed over for another message.
pub dequeue_prioritized_exact :
    (b : Inbox) (now : ℕ) (session_id : Text) (force : Bool) (i : InboxMessage)
    (q : List InboxMessage)
    → open_queue b now (strip session_id) ≡ some (i ∷ q)
    → dequeue_prioritized b now session_id force ≡ (
      write_back b (strip session_id) (preferred (is_preferred force) i q).1,
      some (preferred (is_preferred force) i q).0,
      not force && i.is_follow_up && not (preferred (is_preferred force) i q).0.is_follow_up,
    )
unfolding dequeue_prioritized
dequeue_prioritized_exact b now session_id force i q e =
    let x = select-preferred force i q in
    rw (e, dequeue_prioritized)
      (rw (ap (λ (r : InboxMessage × List InboxMessage). r.0) x)
        (rw (ap (λ (r : InboxMessage × List InboxMessage). r.1) x, select-deferred force i q) refl))
