-- ===== src/SessionLane/Exclusion.antt =====
-- The lane lets one task of a session in at a time, although the cache drops locks that it takes to
-- be unused, and no more tasks than there are permits.
-- The invariant, with the number of permits that there are.
use ai_agent_starter_kit.SessionLane.{
  Task, LaneManager, new_manager, locked, active_count, mark_session_released, lane_key,
  request_lane, update_idx, with_lock, with_permit, take_lock, enter_lane, leave_lane, Action,
  requests, takes_lock, enters, leaves, act, act_all,
}
use ai_agent_starter_kit.SessionLane.Tasks.{
  count, of_session, inside, holder_of, count-erase_idx, All-erase_idx, has_entered, none-count,
  update_idx-count, All-update_idx, All-update_at, any-count, count-inside-le,
  count-inside-le-of_session,
}
use ai_agent_starter_kit.SessionLane.Tracking.{
  IsTracked, mark_session_released-IsTracked, get_or_create-known, get_or_create-new, asked-count,
  asked-IsTracked,
}
use ai_agent_starter_kit.Common.{
  subst, ℕ, ◌+◌, ◌-◌, ◌≤◌, max, ◌≡◌, refl, sym, ap, ◌∙◌, inl, inr, true, false, not, ◌||◌, Option,
  none, some, List, [], ◌∷◌, arith, ltb, ◌==◌, if◌then◌else◌, Bool-cases, Option-cases, get_elem?,
  erase_idx, any, All, Text, text_eq,
}
use ai_agent_starter_kit.Common.Dict.{get}

abbrev pub IsSound : ℕ → LaneManager → Type 0
IsSound total m =
    IsTracked m m.tasks
    × ((l : ℕ) → count (holder_of l) m.tasks ≤ 1)
    × All (λ t. t.entered ≡ true → t.holds_lock ≡ true) m.tasks
    × (m.permits + count has_entered m.tasks ≡ total)

request_lane-IsSound :
    (total : ℕ) (m : LaneManager) (now : ℕ) (s : Text)
    → IsSound total m
    → IsSound total (request_lane m now s)
unfolding request_lane
request_lane-IsSound total m now s h = elim (Option-cases (get m.session_locks (lane_key s))) [
  | inr (l, g) ↦ subst (IsSound total) (sym (get_or_create-known m now (lane_key s) l g)) (
    (asked-count m now (lane_key s) m.session_locks m.next_lock_id l h.0, (g, h.0.1)),
    λ j. omega (arith, h.1 j),
    (λ e. ground (arith, e), h.2),
    omega (arith, h.3),
  )
  | inl g ↦ subst (IsSound total) (sym (get_or_create-new m now (lane_key s) g)) (
    asked-IsTracked m now (lane_key s) h.0 g,
    λ j. omega (arith, h.1 j),
    (λ e. ground (arith, e), h.2),
    omega (arith, h.3),
  )
]

-- A change of one task that leaves its session and its lock.
update_idx-IsTracked :
    (m : LaneManager) (f : Task → Task) (i : ℕ) (t : Task)
    → get_elem? m.tasks i ≡ some t
    → ((u : Task) → ((f u).key ≡ u.key) × ((f u).lock ≡ u.lock))
    → IsTracked m m.tasks
    → IsTracked m (update_idx f m.tasks i)
update_idx-IsTracked m f i t e k h = (
  λ s.
      h.0 s
      ∙ ground (
        arith,
        update_idx-count f (of_session s) m.tasks i t e,
        (k t).0,
        ap (λ (x : Text). text_eq x s) (k t).0,
      ),
  All-update_idx (λ u. get m.session_locks u.key ≡ some u.lock) f m.tasks i
      (λ u g. ap (get m.session_locks) (k u).0 ∙ g ∙ ap some (sym (k u).1)) h.1,
)

take_lock-IsSound :
    (total : ℕ) (m : LaneManager) (i : ℕ) → IsSound total m → IsSound total (take_lock m i)
unfolding take_lock locked active_count
take_lock-IsSound total m i h = found (get_elem? m.tasks i) refl
  where
    free :
        (t : Task)
        → locked m t.lock ≡ false
        → (l : ℕ) → (t.lock == l) ≡ true
        → count (holder_of l) m.tasks ≡ 0
    free t g l q =
        let x : t.lock ≡ l = ground (arith, q) in
        any-count (holder_of l) m.tasks (subst (λ j. any (holder_of j) m.tasks ≡ false) x g)

    found :
        (o : Option Task)
        → get_elem? m.tasks i ≡ o
        → IsSound total (elim o as (λ _. LaneManager) [
          | none ↦ m
          | some t ↦
              if locked m t.lock then m else record m { tasks = update_idx with_lock m.tasks i }
        ])
    found none e = h
    found (some t) e = elim (Bool-cases (locked m t.lock)) [
      | inl g ↦ rw g h
      | inr g ↦ rw g (
        update_idx-IsTracked m with_lock i t e (λ u. (refl, refl)) h.0,
        λ l.
            ground
              (arith, h.1 l, update_idx-count with_lock (holder_of l) m.tasks i t e, free t g l),
        All-update_idx (λ u. u.entered ≡ true → u.holds_lock ≡ true) with_lock m.tasks i
            (λ u k x. refl) h.2,
        omega (arith, h.3, update_idx-count with_lock has_entered m.tasks i t e),
      )
    ]

enter_lane-IsSound :
    (total : ℕ) (m : LaneManager) (i : ℕ) → IsSound total m → IsSound total (enter_lane m i)
unfolding enter_lane active_count
enter_lane-IsSound total m i h = found (get_elem? m.tasks i) refl
  where
    found :
        (o : Option Task)
        → get_elem? m.tasks i ≡ o
        → IsSound total (elim o as (λ _. LaneManager) [
          | none ↦ m
          | some t ↦
              if not t.holds_lock || t.entered || not (ltb 0 m.permits)
              then m
              else record m { tasks = update_idx with_permit m.tasks i; permits = m.permits - 1 }
        ])
    found none e = h
    found (some t) e = elim (Bool-cases (not t.holds_lock || t.entered || not (ltb 0 m.permits))) [
      | inl g ↦ rw g h
      | inr g ↦ rw g (
        update_idx-IsTracked m with_permit i t e (λ u. (refl, refl)) h.0,
        λ l. omega (arith, h.1 l, update_idx-count with_permit (holder_of l) m.tasks i t e),
        All-update_at (λ u. u.entered ≡ true → u.holds_lock ≡ true) with_permit m.tasks i t e
            (λ x. ground (arith, g)) h.2,
        ground (arith, g, h.3, update_idx-count with_permit has_entered m.tasks i t e),
      )
    ]

leave_lane-IsSound :
    (total : ℕ) (m : LaneManager) (now i : ℕ) → IsSound total m → IsSound total (leave_lane m now i)
unfolding leave_lane active_count
leave_lane-IsSound total m now i h = left (get_elem? m.tasks i) refl
  where
    left :
        (o : Option Task)
        → get_elem? m.tasks i ≡ o
        → IsSound total (elim o as (λ _. LaneManager) [
          | none ↦ m
          | some t ↦ record (mark_session_released m now t.key) {
            tasks = erase_idx m.tasks i;
            permits = if t.entered then m.permits + 1 else m.permits;
          }
        ])
    left none e = h
    left (some t) e = (
      mark_session_released-IsTracked m now i t e h.0,
      λ l. omega (arith, h.1 l, count-erase_idx (holder_of l) m.tasks i t e),
      All-erase_idx (λ u. u.entered ≡ true → u.holds_lock ≡ true) m.tasks i h.2,
      ground (arith, h.3, count-erase_idx has_entered m.tasks i t e),
    )

act-IsSound : (total : ℕ) (m : LaneManager) (a : Action) → IsSound total m → IsSound total (act m a)
unfolding act
act-IsSound total m (requests now s) h = request_lane-IsSound total m now s h
act-IsSound total m (takes_lock i) h = take_lock-IsSound total m i h
act-IsSound total m (enters i) h = enter_lane-IsSound total m i h
act-IsSound total m (leaves now i) h = leave_lane-IsSound total m now i h

act_all-IsSound :
    (total : ℕ) (m : LaneManager) (actions : List Action)
    → IsSound total m
    → IsSound total (act_all m actions)
unfolding act_all
act_all-IsSound total m [] h = h
act_all-IsSound total m (a ∷ rest) h =
    act_all-IsSound total (act m a) rest (act-IsSound total m a h)

new_manager-IsSound : (n cached ttl : ℕ) → IsSound (max 1 n) (new_manager n cached ttl)
unfolding new_manager active_count get
new_manager-IsSound n cached ttl = ((λ k. refl, tt), λ l. omega arith, tt, omega arith)

-- After any sequence of requests, entries and departures of tasks, with the cache of locks trimmed
-- at every departure, at most one task is inside the lane of a session.
pub one_task_per_session :
    (n cached ttl : ℕ) (actions : List Action) (k : Text)
    → count (inside k) (act_all (new_manager n cached ttl) actions).tasks ≤ 1
one_task_per_session n cached ttl actions k =
    let m = act_all (new_manager n cached ttl) actions in
    let h =
      act_all-IsSound (max 1 n) (new_manager n cached ttl) actions
        (new_manager-IsSound n cached ttl) in
    elim (Option-cases (get m.session_locks k)) [
      | inl g ↦ omega (
        arith,
        count-inside-le-of_session k m.tasks,
        none-count (get m.session_locks) k m.tasks g h.0.1,
      )
      | inr (l, g) ↦
          omega (arith, h.1 l, count-inside-le (get m.session_locks) k l m.tasks g h.0.1 h.2)
    ]

-- After any such sequence the free permits and the tasks inside the lanes add up to the maximal
-- number of concurrent tasks, which is at least one.
pub permits_accounted :
    (n cached ttl : ℕ) (actions : List Action)
    → (act_all (new_manager n cached ttl) actions).permits
        + count has_entered (act_all (new_manager n cached ttl) actions).tasks
      ≡ max 1 n
permits_accounted n cached ttl actions =
    let h =
      act_all-IsSound (max 1 n) (new_manager n cached ttl) actions
        (new_manager-IsSound n cached ttl) in
    h.3
