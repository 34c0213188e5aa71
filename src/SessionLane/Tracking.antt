-- ===== src/SessionLane/Tracking.antt =====
-- The eviction of locks keeps the locks of all sessions that have tasks.
-- The cache counts the tasks of each session, and every task has the lock that the cache has for its
-- session.
use ai_agent_starter_kit.SessionLane.{
  Task, LaneManager, active_count, get_or_create_session_lock, is_evictable, last_used,
  drop_session, drop_sessions, by_last_use, idle_sessions, overflow_sessions,
  evict_idle_session_locks, mark_session_released,
}
use ai_agent_starter_kit.SessionLane.Tasks.{
  count, of_session, count-erase_idx, All-erase_idx, relock, none-count,
}
use ai_agent_starter_kit.Common.{
  subst, ℕ, suc, ◌-◌, ◌<◌, ◌≡◌, refl, sym, ap, ◌∙◌, inl, inr, Bool, true, false, ◌&&◌, ◌||◌, none,
  some, List, [], ◌∷◌, arith, ltb, leb, ◌==◌, if◌then◌else◌, Bool-cases, or_else, length, get_elem?,
  erase_idx, filter, All, All-take, Text, text_eq, text_eq_iff, text_leb,
}
use ai_agent_starter_kit.Common.Dict.{
  Dict, get, put, remove, keys, get-put, get-remove, get-put_self,
}
use ai_agent_starter_kit.Common.Sort.{All-sort_with}

abbrev pub IsTracked : LaneManager → List Task → Type 0
IsTracked m ts =
    ((k : Text) → active_count m k ≡ count (of_session k) ts)
    × All (λ t. get m.session_locks t.key ≡ some t.lock) ts

pub active_count-drop_session :
    (m : LaneManager) (j k : Text)
    → active_count m j ≡ 0
    → active_count (drop_session m j) k ≡ active_count m k
unfolding active_count drop_session
active_count-drop_session m j k z = ground (
  arith,
  z,
  get-remove m.session_active_counts j k,
  text_eq_iff j k,
  ap (get m.session_active_counts) {x = j} {y = k},
)

pub lock-drop_session :
    (m : LaneManager) (j k : Text)
    → active_count m j ≡ 0
    → 0 < active_count m k
    → get (drop_session m j).session_locks k ≡ get m.session_locks k
unfolding drop_session
lock-drop_session m j k z c = elim (Bool-cases (text_eq j k)) [
  | inl e ↦ absurd (ground (arith, z, c, ap (active_count m) ((text_eq_iff j k).0 e)))
  | inr e ↦ get-remove m.session_locks j k ∙ rw e refl
]

-- Dropping sessions that nobody is counted in changes no count, and no lock of a session that
-- somebody is counted in.
pub drop_sessions-unused :
    (m : LaneManager) (ks : List Text)
    → All (λ j. active_count m j ≡ 0) ks
    → ((k : Text) → active_count (drop_sessions m ks) k ≡ active_count m k)
      × ((k : Text)
          → 0 < active_count m k
          → get (drop_sessions m ks).session_locks k ≡ get m.session_locks k)
unfolding drop_sessions
drop_sessions-unused m [] h = (λ k. refl, λ k c. refl)
drop_sessions-unused m (j ∷ ks) h =
    let r = drop_sessions-unused (drop_session m j) ks (zero_after m j ks h.0 h.1) in
    (
      λ k. r.0 k ∙ active_count-drop_session m j k h.0,
      λ k c.
          r.1 k (subst (λ n. 0 < n) (sym (active_count-drop_session m j k h.0)) c)
          ∙ lock-drop_session m j k h.0 c,
    )
  where
    zero_after :
        (m : LaneManager) (j : Text) (ks : List Text)
        → active_count m j ≡ 0
        → All (λ i. active_count m i ≡ 0) ks
        → All (λ i. active_count (drop_session m j) i ≡ 0) ks
    zero_after m j [] z h = tt
    zero_after m j (i ∷ ks) z h = (active_count-drop_session m j i z ∙ h.0, zero_after m j ks z h.1)

pub drop_sessions-IsTracked :
    (m : LaneManager) (ks : List Text) (ts : List Task)
    → All (λ j. active_count m j ≡ 0) ks
    → IsTracked m ts
    → IsTracked (drop_sessions m ks) ts
drop_sessions-IsTracked m ks ts z h =
    let r = drop_sessions-unused m ks z in
    (
      λ k. r.0 k ∙ h.0 k,
      relock (get m.session_locks) (get (drop_sessions m ks).session_locks) (active_count m) ts
          (λ k. omega (arith, h.0 k)) r.1 h.1,
    )

pub All-keys-filter :
    (P : Text → Type 0) (p : Text × ℕ → Bool) (d : Dict ℕ)
    → ((e : Text × ℕ) → p e ≡ true → P e.0)
    → All P (keys (filter p d))
All-keys-filter P p [] h = tt
All-keys-filter P p (e ∷ d) h = elim (Bool-cases (p e)) [
  | inl q ↦ rw q (h e q, All-keys-filter P p d h)
  | inr q ↦ rw q (All-keys-filter P p d h)
]

pub evictable-unused :
    (m : LaneManager) (x : Text) (e : Text × ℕ) → is_evictable m x e ≡ true → active_count m e.0 ≡ 0
unfolding is_evictable
evictable-unused m x (k, l) h = ground (arith, h)

pub by_last_use-unused :
    (m n : LaneManager) (now : ℕ) (ks : List Text)
    → All (λ j. active_count m j ≡ 0) ks
    → All (λ j. active_count m j ≡ 0) (by_last_use n now ks)
unfolding by_last_use
by_last_use-unused m n now ks h =
    All-sort_with
      (λ a b.
        let x = last_used n now a in
        let y = last_used n now b in ltb x y || (x == y && text_leb a b))
      (λ j. active_count m j ≡ 0) ks h

pub idle_sessions-unused :
    (m : LaneManager) (now : ℕ) (x : Text) → All (λ j. active_count m j ≡ 0) (idle_sessions m now x)
unfolding idle_sessions
idle_sessions-unused m now x =
    let p = λ (e : Text × ℕ).
      is_evictable m x e && leb m.session_lock_idle_ttl_seconds (now - last_used m now e.0) in
    by_last_use-unused m m now (keys (filter p m.session_locks)) (
      All-keys-filter (λ j. active_count m j ≡ 0) p m.session_locks
        (λ e h. evictable-unused m x e (ground (arith, h))))

pub overflow_sessions-unused :
    (m : LaneManager) (now : ℕ) (x : Text)
    → All (λ j. active_count m j ≡ 0) (overflow_sessions m now x)
unfolding overflow_sessions
overflow_sessions-unused m now x =
    All-take (λ j. active_count m j ≡ 0) (length m.session_locks - m.max_cached_session_locks)
      (by_last_use m now (keys (filter (is_evictable m x) m.session_locks)))
      (by_last_use-unused m m now (keys (filter (is_evictable m x) m.session_locks)) (
        All-keys-filter (λ j. active_count m j ≡ 0) (is_evictable m x) m.session_locks
          (evictable-unused m x)))

pub evict-IsTracked :
    (m : LaneManager) (now : ℕ) (x : Text) (ts : List Task)
    → IsTracked m ts
    → IsTracked (evict_idle_session_locks m now x) ts
unfolding evict_idle_session_locks
evict-IsTracked m now x ts h =
    let m' = drop_sessions m (idle_sessions m now x) in
    drop_sessions-IsTracked m' (overflow_sessions m' now x) ts (overflow_sessions-unused m' now x)
      (drop_sessions-IsTracked m (idle_sessions m now x) ts (idle_sessions-unused m now x) h)

-- Taking a name out of the count of its session.
pub uncount :
    (counts : Dict ℕ) (key k : Text)
    → or_else 0 (
        get
          (if leb (or_else 0 (get counts key)) 1
            then remove counts key
            else put counts key (or_else 0 (get counts key) - 1))
          k)
      ≡ (if text_eq key k then or_else 0 (get counts key) - 1 else or_else 0 (get counts k))
uncount counts key k = elim (Bool-cases (leb (or_else 0 (get counts key)) 1)) [
  | inl e ↦ rw e (rw (get-remove counts key k) (ground (arith, e)))
  | inr e ↦ rw e (rw (get-put counts key k (or_else 0 (get counts key) - 1)) (ground (arith, e)))
]

pub mark_session_released-IsTracked :
    (m : LaneManager) (now : ℕ) (i : ℕ) (t : Task)
    → get_elem? m.tasks i ≡ some t
    → IsTracked m m.tasks
    → IsTracked (mark_session_released m now t.key) (erase_idx m.tasks i)
unfolding mark_session_released active_count
mark_session_released-IsTracked m now i t e h =
    evict-IsTracked
      (record m {
        session_active_counts =
            if leb (active_count m t.key) 1
            then remove m.session_active_counts t.key
            else put m.session_active_counts t.key (active_count m t.key - 1);
        session_last_used = put m.session_last_used t.key now;
      })
      now t.key (erase_idx m.tasks i)
      (
        λ k. uncount m.session_active_counts t.key k ∙ fewer k,
        All-erase_idx (λ u. get m.session_locks u.key ≡ some u.lock) m.tasks i h.1,
      )
  where
    fewer :
        (k : Text)
        → (if text_eq t.key k then active_count m t.key - 1 else active_count m k)
          ≡ count (of_session k) (erase_idx m.tasks i)
    fewer k = ground (
      arith,
      h.0 k,
      h.0 t.key,
      text_eq_iff t.key k,
      ap (active_count m) {x = t.key} {y = k},
      count-erase_idx (of_session k) m.tasks i t e,
    )

-- The state after a task has asked for a lock, with the locks that the cache then has.
abbrev pub asked : LaneManager → ℕ → Text → Dict ℕ → ℕ → ℕ → LaneManager
asked m now k locks next lock = record m {
  session_locks = locks;
  next_lock_id = next;
  session_last_used = put m.session_last_used k now;
  session_active_counts = put m.session_active_counts k (suc (active_count m k));
  tasks = record { key = k; lock = lock; holds_lock = false; entered = false } ∷ m.tasks;
}

-- The state of a caller that goes on with the lock that it was given.
abbrev pub with_task : Text → List Task → LaneManager × ℕ → LaneManager
with_task k ts r = record (r.0) {
  tasks = record { key = k; lock = r.1; holds_lock = false; entered = false } ∷ ts;
}

pub get_or_create-known :
    (m : LaneManager) (now : ℕ) (k : Text) (l : ℕ)
    → get m.session_locks k ≡ some l
    → with_task k m.tasks (get_or_create_session_lock m now k)
      ≡ asked m now k m.session_locks m.next_lock_id l
unfolding get_or_create_session_lock
get_or_create-known m now k l g = rw (g, get_or_create_session_lock) refl

pub get_or_create-new :
    (m : LaneManager) (now : ℕ) (k : Text)
    → get m.session_locks k ≡ none
    → with_task k m.tasks (get_or_create_session_lock m now k)
      ≡ asked m now k (put m.session_locks k m.next_lock_id) (suc m.next_lock_id) m.next_lock_id
unfolding get_or_create_session_lock
get_or_create-new m now k g = rw (g, get_or_create_session_lock) refl

pub asked-count :
    (m : LaneManager) (now : ℕ) (j : Text) (locks : Dict ℕ) (next lock : ℕ)
    → IsTracked m m.tasks
    → (k : Text)
    → active_count (asked m now j locks next lock) k
      ≡ count (of_session k) (asked m now j locks next lock).tasks
unfolding active_count
asked-count m now j locks next lock h k = ground (
  arith,
  h.0 k,
  get-put m.session_active_counts j k (suc (active_count m j)),
  text_eq_iff j k,
  ap (get m.session_active_counts) {x = j} {y = k},
)

pub asked-IsTracked :
    (m : LaneManager) (now : ℕ) (k : Text)
    → IsTracked m m.tasks
    → get m.session_locks k ≡ none
    → IsTracked
        (asked m now k (put m.session_locks k m.next_lock_id) (suc m.next_lock_id) m.next_lock_id)
        (record { key = k; lock = m.next_lock_id; holds_lock = false; entered = false } ∷ m.tasks)
asked-IsTracked m now k h g =
    let locks = put m.session_locks k m.next_lock_id in
    (
      asked-count m now k locks (suc m.next_lock_id) m.next_lock_id h,
      (
        get-put_self m.session_locks k m.next_lock_id,
        relock (get m.session_locks) (get locks) (λ j. if text_eq k j then 0 else active_count m j)
            m.tasks
            (λ j. ground (
              arith,
              h.0 j,
              text_eq_iff k j,
              none-count (get m.session_locks) k m.tasks g h.1,
              ap (λ (x : Text). count (of_session x) m.tasks) {x = k} {y = j},
            ))
            (λ j c. ground (arith, c, get-put m.session_locks k j m.next_lock_id)) h.1,
      ),
    )
