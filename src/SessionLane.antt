-- ===== src/SessionLane.antt =====
-- backend/app/orchestrator/session_lane_manager.py: one lock per session, kept in a cache that is
-- trimmed when a holder leaves. A step is what one task does between two waits: it enters its name
-- for a session's lock (`_get_or_create_session_lock`), gets the lock, gets a global permit, leaves
-- the lane, or gives up before it has got in. Clock readings are naturals in seconds.
pub mod Tasks
pub mod Tracking
pub mod Exclusion
mod Examples
use ai_agent_starter_kit.Common.{
  ℕ, zero, suc, ◌+◌, ◌-◌, max, Bool, true, false, not, ◌&&◌, ◌||◌, none, some, List, [], ◌∷◌, ltb,
  leb, ◌==◌, if◌then◌else◌, or_else, length, take, get_elem?, erase_idx, filter, any, Text, codes,
  text_eq, strip, if_blank, text_leb,
}
use ai_agent_starter_kit.Common.Dict.{Dict, get, put, remove, keys}
use ai_agent_starter_kit.Common.Sort.{sort_with}

-- A task inside `acquire`: the session's key, the identity of the `asyncio.Lock` that it was given,
-- whether it holds that lock, and whether it has entered, with a permit as well.
pub record Task : Type 0 where
  pub key : Text
  pub lock : ℕ
  pub holds_lock : Bool
  pub entered : Bool

-- `session_locks` has the identities of the lock objects; who holds one is said by the tasks.
pub record LaneManager : Type 0 where
  pub session_locks : Dict ℕ
  pub session_active_counts : Dict ℕ
  pub session_last_used : Dict ℕ
  pub permits : ℕ
  pub max_cached_session_locks : ℕ
  pub session_lock_idle_ttl_seconds : ℕ
  pub next_lock_id : ℕ
  pub tasks : List Task

-- `__init__`
unfoldable pub new_manager : ℕ → ℕ → ℕ → LaneManager
new_manager global_max_concurrent max_cached ttl = record {
  session_locks = [];
  session_active_counts = [];
  session_last_used = [];
  permits = max 1 global_max_concurrent;
  max_cached_session_locks = max 32 max_cached;
  session_lock_idle_ttl_seconds = max 1 ttl;
  next_lock_id = 0;
  tasks = [];
}

-- `lock.locked()`
unfoldable pub locked : LaneManager → ℕ → Bool
locked m lock = any (λ t. t.holds_lock && t.lock == lock) m.tasks

-- `self._session_active_counts.get(key, 0)`
unfoldable pub active_count : LaneManager → Text → ℕ
unfolding get
active_count m key = or_else 0 (get m.session_active_counts key)

-- `_get_or_create_session_lock`: the state and the lock that the caller goes on to wait for.
unfoldable pub get_or_create_session_lock : LaneManager → ℕ → Text → LaneManager × ℕ
unfolding active_count put get
get_or_create_session_lock m now key =
    let counted = record m {
      session_last_used = put m.session_last_used key now;
      session_active_counts = put m.session_active_counts key (suc (active_count m key));
    } in
    elim (get m.session_locks key) [
      | some lock ↦ (counted, lock)
      | none ↦ (
        record counted {
          session_locks = put m.session_locks key m.next_lock_id;
          next_lock_id = suc m.next_lock_id;
        },
        m.next_lock_id,
      )
    ]

-- A cached lock that the eviction may drop.
unfoldable pub is_evictable : LaneManager → Text → Text × ℕ → Bool
unfolding text_eq active_count locked
is_evictable m exclude_key (key, lock) =
    not (text_eq key exclude_key) && not (ltb 0 (active_count m key)) && not (locked m lock)

unfoldable pub last_used : LaneManager → ℕ → Text → ℕ
unfolding get
last_used m now key = or_else now (get m.session_last_used key)

-- The three `pop`s.
unfoldable pub drop_session : LaneManager → Text → LaneManager
unfolding remove
drop_session m key = record m {
  session_locks = remove m.session_locks key;
  session_last_used = remove m.session_last_used key;
  session_active_counts = remove m.session_active_counts key;
}

unfoldable pub drop_sessions : LaneManager → List Text → LaneManager
unfolding drop_session
drop_sessions m [] = m
drop_sessions m (key ∷ ks) = drop_sessions (drop_session m key) ks

-- The keys to drop, by their last use and then by name, as the tuples are sorted.
unfoldable pub by_last_use : LaneManager → ℕ → List Text → List Text
unfolding last_used text_leb
by_last_use m now ks =
    sort_with
      (λ a b.
        let x = last_used m now a in
        let y = last_used m now b in ltb x y || (x == y && text_leb a b))
      ks

unfoldable pub idle_sessions : LaneManager → ℕ → Text → List Text
unfolding is_evictable last_used by_last_use
idle_sessions m now exclude_key = by_last_use m now (
    keys (
      filter
        (λ e.
          is_evictable m exclude_key e
          && leb m.session_lock_idle_ttl_seconds (now - last_used m now e.0))
        m.session_locks))

unfoldable pub overflow_sessions : LaneManager → ℕ → Text → List Text
unfolding is_evictable by_last_use
overflow_sessions m now exclude_key =
    take (length m.session_locks - m.max_cached_session_locks)
      (by_last_use m now (keys (filter (is_evictable m exclude_key) m.session_locks)))

-- `_evict_idle_session_locks_locked`
unfoldable pub evict_idle_session_locks : LaneManager → ℕ → Text → LaneManager
unfolding drop_sessions idle_sessions overflow_sessions
evict_idle_session_locks m now exclude_key =
    let m' = drop_sessions m (idle_sessions m now exclude_key) in
    drop_sessions m' (overflow_sessions m' now exclude_key)

-- `_mark_session_released`
unfoldable pub mark_session_released : LaneManager → ℕ → Text → LaneManager
unfolding active_count put remove evict_idle_session_locks
mark_session_released m now key =
    let active = active_count m key in
    let counts =
      if leb active 1
      then remove m.session_active_counts key
      else put m.session_active_counts key (active - 1) in
    let m' = record m {
      session_active_counts = counts;
      session_last_used = put m.session_last_used key now;
    } in
    evict_idle_session_locks m' now key

-- The key of `acquire`.
unfoldable pub lane_key : Text → Text
unfolding strip if_blank
lane_key session_id = if_blank (codes "default") (strip session_id)

-- `acquire` up to the wait for the lock.
unfoldable pub request_lane : LaneManager → ℕ → Text → LaneManager
unfolding lane_key get_or_create_session_lock
request_lane m now session_id =
    let r = get_or_create_session_lock m now (lane_key session_id) in
    record (r.0) {
      tasks =
          record { key = lane_key session_id; lock = r.1; holds_lock = false; entered = false }
          ∷ m.tasks;
    }

abbrev pub update_idx : (Task → Task) → List Task → ℕ → List Task
update_idx f [] i = []
update_idx f (t ∷ ts) zero = f t ∷ ts
update_idx f (t ∷ ts) (suc i) = t ∷ update_idx f ts i

abbrev pub with_lock : Task → Task
with_lock t = record t { holds_lock = true }

abbrev pub with_permit : Task → Task
with_permit t = record t { entered = true }

-- `async with session_lock`: the task at an index gets its lock, if it is free.
unfoldable pub take_lock : LaneManager → ℕ → LaneManager
unfolding locked
take_lock m i = elim (get_elem? m.tasks i) [
  | none ↦ m
  | some t ↦ if locked m t.lock then m else record m { tasks = update_idx with_lock m.tasks i }
]

-- `async with …, self._global_semaphore`: a task that holds its lock gets in, if a permit is left.
unfoldable pub enter_lane : LaneManager → ℕ → LaneManager
enter_lane m i = elim (get_elem? m.tasks i) [
  | none ↦ m
  | some t ↦
      if not t.holds_lock || t.entered || not (ltb 0 m.permits)
      then m
      else record m { tasks = update_idx with_permit m.tasks i; permits = m.permits - 1 }
]

-- The end of `acquire` for the task at an index: the name is taken out of the lane while the lock
-- is still held, then the task gives back what it holds, the lock and the permit.
unfoldable pub leave_lane : LaneManager → ℕ → ℕ → LaneManager
unfolding mark_session_released
leave_lane m now i = elim (get_elem? m.tasks i) [
  | none ↦ m
  | some t ↦ record (mark_session_released m now t.key) {
    tasks = erase_idx m.tasks i;
    permits = if t.entered then m.permits + 1 else m.permits;
  }
]

-- What one of the tasks does next.
pub data Action : Type 0 where
  requests : ℕ → Text → Action
  takes_lock : ℕ → Action
  enters : ℕ → Action
  leaves : ℕ → ℕ → Action

unfoldable pub act : LaneManager → Action → LaneManager
unfolding request_lane take_lock enter_lane leave_lane
act m (requests now session_id) = request_lane m now session_id
act m (takes_lock i) = take_lock m i
act m (enters i) = enter_lane m i
act m (leaves now i) = leave_lane m now i

unfoldable pub act_all : LaneManager → List Action → LaneManager
unfolding act
act_all m [] = m
act_all m (a ∷ rest) = act_all (act m a) rest
