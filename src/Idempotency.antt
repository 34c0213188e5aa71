-- ===== src/Idempotency.antt =====
-- backend/app/services/idempotency_service.py: the registry that answers a repeated request with the
-- stored response. Times are natural numbers, a method takes the clock reading that it makes; the payload that
-- is stored beside the fingerprint is one text; a time that cannot be parsed counts as 0.
pub mod Bound
pub mod Pruned
pub mod Order
pub mod Held
pub mod History
pub mod Calls
pub mod Starts
pub mod Manager
pub mod Namespaces
pub mod Overlap
mod Examples
use ai_agent_starter_kit.Common.{
  ℕ, ◌+◌, ◌-◌, Bool, not, ◌&&◌, none, some, List, [], ◌∷◌, ltb, if◌then◌else◌, length, is_empty,
  take, filter, Text, text_eq,
}
use ai_agent_starter_kit.Common.Dict.{Dict, get, put, remove, keys}
use ai_agent_starter_kit.Common.Sort.{sort_by}

pub record Entry : Type 0 where
  pub fingerprint : Text
  pub payload : Text
  pub created_at : ℕ

abbrev pub Registry : Type 0
Registry = Dict Entry

-- `_parse_created_at(created_at) < now - ttl`
abbrev pub is_expired : ℕ → ℕ → Entry → Bool
is_expired ttl now e = ltb (e.created_at + ttl) now

-- `for key in keys: registry.pop(key, None)`
unfoldable pub pop_all : List Text → Registry → Registry
unfolding remove
pop_all [] registry = registry
pop_all (key ∷ ks) registry = pop_all ks (remove registry key)

unfoldable pub drop_expired : ℕ → ℕ → Registry → Registry
drop_expired ttl now registry =
    if ltb 0 ttl then filter (λ e. not (is_expired ttl now e.1)) registry else registry

-- The keys with the oldest ones first.
unfoldable pub ordered_keys : Registry → List Text
unfolding sort_by
ordered_keys registry = keys (sort_by (λ e. e.1.created_at) registry)

unfoldable pub drop_overflow : ℕ → Registry → Registry
unfolding pop_all ordered_keys
drop_overflow cap registry =
    if ltb 0 cap && ltb cap (length registry)
    then pop_all (take (length registry - cap) (ordered_keys registry)) registry
    else registry

-- `prune_idempotency_registry`
unfoldable pub prune : ℕ → ℕ → ℕ → Registry → Registry
unfolding drop_expired drop_overflow
prune ttl cap now registry = drop_overflow cap (drop_expired ttl now registry)

pub data Lookup : Type 0 where
  absent conflict : Lookup
  replay : Text → Lookup

-- `idempotency_lookup_or_raise`; `conflict` is the HTTPException.
unfoldable pub lookup : ℕ → ℕ → ℕ → Text → Text → Registry → Registry × Lookup
unfolding prune get text_eq
lookup ttl cap now key print registry =
    let pruned = prune ttl cap now registry in
    if is_empty key then (registry, absent) else (
      pruned,
      elim (get pruned key) [
        | none ↦ absent
        | some e ↦ if text_eq e.fingerprint print then replay e.payload else conflict
      ],
    )

-- `idempotency_register`
unfoldable pub register : ℕ → ℕ → ℕ → Text → Text → Text → Registry → Registry
unfolding prune put
register ttl cap now key print value registry =
    let entry : Entry = record { fingerprint = print; payload = value; created_at = now } in
    if is_empty key
    then registry
    else prune ttl cap now (put (prune ttl cap now registry) key entry)
