-- ===== src/Approval.antt =====
-- backend/app/services/policy_approval_service.py: approvals of tool calls by the user.
-- The lock makes each method one step on the service's state. Ids are the fresh ones of `uuid4`,
-- clock readings are naturals in seconds. A record and its `asyncio.Event` are created and evicted
-- together, so the event is the field `signalled` of the record. The rule file is not modelled.
pub mod Grants
pub mod Finality
mod Examples
use ai_agent_starter_kit.Common.{
  ℕ, ◌-◌, ◌*◌, Bool, true, false, not, ◌&&◌, ◌||◌, Option, none, some, List, [], ◌∷◌, ◌++◌, ltb,
  if◌then◌else◌, is_empty, filter, any, Text, codes, text_eq, elem, strip, starts_with, normalize,
  add_member,
}
use ai_agent_starter_kit.Common.Dict.{Dict, get, put}

pub data Status : Type 0 where
  pending approved denied cancelled expired : Status

-- `APPROVAL_DECISIONS`
pub data Decision : Type 0 where
  allow_once allow_always allow_session deny cancel : Decision

-- `ALLOW_ALWAYS_SCOPES`
pub data Scope : Type 0 where
  tool_resource tool_only session_tool_resource session_tool : Scope

-- What a record shows as its decision: one of the user's, or a timeout.
pub data Verdict : Type 0 where
  by_user : Decision → Verdict
  timeout : Verdict

pub record Approval : Type 0 where
  pub run_id : Text
  pub session_id : Text
  pub agent_name : Text
  pub tool : Text
  pub resource : Text
  pub status : Status
  pub decision : Option Verdict
  pub scope : Option Scope
  pub created_at : ℕ
  pub updated_at : ℕ
  pub signalled : Bool

pub record Rule : Type 0 where
  pub scope : Scope
  pub tool : Text
  pub resource : Option Text
  pub session_id : Option Text

pub record Service : Type 0 where
  pub records : Dict Approval
  pub allow_always_rules : List Rule
  pub session_allow_all : List Text

abbrev pub record_ttl_seconds : ℕ
record_ttl_seconds = 3600

abbrev pub is_pending : Status → Bool
is_pending pending = true
is_pending _ = false

-- `scope in {"tool_resource", "session_tool_resource"}` and the two session scopes.
abbrev pub names_resource : Scope → Bool
names_resource tool_resource = true
names_resource tool_only = false
names_resource session_tool_resource = true
names_resource session_tool = false

abbrev pub names_session : Scope → Bool
names_session tool_resource = false
names_session tool_only = false
names_session session_tool_resource = true
names_session session_tool = true

-- The text of a scope, if it is one of the four.
unfoldable pub parse_scope : Text → Option Scope
unfolding text_eq
parse_scope s =
    if text_eq s (codes "tool_resource")
    then some tool_resource
    else if text_eq s (codes "tool")
    then some tool_only
    else if text_eq s (codes "session_tool_resource")
    then some session_tool_resource
    else if text_eq s (codes "session_tool")
    then some session_tool
    else none

unfoldable pub parse_decision : Text → Option Decision
unfolding text_eq
parse_decision s =
    if text_eq s (codes "allow_once")
    then some allow_once
    else if text_eq s (codes "allow_always")
    then some allow_always
    else if text_eq s (codes "allow_session")
    then some allow_session
    else if text_eq s (codes "deny")
    then some deny
    else if text_eq s (codes "cancel")
    then some cancel
    else none

-- `_validate_scope`; none is the ValueError.
unfoldable pub validate_scope : Option Text → Option Scope
unfolding strip normalize parse_scope
validate_scope none = some tool_resource
validate_scope (some s) =
    if is_empty (strip s) then some tool_resource else parse_scope (normalize s)

-- `_normalize_rule`, for a scope that has been validated.
unfoldable pub normalize_rule : Scope → Text → Text → Text → Option Rule
unfolding normalize strip
normalize_rule scope tool resource session_id =
    let t = normalize tool in
    let r = strip resource in
    let s = strip session_id in
    if is_empty t
    then none
    else if names_resource scope && is_empty r
    then none
    else if names_session scope && is_empty s
    then none
    else some (record {
      scope = scope;
      tool = t;
      resource = if names_resource scope then some r else none;
      session_id = if names_session scope then some s else none;
    })

-- `rule.get(key) == value`
unfoldable pub field_is : Option Text → Text → Bool
unfolding text_eq
field_is none s = false
field_is (some t) s = text_eq t s

-- `_rule_matches`
unfoldable pub rule_matches : Rule → Text → Text → Text → Bool
unfolding normalize strip field_is text_eq
rule_matches rule tool resource session_id =
    text_eq rule.tool (normalize tool)
    && (not (names_resource rule.scope) || field_is rule.resource (strip resource))
    && (not (names_session rule.scope) || field_is rule.session_id (strip session_id))

unfoldable pub option_eq : Option Text → Option Text → Bool
unfolding text_eq
option_eq none none = true
option_eq none (some t) = false
option_eq (some s) none = false
option_eq (some s) (some t) = text_eq s t

abbrev pub scope_eq : Scope → Scope → Bool
scope_eq a b = elim a [
  | tool_resource ↦ names_resource b && not (names_session b)
  | tool_only ↦ not (names_resource b) && not (names_session b)
  | session_tool_resource ↦ names_resource b && names_session b
  | session_tool ↦ not (names_resource b) && names_session b
]

-- Equality of the rules as dictionaries.
unfoldable pub rule_eq : Rule → Rule → Bool
unfolding option_eq text_eq
rule_eq a b =
    scope_eq a.scope b.scope
    && text_eq a.tool b.tool
    && option_eq a.resource b.resource
    && option_eq a.session_id b.session_id

-- `f"{session}::{tool}"`
abbrev pub session_tool_key : Text → Text → Text
session_tool_key session tool = session ++ codes "::" ++ tool

unfoldable pub is_preapproved : Service → Text → Text → Text → Bool
unfolding normalize strip elem rule_matches
is_preapproved p tool resource session_id =
    (not (is_empty (strip session_id))
      && not (is_empty (normalize tool))
      && elem (session_tool_key (strip session_id) (normalize tool)) p.session_allow_all)
    || any (λ rule. rule_matches rule tool resource session_id) p.allow_always_rules

-- A record that `create` reuses.
unfoldable pub is_reusable : Text → Text → Text → Text → Approval → Bool
unfolding normalize strip text_eq
is_reusable run_id session_id tool resource a =
    is_pending a.status
    && text_eq (strip a.run_id) (strip run_id)
    && text_eq (strip a.session_id) (strip session_id)
    && text_eq (normalize a.tool) (normalize tool)
    && text_eq (strip a.resource) (strip resource)

unfoldable pub find_record : (Approval → Bool) → Dict Approval → Option (Text × Approval)
find_record p [] = none
find_record p ((id, a) ∷ d) = let rest = find_record p d in if p a then some (id, a) else rest

-- `_evict_stale_records_locked`
unfoldable pub is_stale : ℕ → Approval → Bool
is_stale now a =
    let age = now - a.created_at in
    if is_pending a.status then ltb (record_ttl_seconds * 2) age else ltb record_ttl_seconds age

unfoldable pub evict_stale_records : ℕ → Dict Approval → Dict Approval
unfolding is_stale
evict_stale_records now d = filter (λ e. not (is_stale now e.1)) d

pub record Request : Type 0 where
  pub run_id : Text
  pub session_id : Text
  pub agent_name : Text
  pub tool : Text
  pub resource : Text

-- `create`: the new state, the id and the record that is returned, and whether it is a reuse.
unfoldable pub create : Service → ℕ → Text → Request → Service × Text × Approval × Bool
unfolding is_reusable find_record put evict_stale_records
create p now fresh q =
    let new_record : Approval = record {
      run_id = q.run_id;
      session_id = q.session_id;
      agent_name = q.agent_name;
      tool = q.tool;
      resource = q.resource;
      status = pending;
      decision = none;
      scope = none;
      created_at = now;
      updated_at = now;
      signalled = false;
    } in
    elim (find_record (is_reusable q.run_id q.session_id q.tool q.resource) p.records) [
      | some (id, a) ↦ (p, id, a, true)
      | none ↦ (
        record p { records = evict_stale_records now (put p.records fresh new_record) },
        fresh,
        new_record,
        false,
      )
    ]

unfoldable pub map_values {ℓ} : {V : Type ℓ} → (V → V) → Dict V → Dict V
map_values f [] = []
map_values f ((k, v) ∷ d) = (k, f v) ∷ map_values f d

-- A pending record of the session and the tool becomes approved, and its waiter wakes up.
unfoldable pub cascade : ℕ → Text → Text → Approval → Approval
unfolding normalize strip text_eq
cascade now session tool a =
    if is_pending a.status
      && text_eq (strip a.session_id) session
      && text_eq (normalize a.tool) tool
    then record a {
      status = approved;
      decision = some (by_user allow_session);
      updated_at = now;
      signalled = true;
    }
    else a

-- `_apply_allow_session_locked`
unfoldable pub apply_allow_session : Service → ℕ → Approval → Service
unfolding normalize strip map_values cascade add_member
apply_allow_session p now source =
    let session = strip source.session_id in
    let tool = normalize source.tool in
    if is_empty session || is_empty tool then p else record p {
      session_allow_all = add_member (session_tool_key session tool) p.session_allow_all;
      records = map_values (cascade now session tool) p.records;
    }

abbrev pub status_of : Decision → Status
status_of allow_once = approved
status_of allow_always = approved
status_of allow_session = approved
status_of deny = denied
status_of cancel = cancelled

-- `if rule is not None and rule not in rules: rules.append(rule)`
unfoldable pub add_rule : List Rule → Option Rule → List Rule
unfolding rule_eq
add_rule rules none = rules
add_rule rules (some rule) = if any (rule_eq rule) rules then rules else rules ++ rule ∷ []

-- The state after the fields of a pending record are written, by decision.
unfoldable pub grant : Service → ℕ → Approval → Decision → Scope → Service
unfolding apply_allow_session add_rule normalize_rule
grant p now a allow_once scope = p
grant p now a deny scope = p
grant p now a cancel scope = p
grant p now a allow_session scope = apply_allow_session p now a
grant p now a allow_always scope = record p {
  allow_always_rules =
      add_rule p.allow_always_rules (normalize_rule scope a.tool a.resource a.session_id);
}

-- The fields that a decision writes to a pending record, the event among them.
abbrev pub decided : ℕ → Decision → Scope → Approval → Approval
decided now d scope a = record a {
  status = status_of d;
  decision = some (by_user d);
  scope = some scope;
  updated_at = now;
  signalled = true;
}

-- The part of `decide` under the lock, for a record that is found.
unfoldable pub decide_record : Service → ℕ → Text → Approval → Decision → Scope → Service
unfolding grant put apply_allow_session
decide_record p now id a d scope =
    let a' = record a { updated_at = now } in
    if is_pending a.status
    then grant (record p { records = put p.records id (decided now d scope a) }) now a d scope
    else (let p' = record p { records = put p.records id a' } in
        elim d [
          | allow_session ↦ apply_allow_session p' now a'
          | allow_once ↦ p'
          | allow_always ↦ p'
          | deny ↦ p'
          | cancel ↦ p'
        ])

pub data Decided : Type 0 where
  invalid : Decided
  unknown : Decided
  updated : Service → Decided

-- `decide`; `invalid` is the ValueError, `unknown` the None of a record that is not there.
unfoldable pub decide : Service → ℕ → Text → Text → Option Text → Decided
unfolding parse_decision normalize validate_scope get decide_record
decide p now id decision scope = elim (parse_decision (normalize decision)) [
  | none ↦ invalid
  | some d ↦ (elim (validate_scope scope) [
    | none ↦ invalid
    | some s ↦ (elim (get p.records id) [
      | none ↦ unknown
      | some a ↦ updated (decide_record p now id a d s)
    ])
  ])
]

-- The timeout of `wait_for_decision`.
abbrev pub expire_record : ℕ → Approval → Approval
expire_record now a =
    if is_pending a.status
    then record a { status = expired; decision = some timeout; updated_at = now }
    else a

unfoldable pub expire : Service → ℕ → Text → Service
unfolding get put
expire p now id = elim (get p.records id) [
  | none ↦ p
  | some a ↦
      if is_pending a.status
      then record p { records = put p.records id (expire_record now a) }
      else p
]

-- A rule that `clear_session_overrides` removes.
unfoldable pub is_session_rule : Text → Rule → Bool
unfolding field_is
is_session_rule session rule = names_session rule.scope && field_is rule.session_id session

unfoldable pub clear_session_overrides : Service → Text → Service
unfolding strip starts_with is_session_rule
clear_session_overrides p session_id =
    let session = strip session_id in
    if is_empty session then p else record p {
      session_allow_all =
          filter (λ key. not (starts_with key (session ++ codes "::"))) p.session_allow_all;
      allow_always_rules = filter (λ rule. not (is_session_rule session rule)) p.allow_always_rules;
    }

-- `wait_for_allow` on the decision that it has waited for.
abbrev pub allows_call : Option Verdict → Bool
allows_call none = false
allows_call (some timeout) = false
allows_call (some (by_user allow_once)) = true
allows_call (some (by_user allow_always)) = true
allows_call (some (by_user allow_session)) = true
allows_call (some (by_user deny)) = false
allows_call (some (by_user cancel)) = false
