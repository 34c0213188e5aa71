-- ===== src/Approval/Grants.antt =====
-- What a decision of the user lets through later: `is_preapproved` after `decide`.
use ai_agent_starter_kit.Approval.{
  pending, Decision, allow_once, allow_always, allow_session, deny, cancel, Scope, tool_resource,
  tool_only, session_tool_resource, session_tool, Approval, Rule, Service, names_resource,
  names_session, parse_decision, validate_scope, normalize_rule, field_is, rule_matches, option_eq,
  scope_eq, rule_eq, session_tool_key, is_preapproved, apply_allow_session, add_rule, grant,
  decide_record, invalid, unknown, updated, decide, is_session_rule, clear_session_overrides,
}
use ai_agent_starter_kit.Common.{
  ℕ, ◌≡◌, refl, sym, ap, ◌∙◌, ◌≢◌, inl, inr, Bool, true, false, not, ◌&&◌, ◌||◌, Option, none, some,
  List, [], ◌∷◌, ◌++◌, arith, Bool-cases, Option-cases, is_empty, filter, any, any-append, Text,
  codes, text_eq, text_eq_iff, elem, strip, starts_with, normalize, add_member,
}
use ai_agent_starter_kit.Common.Dict.{get}

-- The decisions that hold for one call only.
abbrev pub is_one_off : Decision → Bool
is_one_off allow_once = true
is_one_off allow_always = false
is_one_off allow_session = false
is_one_off deny = true
is_one_off cancel = true

-- What a successful `decide` has found.
pub decide-updated :
    (p p' : Service) (now : ℕ) (id decision : Text) (scope : Option Text)
    → decide p now id decision scope ≡ updated p'
    → (d : Decision) × (s : Scope) × (a : Approval) × (parse_decision (normalize decision) ≡ some d)
      × (validate_scope scope ≡ some s)
      × (get p.records id ≡ some a)
      × (p' ≡ decide_record p now id a d s)
unfolding decide
decide-updated p p' now id decision scope h =
    elim (Option-cases (parse_decision (normalize decision))) [
      | inl e ↦ absurd (invalid≢ p' (sym (rw (e, decide) refl) ∙ h))
      | inr (d, e) ↦ (elim (Option-cases (validate_scope scope)) [
        | inl f ↦ absurd (invalid≢ p' (sym (rw (e, f, decide) refl) ∙ h))
        | inr (s, f) ↦ (elim (Option-cases (get p.records id)) [
          | inl g ↦ absurd (unknown≢ p' (sym (rw (e, f, g, decide) refl) ∙ h))
          | inr (a, g) ↦ (
            d,
            s,
            a,
            e,
            f,
            g,
            updated-inj (decide_record p now id a d s) p' (sym (rw (e, f, g, decide) refl) ∙ h),
          )
        ])
      ])
    ]
  where
    invalid≢ : (q : Service) → invalid ≢ updated q
    invalid≢ q e = cc e

    unknown≢ : (q : Service) → unknown ≢ updated q
    unknown≢ q e = cc e

    updated-inj : (q r : Service) → updated q ≡ updated r → r ≡ q
    updated-inj q r e = cc e

one_off-grants :
    (p : Service) (now : ℕ) (id : Text) (a : Approval) (d : Decision) (s : Scope)
    → is_one_off d ≡ true
    → ((decide_record p now id a d s).session_allow_all ≡ p.session_allow_all)
      × ((decide_record p now id a d s).allow_always_rules ≡ p.allow_always_rules)
unfolding decide_record grant
one_off-grants p now id a allow_once s h = ground arith
one_off-grants p now id a allow_always s h = cc
one_off-grants p now id a allow_session s h = cc
one_off-grants p now id a deny s h = ground arith
one_off-grants p now id a cancel s h = ground arith

preapproved-cong :
    (p p' : Service) (tool resource session : Text)
    → p'.session_allow_all ≡ p.session_allow_all
    → p'.allow_always_rules ≡ p.allow_always_rules
    → is_preapproved p' tool resource session ≡ is_preapproved p tool resource session
unfolding is_preapproved
preapproved-cong p p' tool resource session e f = rw (e, f)

-- Allowing once, denying and cancelling, in whatever state the record is, change nothing about
-- which later calls are approved in advance.
pub one_off_grants_nothing :
    (p p' : Service) (now : ℕ) (id decision : Text) (scope : Option Text) (d : Decision)
    → decide p now id decision scope ≡ updated p'
    → parse_decision (normalize decision) ≡ some d
    → is_one_off d ≡ true
    → (tool resource session : Text)
    → is_preapproved p' tool resource session ≡ is_preapproved p tool resource session
one_off_grants_nothing p p' now id decision scope d h q o tool resource session =
    let (d', s, a, q', v, g, e) = decide-updated p p' now id decision scope h in
    let same : d' ≡ d = cc (q, q') in
    let x = one_off-grants p now id a d' s (ap is_one_off same ∙ o) in
    ap (λ (z : Service). is_preapproved z tool resource session) e
    ∙ preapproved-cong p (decide_record p now id a d' s) tool resource session x.0 x.1

option_eq-eq : (a b : Option Text) → option_eq a b ≡ true → a ≡ b
unfolding option_eq
option_eq-eq none none h = refl
option_eq-eq none (some t) h = cc
option_eq-eq (some s) none h = cc
option_eq-eq (some s) (some t) h = ap some ((text_eq_iff s t).0 h)

scope_eq-eq : (a b : Scope) → scope_eq a b ≡ true → a ≡ b
scope_eq-eq a b h = ground arith

rule_eq-eq : (a b : Rule) → rule_eq a b ≡ true → a ≡ b
unfolding rule_eq
rule_eq-eq a b h = ground (
  arith,
  scope_eq-eq a.scope b.scope,
  text_eq_iff a.tool b.tool,
  option_eq-eq a.resource b.resource,
  option_eq-eq a.session_id b.session_id,
)

abbrev new_matches : Option Rule → Text → Text → Text → Bool
new_matches none tool resource session = false
new_matches (some rule) tool resource session = rule_matches rule tool resource session

or_absorb : (a b : Bool) → (b ≡ true → a ≡ true) → a ≡ (a || b)
or_absorb a b h = ground arith

known_rule_matches :
    (rules : List Rule) (rule : Rule) (f : Rule → Bool)
    → any (rule_eq rule) rules ≡ true
    → f rule ≡ true
    → any f rules ≡ true
known_rule_matches [] rule f h m = cc
known_rule_matches (x ∷ rules) rule f h m = elim (Bool-cases (rule_eq rule x)) [
  | inl e ↦ let y : f x ≡ true = cc (m, ap f (rule_eq-eq rule x e)) in rw y
  | inr e ↦ ground (arith, known_rule_matches rules rule f)
]

any-add_rule :
    (rules : List Rule) (o : Option Rule) (tool resource session : Text)
    → any (λ rule. rule_matches rule tool resource session) (add_rule rules o) ≡ (
        any (λ rule. rule_matches rule tool resource session) rules
        || new_matches o tool resource session)
unfolding add_rule
any-add_rule rules none tool resource session = ground arith
any-add_rule rules (some rule) tool resource session =
    elim (Bool-cases (any (rule_eq rule) rules)) [
      | inl e ↦
          let f = λ (x : Rule). rule_matches x tool resource session in
          rw e (or_absorb (any f rules) (f rule) (known_rule_matches rules rule f e))
      | inr e ↦
          let f = λ (x : Rule). rule_matches x tool resource session in
          rw e (any-append f rules (rule ∷ []) ∙ ground arith)
    ]

-- What a rule made from a call lets through: the same tool, and the same resource and the same
-- session where the scope names them; nothing if the call lacks what the scope names.
abbrev pub covers : Scope → Text → Text → Text → Text → Text → Text → Bool
covers scope tool resource session t r s =
    not (is_empty (normalize tool))
    && text_eq (normalize tool) (normalize t)
    && (not (names_resource scope)
        || (not (is_empty (strip resource)) && text_eq (strip resource) (strip r)))
    && (not (names_session scope)
        || (not (is_empty (strip session)) && text_eq (strip session) (strip s)))

normalize_rule-covers :
    (scope : Scope) (tool resource session t r s : Text)
    → new_matches (normalize_rule scope tool resource session) t r s
      ≡ covers scope tool resource session t r s
unfolding normalize_rule rule_matches field_is
normalize_rule-covers tool_resource tool resource session t r s = ground arith
normalize_rule-covers tool_only tool resource session t r s = ground arith
normalize_rule-covers session_tool_resource tool resource session t r s = ground arith
normalize_rule-covers session_tool tool resource session t r s = ground arith

-- Allowing a pending call always, under a scope, approves in advance exactly the calls that were
-- approved before and those that the scope covers: the same tool, with the same resource and the
-- same session where the scope names them.
pub allow_always_exact :
    (p p' : Service) (now : ℕ) (id decision : Text) (scope : Option Text) (a : Approval) (s : Scope)
    → decide p now id decision scope ≡ updated p'
    → parse_decision (normalize decision) ≡ some allow_always
    → validate_scope scope ≡ some s
    → get p.records id ≡ some a
    → a.status ≡ pending
    → (t r session : Text)
    → is_preapproved p' t r session
      ≡ (is_preapproved p t r session || covers s a.tool a.resource a.session_id t r session)
allow_always_exact p p' now id decision scope a s h q v g n t r session =
    let (d', s', a', q', v', g', e) = decide-updated p p' now id decision scope h in
    let ed : d' ≡ allow_always = cc (q, q') in
    let es : s' ≡ s = cc (v, v') in
    let ea : a' ≡ a = cc (g, g') in
    ap (λ (z : Service). is_preapproved z t r session) e
    ∙ (rw (ed, es, ea) (decided-exact p now id a s n t r session))
  where
    or_assoc : (x y z : Bool) → (x || (y || z)) ≡ ((x || y) || z)
    or_assoc x y z = ground arith

    decided-exact :
        (p : Service) (now : ℕ) (id : Text) (a : Approval) (s : Scope)
        → a.status ≡ pending
        → (t r session : Text)
        → is_preapproved (decide_record p now id a allow_always s) t r session
          ≡ (is_preapproved p t r session || covers s a.tool a.resource a.session_id t r session)
    decided-exact p now id a s n t r session =
        unfold decide_record grant is_preapproved in
        rw n (
          rw
            (
              any-add_rule p.allow_always_rules (normalize_rule s a.tool a.resource a.session_id) t
                  r session,
              normalize_rule-covers s a.tool a.resource a.session_id t r session,
            )
            (or_assoc
              (not (is_empty (strip session))
                && not (is_empty (normalize t))
                && elem (session_tool_key (strip session) (normalize t)) p.session_allow_all)
              (any (λ rule. rule_matches rule t r session) p.allow_always_rules)
              (covers s a.tool a.resource a.session_id t r session)))

elem-add_member :
    (k v : Text) (ts : List Text) → elem k (add_member v ts) ≡ (text_eq k v || elem k ts)
unfolding add_member elem
elem-add_member k v ts = elim (Bool-cases (elem v ts)) [
  | inl e ↦ rw e (or_member k v ts e)
  | inr e ↦ rw e
]
  where
    or_member :
        (k v : Text) (ts : List Text) → elem v ts ≡ true → elem k ts ≡ (text_eq k v || elem k ts)
    or_member k v ts e = elim (Bool-cases (text_eq k v)) [
      | inl q ↦
          let x : elem k ts ≡ true = ap (λ u. elem u ts) ((text_eq_iff k v).0 q) ∙ e in rw (q, x)
      | inr q ↦ rw q
    ]

-- Allowing a call for its session, on a pending record or on one that was decided or has expired,
-- approves in advance exactly the calls that were approved before and, if the session and the tool of
-- the record are not blank, the calls whose session and tool are not blank and give the same key
-- `session::tool`, whatever their resource.
pub allow_session_exact :
    (p p' : Service) (now : ℕ) (id decision : Text) (scope : Option Text) (a : Approval)
    → decide p now id decision scope ≡ updated p'
    → parse_decision (normalize decision) ≡ some allow_session
    → get p.records id ≡ some a
    → (t r session : Text)
    → is_preapproved p' t r session ≡ (
        is_preapproved p t r session
        || (not (is_empty (strip session) || is_empty (normalize t))
            && not (is_empty (strip a.session_id) || is_empty (normalize a.tool))
            && text_eq
                (session_tool_key (strip session) (normalize t))
                (session_tool_key (strip a.session_id) (normalize a.tool))))
allow_session_exact p p' now id decision scope a h q g t r session =
    let (d', s', a', q', v', g', e) = decide-updated p p' now id decision scope h in
    let ed : d' ≡ allow_session = cc (q, q') in
    let ea : a' ≡ a = cc (g, g') in
    ap (λ (z : Service). is_preapproved z t r session) e
    ∙ (rw (ed, ea) (decided-exact p now id a s' t r session))
  where
    decided-exact :
        (p : Service) (now : ℕ) (id : Text) (a : Approval) (s : Scope) (t r session : Text)
        → is_preapproved (decide_record p now id a allow_session s) t r session ≡ (
            is_preapproved p t r session
            || (not (is_empty (strip session) || is_empty (normalize t))
                && not (is_empty (strip a.session_id) || is_empty (normalize a.tool))
                && text_eq
                    (session_tool_key (strip session) (normalize t))
                    (session_tool_key (strip a.session_id) (normalize a.tool))))
    decided-exact p now id a s t r session =
        unfold decide_record grant apply_allow_session is_preapproved in
        ground (
          arith,
          elem-add_member (session_tool_key (strip session) (normalize t))
              (session_tool_key (strip a.session_id) (normalize a.tool)) p.session_allow_all,
        )

starts_with-append : (s t : Text) → starts_with (s ++ t) s ≡ true
unfolding starts_with
starts_with-append [] t = starts_with-nil t
  where
    starts_with-nil : (t : Text) → starts_with t [] ≡ true
    starts_with-nil [] = refl
    starts_with-nil (c ∷ t) = refl
starts_with-append (c ∷ s) t = ground (arith, starts_with-append s t)

key-starts_with : (s t : Text) → starts_with (session_tool_key s t) (s ++ codes "::") ≡ true
key-starts_with s t = starts_with-append (s ++ codes "::") t

elem-filter-none :
    (k : Text) (p : Text → Bool) (ts : List Text) → p k ≡ false → elem k (filter p ts) ≡ false
unfolding elem
elem-filter-none k p [] n = refl
elem-filter-none k p (t ∷ ts) n = elim (Bool-cases (text_eq k t)) [
  | inl q ↦
      let x : p t ≡ false = ap p (sym ((text_eq_iff k t).0 q)) ∙ n in
      rw x (elem-filter-none k p ts n)
  | inr q ↦ ground (arith, elem-filter-none k p ts n)
]

any-cleared :
    (rules : List Rule) (t r s : Text)
    → any
        (λ rule. rule_matches rule t r s)
        (filter (λ rule. not (is_session_rule (strip s) rule)) rules)
      ≡ any (λ rule. not (names_session rule.scope) && rule_matches rule t r s) rules
unfolding is_session_rule rule_matches
any-cleared [] t r s = refl
any-cleared (rule ∷ rules) t r s = ground (arith, any-cleared rules t r s)

-- After the overrides of a session are cleared, a call of that session is approved in advance
-- exactly by the rules that name no session.
pub clear_session_exact :
    (p : Service) (session t r : Text)
    → is_empty (strip session) ≡ false
    → is_preapproved (clear_session_overrides p session) t r session
      ≡ any
          (λ rule. not (names_session rule.scope) && rule_matches rule t r session)
          p.allow_always_rules
unfolding clear_session_overrides is_preapproved
clear_session_exact p session t r n =
    let k = session_tool_key (strip session) (normalize t) in
    let pass = λ (key : Text). not (starts_with key (strip session ++ codes "::")) in
    let x =
      elem-filter-none k pass p.session_allow_all
        (ap not (key-starts_with (strip session) (normalize t))) in
    rw n (rw (x, any-cleared p.allow_always_rules t r session) (ground arith))
