-- ===== src/Approval/Finality.antt =====
-- The calls that change the service one after another, and what they may still do to a record that
-- has been decided, cancelled or has expired.
use ai_agent_starter_kit.Approval.{
  pending, Decision, allow_once, allow_always, allow_session, deny, cancel, Scope, Approval,
  Service, is_pending, is_reusable, find_record, is_stale, evict_stale_records, Request, create,
  map_values, cascade, apply_allow_session, grant, decided, decide_record, Decided, invalid,
  unknown, updated, decide, expire_record, expire, clear_session_overrides,
}
use ai_agent_starter_kit.Approval.Grants.{decide-updated}
use ai_agent_starter_kit.Common.{
  subst, ℕ, ◌≡◌, refl, sym, ap, ◌∙◌, ◌≢◌, inl, inr, Bool, true, false, not, ◌||◌, Option, none,
  some, List, [], ◌∷◌, arith, Bool-cases, Option-cases, is_empty, all, Text, text_eq, text_eq_iff,
  strip, normalize,
}
use ai_agent_starter_kit.Common.Dict.{
  Dict, get, put, contains, get-put, IsUnique, put-IsUnique, fmap, keep, filter-IsUnique,
  get-filter,
}

-- One call of a method, with the reading of the clock; `create` has the id that `uuid4` gives it.
pub data Call : Type 0 where
  on_create : ℕ → Text → Request → Call
  on_decide : ℕ → Text → Text → Option Text → Call
  on_expire : ℕ → Text → Call
  on_clear : Text → Call

unfoldable pub step : Service → Call → Service
unfolding create decide expire clear_session_overrides
step p (on_create now fresh q) = (create p now fresh q).0
step p (on_decide now id decision scope) = elim (decide p now id decision scope) [
  | invalid ↦ p
  | unknown ↦ p
  | updated p' ↦ p'
]
step p (on_expire now id) = expire p now id
step p (on_clear session) = clear_session_overrides p session

unfoldable pub run : Service → List Call → Service
unfolding step
run p [] = p
run p (c ∷ cs) = run (step p c) cs

-- `uuid4` does not give the id `k` again.
abbrev pub avoids : Text → Call → Bool
avoids k (on_create now fresh q) = not (text_eq fresh k)
avoids k (on_decide now id decision scope) = true
avoids k (on_expire now id) = true
avoids k (on_clear session) = true

-- Evicted, or there with the same status and the same decision.
abbrev pub IsSettledAs : Approval → Option Approval → Type 0
IsSettledAs a none = Unit
IsSettledAs a (some b) = (b.status ≡ a.status) × (b.decision ≡ a.decision)

get-map_values :
    (f : Approval → Approval) (d : Dict Approval) (k : Text)
    → get (map_values f d) k ≡ fmap f (get d k)
unfolding get map_values
get-map_values f [] k = refl
get-map_values f ((i, w) ∷ d) k = ground (arith, get-map_values f d k)

map_values-IsUnique :
    (f : Approval → Approval) (d : Dict Approval) → IsUnique d → IsUnique (map_values f d)
unfolding map_values contains
map_values-IsUnique f [] h = tt
map_values-IsUnique f ((i, w) ∷ d) h =
    ground (arith, map_values-IsUnique f d h.1, get-map_values f d i)

-- What each method keeps.
abbrev Keeps : Approval → Text → Service → Service → Type 0
Keeps a k p p' =
    IsUnique p.records
    → IsSettledAs a (get p.records k)
    → IsUnique p'.records × IsSettledAs a (get p'.records k)

module _ (a : Approval) (k : Text) (n : is_pending a.status ≡ false) where
  cascade-IsSettledAs :
      (now : ℕ) (session tool : Text) (o : Option Approval)
      → IsSettledAs a o
      → IsSettledAs a (fmap (cascade now session tool) o)
  unfolding cascade
  cascade-IsSettledAs now session tool none h = tt
  cascade-IsSettledAs now session tool (some b) h =
      let e : is_pending b.status ≡ false = ap is_pending h.0 ∙ n in rw (e, cascade) h

  apply_allow_session-Keeps :
      (p : Service) (now : ℕ) (source : Approval) → Keeps a k p (apply_allow_session p now source)
  unfolding apply_allow_session
  apply_allow_session-Keeps p now source u h =
      elim (Bool-cases (is_empty (strip source.session_id) || is_empty (normalize source.tool))) [
        | inl e ↦ rw e (u, h)
        | inr e ↦
            let f = cascade now (strip source.session_id) (normalize source.tool) in
            rw e (
              map_values-IsUnique f p.records u,
              rw (get-map_values f p.records k) (
                  cascade-IsSettledAs now (strip source.session_id) (normalize source.tool)
                    (get p.records k) h),
            )
      ]

  put-Keeps :
      (p : Service) (id : Text) (b c : Approval)
      → get p.records id ≡ some b
      → (IsSettledAs a (some b) → IsSettledAs a (some c))
      → Keeps a k p (record p { records = put p.records id c })
  put-Keeps p id b c g s u h = elim (Bool-cases (text_eq id k)) [
    | inl e ↦
        let q : id ≡ k = (text_eq_iff id k).0 e in
        let gk : get p.records k ≡ some b = subst (λ x. get p.records x ≡ some b) q g in
        (
          put-IsUnique p.records id c u,
          rw (get-put p.records id k c, e) (s (subst (λ o. IsSettledAs a o) gk h)),
        )
    | inr e ↦ (put-IsUnique p.records id c u, rw (get-put p.records id k c, e) h)
  ]

  grant-Keeps :
      (p : Service) (now : ℕ) (b : Approval) (d : Decision) (s : Scope)
      → Keeps a k p (grant p now b d s)
  unfolding grant
  grant-Keeps p now b allow_once s u h = (u, h)
  grant-Keeps p now b allow_always s u h = (u, h)
  grant-Keeps p now b allow_session s u h = apply_allow_session-Keeps p now b u h
  grant-Keeps p now b deny s u h = (u, h)
  grant-Keeps p now b cancel s u h = (u, h)

  decide_record-Keeps :
      (p : Service) (now : ℕ) (id : Text) (b : Approval) (d : Decision) (s : Scope)
      → get p.records id ≡ some b
      → Keeps a k p (decide_record p now id b d s)
  unfolding decide_record get
  decide_record-Keeps p now id b d s g u h = elim (Bool-cases (is_pending b.status)) [
    | inl e ↦
        let x =
          put-Keeps p id b (decided now d s b) g
            (λ y. absurd (true≢false (sym e ∙ ap is_pending y.0 ∙ n))) u h in
        rw e (
          grant-Keeps (record p { records = put p.records id (decided now d s b) }) now b d s x.0
            x.1)
    | inr e ↦
        let b' : Approval = record b { updated_at = now } in
        let x = put-Keeps p id b b' g (λ y. y) u h in
        rw e (again (record p { records = put p.records id b' }) b' d x.0 x.1)
  ]
    where
      true≢false : true ≢ false
      true≢false e = cc e

      again :
          (q : Service) (b' : Approval) (d : Decision)
          → Keeps a k q (elim d [
            | allow_session ↦ apply_allow_session q now b'
            | allow_once ↦ q
            | allow_always ↦ q
            | deny ↦ q
            | cancel ↦ q
          ])
      again q b' allow_once u h = (u, h)
      again q b' allow_always u h = (u, h)
      again q b' allow_session u h = apply_allow_session-Keeps q now b' u h
      again q b' deny u h = (u, h)
      again q b' cancel u h = (u, h)

  decide-Keeps :
      (p p' : Service) (now : ℕ) (id decision : Text) (scope : Option Text)
      → decide p now id decision scope ≡ updated p'
      → Keeps a k p p'
  decide-Keeps p p' now id decision scope e u h =
      let (d, s, b, q, v, g, x) = decide-updated p p' now id decision scope e in
      rw x (decide_record-Keeps p now id b d s g u h)

  -- A method is known to keep the record from what it returns.
  Keeps-subst : (p q p' : Service) → p' ≡ q → Keeps a k p q → Keeps a k p p'
  Keeps-subst p q p' e h = subst (Keeps a k p) (sym e) h

  expire-Keeps : (p : Service) (now : ℕ) (id : Text) → Keeps a k p (expire p now id)
  unfolding expire
  expire-Keeps p now id = elim (Option-cases (get p.records id)) [
    | inl g ↦ Keeps-subst p p (expire p now id) (rw (g, expire) refl) (λ u h. (u, h))
    | inr (b, g) ↦ (elim (Bool-cases (is_pending b.status)) [
      | inl e ↦
          Keeps-subst p (record p { records = put p.records id (expire_record now b) })
            (expire p now id) (rw (g, e, expire) refl)
            (put-Keeps p id b (expire_record now b) g
              (λ y. absurd (true≢false (sym e ∙ ap is_pending y.0 ∙ n))))
      | inr e ↦ Keeps-subst p p (expire p now id) (rw (g, e, expire) refl) (λ u h. (u, h))
    ])
  ]
    where
      true≢false : true ≢ false
      true≢false e = cc e

  -- The new record stands under another id, and what is evicted is gone.
  insert-Keeps :
      (p : Service) (now : ℕ) (fresh : Text) (c : Approval)
      → text_eq fresh k ≡ false
      → Keeps a k p (record p { records = evict_stale_records now (put p.records fresh c) })
  unfolding evict_stale_records
  insert-Keeps p now fresh c f u h =
      let u' = put-IsUnique p.records fresh c u in
      (
        filter-IsUnique (λ x. not (is_stale now x)) (put p.records fresh c) u',
        rw
            (
              get-filter (λ x. not (is_stale now x)) (put p.records fresh c) k u',
              get-put p.records fresh k c,
              f,
            )
            (keep-IsSettledAs (λ x. not (is_stale now x)) (get p.records k) h),
      )
    where
      keep-IsSettledAs :
          (t : Approval → Bool) (o : Option Approval) → IsSettledAs a o → IsSettledAs a (keep t o)
      keep-IsSettledAs t none h = tt
      keep-IsSettledAs t (some b) h = elim (Bool-cases (t b)) [ inl e ↦ rw e h | inr e ↦ rw e tt ]

  create-Keeps :
      (p : Service) (now : ℕ) (fresh : Text) (q : Request)
      → text_eq fresh k ≡ false
      → Keeps a k p ((create p now fresh q).0)
  unfolding create
  create-Keeps p now fresh q f =
      elim (Option-cases
        (find_record (is_reusable q.run_id q.session_id q.tool q.resource) p.records)) [
          | inl g ↦
              let new : Approval = record {
                run_id = q.run_id;
                session_id = q.session_id;
                agent_name = q.agent_name;
                tool = q.tool;
                resource = q.resource;
                status = pending;
                decision = none;
                scope = none;
                created_at = now;
                updated_at = now;
                signalled = false;
              } in
              Keeps-subst p
                (record p { records = evict_stale_records now (put p.records fresh new) })
                ((create p now fresh q).0) (rw (g, create) refl) (insert-Keeps p now fresh new f)
          | inr (r, g) ↦
              Keeps-subst p p ((create p now fresh q).0) (rw (g, create) refl) (λ u h. (u, h))
        ]

  clear-Keeps : (p : Service) (session : Text) → Keeps a k p (clear_session_overrides p session)
  unfolding clear_session_overrides
  clear-Keeps p session u h = elim (Bool-cases (is_empty (strip session))) [
    | inl e ↦ rw e (u, h)
    | inr e ↦ rw e (u, h)
  ]

  step-Keeps : (p : Service) (c : Call) → avoids k c ≡ true → Keeps a k p (step p c)
  unfolding step
  step-Keeps p (on_create now fresh q) f = create-Keeps p now fresh q (ground (arith, f))
  step-Keeps p (on_decide now id decision scope) f =
      decided-Keeps (decide p now id decision scope) refl
    where
      decided-Keeps :
          (o : Decided)
          → decide p now id decision scope ≡ o
          → Keeps a k p (elim o [ invalid ↦ p | unknown ↦ p | updated p' ↦ p' ])
      decided-Keeps invalid e u h = (u, h)
      decided-Keeps unknown e u h = (u, h)
      decided-Keeps (updated p') e u h = decide-Keeps p p' now id decision scope e u h
  step-Keeps p (on_expire now id) f = expire-Keeps p now id
  step-Keeps p (on_clear session) f = clear-Keeps p session

-- A record that is no longer pending keeps its status and its decision until it is evicted, whatever
-- the later calls are (creations, decisions on it or on others, timeouts, cleared overrides), if
-- each id stands once among the records and no creation is given the record's id again.
pub outcome_is_final :
    (cs : List Call) (p : Service) (k : Text) (a : Approval)
    → IsUnique p.records
    → get p.records k ≡ some a
    → is_pending a.status ≡ false
    → all (avoids k) cs ≡ true
    → IsSettledAs a (get (run p cs).records k)
unfolding run
outcome_is_final cs p k a u g n f =
    run-settled cs p u (subst (IsSettledAs a) (sym g) (refl, refl)) f
  where
    run-settled :
        (cs : List Call) (p : Service)
        → IsUnique p.records
        → IsSettledAs a (get p.records k)
        → all (avoids k) cs ≡ true
        → IsSettledAs a (get (run p cs).records k)
    run-settled [] p u h f = h
    run-settled (c ∷ cs) p u h f =
        let x = step-Keeps a k n p c (ground (arith, f)) u h in
        run-settled cs (step p c) x.0 x.1 (ground (arith, f))
