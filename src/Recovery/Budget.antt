-- ===== src/Recovery/Budget.antt =====
-- How often requests can be recovered: each recovery takes an attempt from one of five budgets.
use ai_agent_starter_kit.Recovery.{
  RecoveryContext, RecoveryStrategyHooks, Applied, nothing, overflow_retry, compaction_recovery,
  truncation_recovery, prompt_compaction, payload_truncation, RecoveryStrategyResolution,
  initial_resolution, resolve,
}
use ai_agent_starter_kit.Recovery.Guards.{IsJustifiedBy, resolve-IsJustified}
use ai_agent_starter_kit.Common.{ℕ, ◌+◌, ◌-◌, ◌≤◌, ◌≡◌, refl, Bool, List, [], ◌∷◌, arith, Text}
use native.Mathlib.Nat.{add-zero}

-- The attempts that are left, over all budgets.
abbrev pub remaining : RecoveryContext → ℕ
remaining ctx =
    (ctx.overflow_fallback_retry_max_attempts - ctx.overflow_fallback_retry_attempts)
    + (ctx.compaction_failure_recovery_max_attempts - ctx.compaction_failure_recovery_attempts)
    + (ctx.truncation_recovery_max_attempts - ctx.truncation_recovery_attempts)
    + (ctx.prompt_compaction_max_attempts - ctx.prompt_compaction_attempts)
    + (ctx.payload_truncation_max_attempts - ctx.payload_truncation_attempts)

-- What a resolution takes.
abbrev pub cost : RecoveryStrategyResolution → ℕ
cost r = elim (r.applied) [ nothing ↦ 0 | _ ↦ 1 ]

-- The next failure of the request: its reason, whether a fallback is left and what the retry is
-- told, with the message and the attempts that the last resolution has left.
pub record Failure : Type 0 where
  pub reason : Text
  pub has_fallback : Bool
  pub retryable : Bool
  pub recovery_branch : Text

unfoldable pub next_context :
    RecoveryContext → RecoveryStrategyResolution → Failure → RecoveryContext
next_context ctx r f = record ctx {
  reason = f.reason;
  has_fallback = f.has_fallback;
  retryable = f.retryable;
  recovery_branch = f.recovery_branch;
  current_user_message = r.current_user_message;
  overflow_fallback_retry_attempts = r.overflow_fallback_retry_attempts;
  compaction_failure_recovery_attempts = r.compaction_failure_recovery_attempts;
  truncation_recovery_attempts = r.truncation_recovery_attempts;
  prompt_compaction_attempts = r.prompt_compaction_attempts;
  payload_truncation_attempts = r.payload_truncation_attempts;
}

-- The recoveries over a sequence of failures, each resolved with the attempts that are left.
unfoldable pub recoveries : RecoveryStrategyHooks → RecoveryContext → List Failure → ℕ
unfolding next_context resolve
recoveries hooks ctx [] = 0
recoveries hooks ctx (f ∷ fs) =
    let c = next_context ctx (initial_resolution ctx) f in
    let r = resolve hooks c in cost r + recoveries hooks (next_context c r f) fs

-- The attempts left before a resolution are those it takes and those it leaves.
abbrev Accounts : RecoveryContext → Failure → RecoveryStrategyResolution → Type 0
Accounts ctx f r = cost r + remaining (next_context ctx r f) ≡ remaining ctx

justified-Accounts :
    (hooks : RecoveryStrategyHooks) (ctx : RecoveryContext) (r : RecoveryStrategyResolution)
    (f : Failure) (applied : Applied)
    → r.applied ≡ applied
    → IsJustifiedBy hooks ctx r applied
    → Accounts ctx f r
unfolding next_context
justified-Accounts hooks ctx r f nothing q h =
    let c = h.0 in rw (q, c.0, c.1, c.2, c.3, c.4, add-zero) (omega arith)
justified-Accounts hooks ctx r f overflow_retry q h =
    let c = h.4 in rw (q, c.0, c.1, c.2, c.3, c.4, add-zero) (omega (arith, h.3))
justified-Accounts hooks ctx r f compaction_recovery q h =
    let c = h.4 in rw (q, c.0, c.1, c.2, c.3, c.4, add-zero) (omega (arith, h.3))
justified-Accounts hooks ctx r f truncation_recovery q h =
    let c = h.4 in rw (q, c.0, c.1, c.2, c.3, c.4, add-zero) (omega (arith, h.3))
justified-Accounts hooks ctx r f prompt_compaction q h =
    let c = h.4 in rw (q, c.0, c.1, c.2, c.3, c.4, add-zero) (omega (arith, h.3))
justified-Accounts hooks ctx r f payload_truncation q h =
    let c = h.4 in rw (q, c.0, c.1, c.2, c.3, c.4, add-zero) (omega (arith, h.3))

-- Over any sequence of failures of a request, whatever their reasons and whatever the hooks do, at
-- most as many are recovered as attempts were left in the budgets at the start.
pub recoveries-le-remaining :
    (hooks : RecoveryStrategyHooks) (fs : List Failure) (ctx : RecoveryContext)
    → recoveries hooks ctx fs ≤ remaining ctx
unfolding recoveries
recoveries-le-remaining hooks [] ctx = omega arith
recoveries-le-remaining hooks (f ∷ fs) ctx =
    let c = next_context ctx (initial_resolution ctx) f in
    let r = resolve hooks c in
    omega (
      arith,
      recoveries-le-remaining hooks fs (next_context c r f),
      justified-Accounts hooks c r f r.applied refl (resolve-IsJustified hooks c),
      remaining-next ctx f,
    )
  where
    remaining-next :
        (ctx : RecoveryContext) (f : Failure)
        → remaining (next_context ctx (initial_resolution ctx) f) ≡ remaining ctx
    remaining-next ctx f = unfold next_context in refl
