-- ===== src/Approval/Examples.antt =====
-- A pending call of a tool, the user's decisions on it, and the theorems at it.
use ai_agent_starter_kit.Approval.{
  pending, denied, deny, tool_resource, by_user, Approval, Service, parse_scope, parse_decision,
  validate_scope, session_tool_key, is_preapproved, apply_allow_session, grant, decide_record,
  updated, decide,
}
use ai_agent_starter_kit.Approval.Finality.{
  Call, on_decide, on_expire, on_clear, run, IsSettledAs, outcome_is_final,
}
use ai_agent_starter_kit.Approval.Grants.{allow_session_exact}
use ai_agent_starter_kit.Common.{
  ◌≡◌, refl, true, false, not, ◌&&◌, ◌||◌, Option, none, some, List, [], ◌∷◌, or_else, is_empty,
  Text, codes, text_eq, elem, is_space, lstrip, rstrip, strip, lower_char, lower, normalize,
  add_member,
}
use ai_agent_starter_kit.Common.Dict.{get, put, contains}

abbrev call : Approval
call = record {
  run_id = codes "r1";
  session_id = codes " s1 ";
  agent_name = codes "head-agent";
  tool = codes "Run_Command";
  resource = codes "git status";
  status = pending;
  decision = none;
  scope = none;
  created_at = 100;
  updated_at = 100;
  signalled = false;
}

abbrev id : Text
id = codes "p1"

abbrev p : Service
p = record { records = (id, call) ∷ []; allow_always_rules = []; session_allow_all = [] }

-- The state that `decide` returns, for a decision that is accepted.
unfoldable after : Text → Option Text → Service
unfolding decide_record
after decision scope = elim (parse_decision (normalize decision)) [
  | none ↦ p
  | some d ↦ decide_record p 105 id call d (or_else tool_resource (validate_scope scope))
]

once_approves : decide p 105 id (codes " Deny") none ≡ updated (after (codes " Deny") none)
unfolding decide after validate_scope parse_decision get text_eq normalize strip lower lstrip rstrip
    lower_char is_space
once_approves = refl

always_approves :
    decide p 105 id (codes "allow_always") (some (codes "session_tool"))
    ≡ updated (after (codes "allow_always") (some (codes "session_tool")))
unfolding decide after validate_scope parse_scope parse_decision get text_eq normalize strip lower
    lstrip rstrip lower_char is_space
always_approves = refl

session_approves :
    decide p 105 id (codes "allow_session") none ≡ updated (after (codes "allow_session") none)
unfolding decide after validate_scope parse_decision get text_eq normalize strip lower lstrip rstrip
    lower_char is_space
session_approves = refl

allow_session_exact_example :
    is_preapproved
      (after (codes "allow_session") none)
      (codes "run_command")
      (codes "rm")
      (codes "s1")
    ≡ (is_preapproved p (codes "run_command") (codes "rm") (codes "s1")
        || (not (is_empty (strip (codes "s1")) || is_empty (normalize (codes "run_command")))
            && not (is_empty (strip call.session_id) || is_empty (normalize call.tool))
            && text_eq
                (session_tool_key (strip (codes "s1")) (normalize (codes "run_command")))
                (session_tool_key (strip call.session_id) (normalize call.tool))))
unfolding parse_decision get text_eq normalize strip lower lstrip rstrip lower_char is_space
allow_session_exact_example =
    allow_session_exact p (after (codes "allow_session") none) 105 id (codes "allow_session") none
      call session_approves refl refl (codes "run_command") (codes "rm") (codes "s1")

-- The session is allowed to run the command, whatever its argument.
session_is_allowed :
    is_preapproved
      (after (codes "allow_session") none)
      (codes "run_command")
      (codes "rm")
      (codes "s1")
    ≡ true
unfolding after is_preapproved decide_record grant apply_allow_session add_member elem
    parse_decision put get text_eq normalize strip lower lstrip rstrip lower_char is_space
session_is_allowed = refl

abbrev denied_call : Approval
denied_call = record call { status = denied; decision = some (by_user deny); signalled = true }

abbrev later : List Call
later =
    on_decide 110 id (codes "allow_once") none
    ∷ on_decide 120 id (codes "allow_session") none
    ∷ on_expire 130 id
    ∷ on_clear (codes "s1")
    ∷ []

outcome_is_final_example :
    IsSettledAs denied_call
      (get (run (record p { records = (id, denied_call) ∷ [] }) later).records id)
unfolding contains get text_eq
outcome_is_final_example =
    outcome_is_final later (record p { records = (id, denied_call) ∷ [] }) id denied_call (refl, tt)
      refl refl refl
