-- ===== src/Approvals/Refused.antt =====
-- When an executor may begin.
use agent_gateway_control.Prelude.{
  ℕ, ◌==◌, String, str_eq, Bool, true, false, ◌&&◌, not, Option, some, none, ◌≡◌, refl, is_none,
  arith, leb,
}
use agent_gateway_control.Approvals.Requests.{ApprovalStatus, is_granted}
use agent_gateway_control.Approvals.Actions.{ToolActionRow, is_queued}
use agent_gateway_control.Approvals.Case.{Case}
use agent_gateway_control.Approvals.Execution.{Env}
use agent_gateway_control.Approvals.Begin.{BeginVerdict, begin, begin_if, begin_tool_action}

-- The runner is told to begin.
abbrev pub is_begun : BeginVerdict → Bool
is_begun (begin key) = true
is_begun _ = false

module _ {R : Type 0} where
  -- The conditions of a begin, on the action of a granted request.
  abbrev pub may_begin : Env → Bool → ℕ → String → ApprovalStatus → Option (ToolActionRow R) → Bool
  may_begin env served attempt hash status none = false
  may_begin env served attempt hash status (some a) =
      is_granted status
      && is_queued a.status
      && (a.attempt == attempt)
      && str_eq a.immutable_action_hash hash
      && is_none a.cancel_requested_at
      && not (leb a.deadline_at env.now)
      && served
      && env.agent_enabled
      && not env.kill_switch

  begin_if-is_begun :
      (o : Option (ToolActionRow R)) (env : Env) (served : Bool) (attempt : ℕ) (hash : String)
      (c : Case R)
      → is_begun (begin_if o env served attempt hash c).1
        ≡ may_begin env served attempt hash c.approval.status o
  begin_if-is_begun none env served attempt hash c = refl
  begin_if-is_begun (some a) env served attempt hash c = ground arith

  -- An executor is told to begin exactly when the request is granted, its action is queued, not asked to
  -- stop and before its deadline, the attempt and the hash are the action's, the runner serves its
  -- namespace, the agent is enabled and the kill switch is off.
  pub begin-iff_may_begin :
      (env : Env) (served : Bool) (attempt : ℕ) (hash : String) (c : Case R)
      → is_begun (begin_tool_action env served attempt hash c).1
        ≡ may_begin env served attempt hash c.approval.status c.action
  unfolding begin_tool_action
  begin-iff_may_begin env served attempt hash c =
      begin_if-is_begun c.action env served attempt hash c
