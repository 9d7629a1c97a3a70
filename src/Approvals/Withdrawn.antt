-- ===== src/Approvals/Withdrawn.antt =====
-- A withdrawal and a revocation of open approvals as writes to the rows.
use mathlib.Core.Path.{subst}
use agent_gateway_control.Prelude.{
  ℕ, String, Bool, true, false, ◌&&◌, Option, none, some, List, ◌≡◌, refl, inl, inr, Bool-cases,
  arith, if◌then◌else◌, is_none,
}
use agent_gateway_control.Approvals.Requests.{ApprovalStatus, is_pending}
use agent_gateway_control.Approvals.Actions.{ToolActionRow, is_queued, is_running}
use agent_gateway_control.Approvals.Case.{Case}
use agent_gateway_control.Approvals.Execution.{Env, execution_issues}
use agent_gateway_control.Approvals.Withdraw.{
  concerns, cancel_pending, cancel_queued, request_stop, withdraw_open_approvals,
  revoke_queued_actions, has_issues, agent_concerned,
}
use agent_gateway_control.Approvals.Writes.{core, Writes, here, next, close, Writes-append}
use agent_gateway_control.Approvals.Replied.{is_pending-lem}
use agent_gateway_control.Approvals.Moved.{
  IsMove, is_queued-lem, is_running-lem, move-Write, same_but_status,
}

module _ {R : Type 0} where
  cancel_pending-Writes :
      (when : Bool) (c : Case R)
      → Writes (core c) (core (record c { approval = cancel_pending when c.approval }))
  cancel_pending-Writes when c = elim (Bool-cases (when && is_pending c.approval.status)) [
    | inl e ↦ rw e (
        next here (
          close (core c) ApprovalStatus.cancelled
            (is_pending-lem c.approval.status (ground (arith, e))) refl))
    | inr e ↦ rw e here
  ]

  same_action-Writes :
      (o : Option (ToolActionRow R)) (c : Case R)
      → c.action ≡ o
      → Writes (core c) (core (record c { action = o }))
  same_action-Writes o c e = subst (λ x. Writes (core c) (core (record c { action = x }))) e here

  move_if-Writes :
      (b : Bool) (a moved : ToolActionRow R) (c : Case R)
      → c.action ≡ some a
      → (b ≡ true → IsMove a moved)
      → Writes (core c) (core (record c { action = if b then some moved else some a }))
  move_if-Writes true a moved c e m = move-Write c a moved e (m refl)
  move_if-Writes false a moved c e m = same_action-Writes (some a) c e

  cancel_queued-Writes :
      (o : Option (ToolActionRow R)) (now : ℕ) (when : Bool) (reason : String) (c : Case R)
      → c.action ≡ o
      → Writes (core c) (core (record c { action = cancel_queued now when reason o }))
  cancel_queued-Writes none now when reason c e = same_action-Writes none c e
  cancel_queued-Writes (some a) now when reason c e =
      move_if-Writes (when && is_queued a.status) a _ c e (λ q.
        same_but_status a _ refl (rw (is_queued-lem a.status (ground (arith, q))) refl)
          (λ h. absurd (ground (arith, h))))

  request_stop-Writes :
      (o : Option (ToolActionRow R)) (now : ℕ) (when : Bool) (c : Case R)
      → c.action ≡ o
      → Writes (core c) (core (record c { action = request_stop now when o }))
  request_stop-Writes none now when c e = same_action-Writes none c e
  request_stop-Writes (some a) now when c e =
      move_if-Writes (when && is_running a.status && is_none a.cancel_requested_at) a _ c e (λ q.
        same_but_status a _ refl (rw (is_running-lem a.status (ground (arith, q))) refl)
          (λ h. refl))

  pub withdraw_open_approvals-Writes :
      (now : ℕ) (agent : Option String) (reason : String) (pending_only : Bool) (c : Case R)
      → Writes (core c) (core (withdraw_open_approvals now agent reason pending_only c))
  unfolding withdraw_open_approvals
  withdraw_open_approvals-Writes now agent reason true c =
      cancel_pending-Writes (concerns agent c.approval.requested_by_agent_id) c
  withdraw_open_approvals-Writes now agent reason false c =
      let mine = concerns agent c.approval.requested_by_agent_id in
      let run = agent_concerned agent c.action in
      let withdrawn : Case R = record c { approval = cancel_pending mine c.approval } in
      let cancelled : Case R = record withdrawn {
        action = cancel_queued now run reason c.action;
      } in
      Writes-append (cancel_pending-Writes mine c) (
        Writes-append (cancel_queued-Writes c.action now run reason withdrawn refl)
          (request_stop-Writes cancelled.action now run cancelled refl))

  pub revoke_queued_actions-Writes :
      (digest : String → List (String × String) → String) (reason_of : List String → String)
      (env : Env) (c : Case R)
      → Writes (core c) (core (revoke_queued_actions digest reason_of env c))
  unfolding revoke_queued_actions
  revoke_queued_actions-Writes digest reason_of env c =
      let issues = execution_issues digest env c.approval in
      let cancelled : Case R = record c {
        action = cancel_queued env.now (has_issues issues) (reason_of issues) c.action;
      } in
      Writes-append
        (cancel_queued-Writes c.action env.now (has_issues issues) (reason_of issues) c refl)
        (cancel_pending-Writes (has_issues issues) cancelled)
