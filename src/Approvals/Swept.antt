-- ===== src/Approvals/Swept.antt =====
-- The sweep, a timeout, a runner's begin and report, an operator's word and a withdrawal as writes.
use agent_gateway_control.Prelude.{
  ℕ, String, Bool, true, false, ◌&&◌, Option, none, some, ◌≡◌, refl, inl, inr, Bool-cases, arith,
  leb, if◌then◌else◌, is_none,
}
use agent_gateway_control.Approvals.Requests.{
  ApprovalStatus, ApprovalRow, is_pending, is_granted, is_expired, is_cancelled,
}
use agent_gateway_control.Approvals.Actions.{ToolActionRow, is_queued}
use agent_gateway_control.Approvals.Case.{Case, post_notice_on_card}
use agent_gateway_control.Approvals.Execution.{Env}
use agent_gateway_control.Approvals.Settle.{
  final_notice, settle_overdue, swept_as, timed_out_as, action_cancelled, expire, sweep_one,
  timed_out, settle_approval_on_timeout,
}
use agent_gateway_control.Approvals.Begin.{
  BeginVerdict, begin_refusal, begin_unless, begin_if, begin_tool_action,
}
use agent_gateway_control.Approvals.Writes.{core, Writes, here, next, begin, close, Writes-append}
use agent_gateway_control.Approvals.Replied.{is_pending-lem, resolve_approval-Writes}
use agent_gateway_control.Approvals.Moved.{
  IsMove, is_queued-lem, is_granted-lem, overdue_action-IsMove, timed_out_action-IsMove,
  post_notice_on_card-core, resolve-after, move_action-Writes,
}

module _ {R : Type 0} where
  notice_if-core :
      (b : Bool) (key : String) (c d : Case R)
      → core d ≡ core c
      → core (if b then post_notice_on_card key c else d) ≡ core c
  notice_if-core true key c d e = post_notice_on_card-core key c
  notice_if-core false key c d e = e

  pub final_notice-core : (c : Case R) → core (final_notice c) ≡ core c
  unfolding final_notice
  final_notice-core c = notice_if-core (is_expired c.approval.status) _ c _ (
      notice_if-core (is_cancelled c.approval.status && is_none c.approval.decision_post_id) _ c _
        (notice_if-core (is_granted c.approval.status && action_cancelled c.action) _ c c refl))

  expire-Writes :
      (when : Bool) (c : Case R)
      → Writes
          (core c)
          (core (record c { approval = if when then expire c.approval else c.approval }))
  unfolding expire
  expire-Writes false c = here
  expire-Writes true c = elim (Bool-cases (is_pending c.approval.status)) [
    | inl p ↦ rw p (
        next here (close (core c) ApprovalStatus.expired (is_pending-lem c.approval.status p) refl))
    | inr p ↦ rw p here
  ]

  overdue-action :
      (now : ℕ) (p : ApprovalRow) (o : Option (ToolActionRow R)) (moved : ToolActionRow R)
      → settle_overdue now p o ≡ some moved
      → (a : ToolActionRow R) × (o ≡ some a) × (IsMove a moved)
  unfolding settle_overdue
  overdue-action now p none moved e = absurd (ground (arith, e))
  overdue-action now p (some a) moved e = elim (Bool-cases (is_granted p.status)) [
    | inl g ↦ (a, refl, overdue_action-IsMove now a moved (rw g at e))
    | inr g ↦ absurd (let bad = rw g at e in ground (arith, bad))
  ]

  timed_out-action :
      (now : ℕ) (o : Option (ToolActionRow R)) (moved : ToolActionRow R)
      → timed_out now o ≡ some moved
      → (a : ToolActionRow R) × (o ≡ some a) × (IsMove a moved)
  timed_out-action now none moved e = absurd (ground (arith, e))
  timed_out-action now (some a) moved e = (a, refl, timed_out_action-IsMove now a moved e)

  swept_as-Writes :
      (moved : Option (ToolActionRow R)) (now : ℕ) (c : Case R)
      → settle_overdue now c.approval c.action ≡ moved
      → Writes (core c) (core (swept_as moved now c).0)
  swept_as-Writes none now c e = resolve-after now c (final_notice c) (final_notice-core c)
  swept_as-Writes (some moved) now c e =
      let found = overdue-action now c.approval c.action moved e in
      move_action-Writes now false found.0 moved c found.1 found.2

  pub sweep_one-Writes : (now : ℕ) (c : Case R) → Writes (core c) (core (sweep_one now c).0)
  unfolding sweep_one
  sweep_one-Writes now c =
      Writes-append (expire-Writes (leb c.approval.expires_at now) c) (swept_as-Writes _ now _ refl)

  timed_out_as-Writes :
      (moved : Option (ToolActionRow R)) (now : ℕ) (c : Case R)
      → timed_out now c.action ≡ moved
      → Writes (core c) (core (timed_out_as moved now c).0)
  timed_out_as-Writes none now c e = resolve_approval-Writes now c
  timed_out_as-Writes (some moved) now c e =
      let found = timed_out-action now c.action moved e in
      move_action-Writes now false found.0 moved c found.1 found.2

  pub settle_approval_on_timeout-Writes :
      (now : ℕ) (c : Case R) → Writes (core c) (core (settle_approval_on_timeout now c).0)
  unfolding settle_approval_on_timeout
  settle_approval_on_timeout-Writes now c = elim (Bool-cases (is_pending c.approval.status)) [
    | inl p ↦
        let expired : Case R = record c { approval = expire c.approval } in
        rw p (
          Writes-append (expire-Writes true c)
            (resolve-after now expired (final_notice expired) (final_notice-core expired)))
    | inr p ↦ elim (Bool-cases (is_granted c.approval.status)) [
      | inl g ↦ rw (p, g) (timed_out_as-Writes _ now c refl)
      | inr g ↦ rw (p, g) (resolve_approval-Writes now c)
    ]
  ]

  begin_refusal-none :
      (env : Env) (served : Bool) (attempt : ℕ) (hash : String) (s : ApprovalStatus)
      (a : ToolActionRow R)
      → begin_refusal env served attempt hash s a ≡ none
      → (is_queued a.status ≡ true) × (is_granted s ≡ true)
  begin_refusal-none env served attempt hash s a e = ground (arith, e)

  begin_unless-Writes :
      (v : Option BeginVerdict) (env : Env) (served : Bool) (attempt : ℕ) (hash : String)
      (a : ToolActionRow R) (c : Case R)
      → c.action ≡ some a
      → begin_refusal env served attempt hash c.approval.status a ≡ v
      → Writes (core c) (core (begin_unless v env.now a c).0)
  begin_unless-Writes (some v) env served attempt hash a c e r = here
  begin_unless-Writes none env served attempt hash a c e r =
      let ready = begin_refusal-none env served attempt hash c.approval.status a r in
      next here (
        begin (core c) env.now a e (is_queued-lem a.status ready.0)
          (is_granted-lem c.approval.status ready.1))

  begin_if-Writes :
      (o : Option (ToolActionRow R)) (env : Env) (served : Bool) (attempt : ℕ) (hash : String)
      (c : Case R)
      → c.action ≡ o
      → Writes (core c) (core (begin_if o env served attempt hash c).0)
  begin_if-Writes none env served attempt hash c e = here
  begin_if-Writes (some a) env served attempt hash c e =
      begin_unless-Writes _ env served attempt hash a c e refl

  pub begin_tool_action-Writes :
      (env : Env) (served : Bool) (attempt : ℕ) (hash : String) (c : Case R)
      → Writes (core c) (core (begin_tool_action env served attempt hash c).0)
  unfolding begin_tool_action
  begin_tool_action-Writes env served attempt hash c =
      begin_if-Writes c.action env served attempt hash c refl
