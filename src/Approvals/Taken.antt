-- ===== src/Approvals/Taken.antt =====
-- A runner's report and an operator's word as writes to the rows.
use mathlib.Core.Path.{subst}
use agent_gateway_control.Prelude.{
  ℕ, ◌==◌, String, str_eq, Bool, true, false, ◌&&◌, not, Option, none, some, ◌≡◌, refl, sym, ap,
  inl, inr, Bool-cases, arith, Result, ok, err,
}
use agent_gateway_control.Approvals.Actions.{
  ToolActionStatus, ToolActionRow, ToolReport, is_unknown,
}
use agent_gateway_control.Approvals.Case.{Case, audit, raise_alert}
use agent_gateway_control.Approvals.Execution.{Env}
use agent_gateway_control.Approvals.Settle.{
  conflicting_report, next_status, report_kind, is_refused, action_name,
}
use agent_gateway_control.Approvals.Reports.{
  reported, apply_report, accept_report, report_on, handle_tool_report, settle_unknown,
  settle_by_hand, settle_tool_action, ManualOutcome, manual_status,
}
use agent_gateway_control.Approvals.Writes.{core, is_forward, is_run, Writes, here}
use agent_gateway_control.Approvals.Moved.{
  is_unknown-lem, move-Write, same_but_status, post_notice_on_card-core, move_action-Writes,
}

manual_status-is_forward :
    (o : ManualOutcome) → is_forward ToolActionStatus.unknown (manual_status o) ≡ true
manual_status-is_forward o = ground arith

manual_status-is_run : (o : ManualOutcome) → is_run (manual_status o) ≡ false
manual_status-is_run o = ground arith

ok_or {ℓ κ} : {E : Type ℓ} {A : Type κ} → A → Result E A → A
ok_or a (ok b) = b
ok_or a (err e) = a

module _ {R : Type 0} where
  next_status-is_forward :
      (s : ToolActionStatus) (report : ToolReport R) (t : ToolActionStatus)
      → next_status s report ≡ some t
      → (is_forward s t ≡ true) × (is_run t ≡ false)
  next_status-is_forward s report t e = ground (arith, e)

  pub conflicting_report-core :
      (a : ToolActionRow R) (report : ToolReport R) (c : Case R)
      → core (conflicting_report a report c) ≡ core c
  unfolding conflicting_report audit raise_alert
  conflicting_report-core a report c =
      elim (Bool-cases (
        not (str_eq (report_kind report) (action_name a.status))
        && not
            (str_eq (report_kind report) "failed" && str_eq (action_name a.status) "cancelled"))) [
              | inl e ↦ rw e refl
              | inr e ↦ rw e refl
            ]

  module _ (redact : String → String) where
    apply_report-Writes :
        (o : Option ToolActionStatus) (env : Env) (a : ToolActionRow R) (report : ToolReport R)
        (c : Case R)
        → c.action ≡ some a
        → next_status a.status report ≡ o
        → Writes (core c) (core (apply_report redact o env a report c).0)
    apply_report-Writes none env a report c e n =
        subst (λ k. Writes (core c) k) (sym (conflicting_report-core a report c)) here
    apply_report-Writes (some t) env a report c e n =
        let f = next_status-is_forward a.status report t n in
        move_action-Writes env.now (is_unknown a.status) a (reported redact env.now t report a) c e
          (same_but_status a (reported redact env.now t report a) refl f.0
            (λ h. absurd (let bad = rw f.1 at h in ground (arith, bad))))

    accept_report-Writes :
        (retired refusal : Bool) (env : Env) (report : ToolReport R) (a : ToolActionRow R)
        (c : Case R)
        → c.action ≡ some a
        → Writes (core c) (core (accept_report redact retired refusal env report a c).0)
    unfolding audit
    accept_report-Writes true refusal env report a c e = here
    accept_report-Writes false true env report a c e = here
    accept_report-Writes false false env report a c e = apply_report-Writes _ env a report c e refl

    report_on-Writes :
        (o : Option (ToolActionRow R)) (env : Env) (namespace : String) (attempt : ℕ)
        (report : ToolReport R) (c : Case R)
        → c.action ≡ o
        → Writes (core c) (core (report_on redact o env namespace attempt report c).0)
    report_on-Writes none env namespace attempt report c e = here
    report_on-Writes (some a) env namespace attempt report c e =
        elim (Bool-cases (str_eq a.namespace namespace)) [
          | inr n ↦ rw n here
          | inl n ↦ elim (Bool-cases (a.attempt == attempt)) [
            | inr t ↦ rw (n, t) here
            | inl t ↦
                rw (n, t)
                  (accept_report-Writes env.agent_retired (is_refused report) env report a c e)
          ]
        ]

    pub handle_tool_report-Writes :
        (env : Env) (namespace : String) (attempt : ℕ) (report : ToolReport R) (c : Case R)
        → Writes (core c) (core (handle_tool_report redact env namespace attempt report c).0)
    unfolding handle_tool_report
    handle_tool_report-Writes env namespace attempt report c =
        report_on-Writes c.action env namespace attempt report c refl

    settle_unknown-Writes :
        (now : ℕ) (outcome : ManualOutcome) (actor note : String) (a : ToolActionRow R) (c : Case R)
        → c.action ≡ some a
        → is_unknown a.status ≡ true
        → Writes (core c) (core (settle_unknown redact now outcome actor note a c))
    unfolding audit
    settle_unknown-Writes now outcome actor note a c e u =
        subst (λ k. Writes (core c) k) (sym (post_notice_on_card-core _ _))
          (move-Write c a _ e (
            same_but_status a _ refl
              (rw (is_unknown-lem a.status u) (manual_status-is_forward outcome))
              (λ h.
                absurd (let bad = rw (manual_status-is_run outcome) at h in ground (arith, bad)))))

    settle_by_hand-Writes :
        (o : Option (ToolActionRow R)) (now : ℕ) (outcome : ManualOutcome) (actor note : String)
        (c d : Case R)
        → c.action ≡ o
        → settle_by_hand redact o now outcome actor note c ≡ ok d
        → Writes (core c) (core d)
    unfolding ok_or
    settle_by_hand-Writes none now outcome actor note c d e h = absurd (ground (arith, h))
    settle_by_hand-Writes (some a) now outcome actor note c d e h =
        elim (Bool-cases (is_unknown a.status)) [
          | inr u ↦ absurd (let bad = rw u at h in ground (arith, bad))
          | inl u ↦
              let same : ok (settle_unknown redact now outcome actor note a c) ≡ ok d = rw u at h in
              subst (λ x. Writes (core c) (core x)) (ap (ok_or c) same)
                (settle_unknown-Writes now outcome actor note a c e u)
        ]

    pub settle_tool_action-Writes :
        (now : ℕ) (outcome : ManualOutcome) (actor note : String) (c d : Case R)
        → settle_tool_action redact now outcome actor note c ≡ ok d
        → Writes (core c) (core d)
    unfolding settle_tool_action
    settle_tool_action-Writes now outcome actor note c d h =
        settle_by_hand-Writes c.action now outcome actor note c d refl h
