-- ===== src/Approvals/Reported.antt =====
-- handleToolReport of packages/core/src/services/approvals.ts and the reports of a tool runner.
use agent_gateway_control.Prelude.{
  ℕ, ◌==◌, String, str_eq, Bool, true, false, ◌&&◌, not, Option, some, none, ◌≡◌, refl, inl, inr,
  Bool-cases, is_some, arith,
}
use agent_gateway_control.Approvals.Actions.{ToolActionStatus, ToolActionRow, ToolReport}
use agent_gateway_control.Approvals.Case.{Case, audit}
use agent_gateway_control.Approvals.Execution.{Env}
use agent_gateway_control.Approvals.Settle.{ToolReportOutcome, applied, is_refused, next_status}
use agent_gateway_control.Approvals.Reports.{
  apply_report, accept_report, report_on, handle_tool_report,
}
use agent_gateway_control.Approvals.Writes.{core}
use agent_gateway_control.Approvals.Taken.{conflicting_report-core}

abbrev pub is_applied : ToolReportOutcome → Bool
is_applied applied = true
is_applied _ = false

module _ {R : Type 0} where
  -- The report is of the action's namespace and attempt, of an agent that is not retired, and says
  -- something that the action can still take.
  abbrev pub counts : Env → String → ℕ → ToolReport R → Option (ToolActionRow R) → Bool
  counts env namespace attempt report none = false
  counts env namespace attempt report (some a) =
      str_eq a.namespace namespace
      && (a.attempt == attempt)
      && not env.agent_retired
      && not (is_refused report)
      && is_some (next_status a.status report)

  module _ (redact : String → String) where
    -- The report counted as it should, and otherwise left the rows alone.
    abbrev pub IsTaken : Bool → Case R → Case R × ToolReportOutcome → Type 0
    IsTaken counted before (after, outcome) =
        (is_applied outcome ≡ counted) × (counted ≡ false → core after ≡ core before)

    apply_report-IsTaken :
        (o : Option ToolActionStatus) (env : Env) (a : ToolActionRow R) (report : ToolReport R)
        (c : Case R)
        → IsTaken (is_some o) c (apply_report redact o env a report c)
    apply_report-IsTaken none env a report c = (refl, λ h. conflicting_report-core a report c)
    apply_report-IsTaken (some next) env a report c = (refl, λ h. absurd (ground (arith, h)))

    accept_report-IsTaken :
        (retired refusal : Bool) (env : Env) (report : ToolReport R) (a : ToolActionRow R)
        (c : Case R)
        → IsTaken
            (not retired && not refusal && is_some (next_status a.status report))
            c
            (accept_report redact retired refusal env report a c)
    unfolding audit
    accept_report-IsTaken true refusal env report a c = (refl, λ h. refl)
    accept_report-IsTaken false true env report a c = (refl, λ h. refl)
    accept_report-IsTaken false false env report a c =
        apply_report-IsTaken (next_status a.status report) env a report c

    report_on-IsTaken :
        (o : Option (ToolActionRow R)) (env : Env) (namespace : String) (attempt : ℕ)
        (report : ToolReport R) (c : Case R)
        → IsTaken
            (counts env namespace attempt report o)
            c
            (report_on redact o env namespace attempt report c)
    report_on-IsTaken none env namespace attempt report c = (refl, λ h. refl)
    report_on-IsTaken (some a) env namespace attempt report c =
        elim (Bool-cases (str_eq a.namespace namespace)) [
          | inr n ↦ rw n (refl, λ h. refl)
          | inl n ↦ elim (Bool-cases (a.attempt == attempt)) [
            | inr t ↦ rw (n, t) (refl, λ h. refl)
            | inl t ↦
                rw (n, t)
                  (accept_report-IsTaken env.agent_retired (is_refused report) env report a c)
          ]
        ]

    -- A runner's report is applied exactly when it is of the action's namespace and current attempt, of
    -- an agent that is not retired, no refusal, and the action can still take it; a report that is not
    -- applied leaves the request, the action, the resolution and the begun keys as they were.
    pub handle_tool_report-IsTaken :
        (env : Env) (namespace : String) (attempt : ℕ) (report : ToolReport R) (c : Case R)
        → (is_applied (handle_tool_report redact env namespace attempt report c).1
            ≡ counts env namespace attempt report c.action)
          × (counts env namespace attempt report c.action ≡ false
              → core (handle_tool_report redact env namespace attempt report c).0 ≡ core c)
    unfolding handle_tool_report
    handle_tool_report-IsTaken env namespace attempt report c =
        report_on-IsTaken c.action env namespace attempt report c
