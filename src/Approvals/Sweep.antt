-- ===== src/Approvals/Sweep.antt =====
-- The sweep of approvals that ended or are overdue: the query and the loop of sweepApprovals of
-- approvals.ts. The late card notices that follow the loop, and whose number the source adds to the
-- number of the loop, are not modelled. `clock` is what each approval's transaction reads, and `throws`
-- says which of the transactions fail.
use agent_gateway_control.Prelude.{
  ℕ, zero, suc, String, Bool, true, false, ◌&&◌, ◌||◌, Option, none, some, List, [], ◌∷◌, leb,
  is_none, is_some, if◌then◌else◌,
}
use agent_gateway_control.Approvals.Requests.{ApprovalStatus}
use agent_gateway_control.Approvals.Actions.{ToolActionRow}
use agent_gateway_control.Approvals.Case.{Case}
use agent_gateway_control.Approvals.Resolve.{action_outcome}
use agent_gateway_control.Approvals.Settle.{overdue_queued, overdue_running, sweep_one}

abbrev pub sweep_limit : ℕ
sweep_limit = 100

abbrev pub count_handled : Bool → ℕ → ℕ
count_handled handled n = if handled then suc n else n

module _ {R : Type 0} where
  abbrev pub is_action_due : ℕ → Option (ToolActionRow R) → Bool
  is_action_due now none = false
  is_action_due now (some action) =
      is_some (action_outcome action.status)
      || overdue_queued now action
      || overdue_running now action

  abbrev pub has_ended : ℕ → ApprovalStatus → ℕ → Option (ToolActionRow R) → Bool
  has_ended now ApprovalStatus.denied expires_at action = true
  has_ended now ApprovalStatus.expired expires_at action = true
  has_ended now ApprovalStatus.cancelled expires_at action = true
  has_ended now ApprovalStatus.pending expires_at action = leb expires_at now
  has_ended now ApprovalStatus.granted expires_at action = is_action_due now action

  -- The condition of the query for candidates.
  unfoldable pub is_due : ℕ → Case R → Bool
  is_due now c =
      is_none c.approval.resolved_at
      && has_ended now c.approval.status c.approval.expires_at c.action

  -- The transaction of one candidate, with its own reading of the clock. One that throws (the
  -- connection is lost, say) leaves the approval as it is, for the next sweep.
  unfoldable pub sweep_candidate : (String → ℕ) → (String → Bool) → Case R → Case R × Bool
  sweep_candidate clock throws c =
      if throws c.approval.id then (c, false) else sweep_one (clock c.approval.id) c

  -- The candidates among the approvals, in the order of their creation, up to the limit.
  abbrev pub sweep_up_to :
      ℕ → ℕ → (String → ℕ) → (String → Bool) → List (Case R) → List (Case R) × ℕ
  sweep_up_to zero now clock throws cs = (cs, 0)
  sweep_up_to (suc limit) now clock throws [] = ([], 0)
  sweep_up_to (suc limit) now clock throws (c ∷ cs) =
      let swept = sweep_candidate clock throws c in
      let taken = sweep_up_to limit now clock throws cs in
      let passed = sweep_up_to (suc limit) now clock throws cs in
      if is_due now c
      then (swept.0 ∷ taken.0, count_handled swept.1 taken.1)
      else (c ∷ passed.0, passed.1)

  -- The loop of sweepApprovals over the candidates of its query, with the number that it has handled.
  unfoldable pub sweep_candidates :
      ℕ → (String → ℕ) → (String → Bool) → List (Case R) → List (Case R) × ℕ
  sweep_candidates now clock throws cs = sweep_up_to sweep_limit now clock throws cs
