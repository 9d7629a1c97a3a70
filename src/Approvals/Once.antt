-- ===== src/Approvals/Once.antt =====
-- The histories of an approval (packages/core/src/services/approvals.ts).
use agent_gateway_control.Prelude.{
  ℕ, ◌≤◌, String, true, Option, none, some, List, ◌≡◌, refl, sym, ap, ◌∙◌, length, eq_iff, includes,
  arith,
}
use agent_gateway_control.Approvals.Requests.{ApprovalStatus, ApprovalRow}
use agent_gateway_control.Approvals.Actions.{ToolActionRow, tool_action_idempotency_key}
use agent_gateway_control.Approvals.Case.{Case, ApprovalOutcome}
use agent_gateway_control.Approvals.Execution.{approval_action_hash}
use agent_gateway_control.Approvals.Writes.{
  Core, core, Write, Writes, deny, grant, refuse, close, begin, move, resolve, here, next,
}
use agent_gateway_control.Approvals.Invariant.{WellFormed, ActionFor, OneEvent, key_if}
use agent_gateway_control.Approvals.Kept.{Writes-WellFormed}
use agent_gateway_control.Approvals.New.{ApprovalDraft, FreshIds, new_approval, create_approval}
use agent_gateway_control.Approvals.Life.{Functions, Reach, Reach-Writes}

-- The columns that say what is approved, and by whom it may be.
abbrev pub IsSameRequest : ApprovalRow → ApprovalRow → Type 0
IsSameRequest p q =
    (q.id ≡ p.id)
    × (q.action_type ≡ p.action_type)
    × (q.action_params ≡ p.action_params)
    × (q.immutable_action_hash ≡ p.immutable_action_hash)
    × (q.allowed_approver_user_ids ≡ p.allowed_approver_user_ids)

module _ {R : Type 0} where
  Write-IsSameRequest : {k l : Core R} → Write k l → IsSameRequest k.approval l.approval
  Write-IsSameRequest (deny k env reply p) = (refl, refl, refl, refl, refl)
  Write-IsSameRequest (grant k env reply id namespace version p i d) =
      (refl, refl, refl, refl, refl)
  Write-IsSameRequest (refuse k post_id p) = (refl, refl, refl, refl, refl)
  Write-IsSameRequest (close k status p c) = (refl, refl, refl, refl, refl)
  Write-IsSameRequest (begin k now a e q s) = (refl, refl, refl, refl, refl)
  Write-IsSameRequest (move k a moved e g t r) = (refl, refl, refl, refl, refl)
  Write-IsSameRequest (resolve k now outcome n o) = (refl, refl, refl, refl, refl)

  Writes-IsSameRequest : {k l : Core R} → Writes k l → IsSameRequest k.approval l.approval
  Writes-IsSameRequest here = (refl, refl, refl, refl, refl)
  Writes-IsSameRequest (next r w) =
      let p = Writes-IsSameRequest r in
      let q = Write-IsSameRequest w in (q.0 ∙ p.0, q.1 ∙ p.1, q.2 ∙ p.2, q.3 ∙ p.3, q.4 ∙ p.4)

  create_approval-WellFormed :
      (digest : String → List (String × String) → String) (ids : FreshIds) (now : ℕ)
      (approvers : List String) (draft : ApprovalDraft)
      → WellFormed (core (create_approval digest {R = R} ids now approvers draft))
  unfolding create_approval new_approval
  create_approval-WellFormed digest ids now approvers draft = record {
    undecided = λ p. (refl, refl, refl);
    approved = λ g. absurd (ground (arith, g));
    one_event = refl;
    ended = λ r. absurd (ground (arith, r));
    action_for = (refl, refl);
  }

length-key_if : (at : Option ℕ) (key : String) → length (key_if at key) ≤ 1
length-key_if none key = omega arith
length-key_if (some at) key = omega arith

includes-key_if : (at : Option ℕ) (key k : String) → includes (key_if at key) k ≡ true → k ≡ key
includes-key_if none key k h = absurd (ground (arith, h))
includes-key_if (some at) key k h = sym ((eq_iff key k).0 (ground (arith, h)))

module _ {R : Type 0} where
  length-begun :
      (p : ApprovalRow) (begun : List String) (o : Option (ToolActionRow R))
      → ActionFor p begun o
      → length begun ≤ 1
  length-begun p begun none f = rw f.1 (omega arith)
  length-begun p begun (some a) f = rw f.2 (length-key_if a.started_at a.idempotency_key)

  begun-key :
      (p : ApprovalRow) (begun : List String) (o : Option (ToolActionRow R)) (key : String)
      → ActionFor p begun o
      → includes begun key ≡ true
      → (p.status ≡ ApprovalStatus.granted)
        × (key ≡ tool_action_idempotency_key p.id p.immutable_action_hash)
  begun-key p begun none key f h = absurd (let bad = rw f.1 at h in ground (arith, bad))
  begun-key p begun (some a) key f h = (
    f.0,
    (let listed = rw f.2 at h in includes-key_if a.started_at a.idempotency_key key listed)
        ∙ f.1.key,
  )

abbrev pub draft_hash : Functions → ApprovalDraft → String
draft_hash fs draft = approval_action_hash fs.digest draft.action_type draft.action_params

abbrev pub events_of : Option ℕ → ℕ
events_of none = 0
events_of (some at) = 1

length-OneEvent :
    (at : Option ℕ) (events : List ApprovalOutcome)
    → OneEvent at events
    → length events ≡ events_of at
length-OneEvent none events h = rw h refl
length-OneEvent (some at) events h = h

module _ {R : Type 0} (fs : Functions) (ids : FreshIds) (created : ℕ) (approvers : List String)
    (draft : ApprovalDraft) where
  abbrev pub History : Case R → Type 0
  History c = Reach fs (create_approval fs.digest ids created approvers draft) c

  pub History-WellFormed : (c : Case R) → History c → WellFormed (core c)
  History-WellFormed c h =
      Writes-WellFormed (Reach-Writes fs h)
        (create_approval-WellFormed fs.digest ids created approvers draft)

  History-IsSameRequest :
      (c : Case R)
      → History c
      → IsSameRequest (new_approval fs.digest ids created approvers draft) c.approval
  unfolding create_approval
  History-IsSameRequest c h = Writes-IsSameRequest (Reach-Writes fs h)

  -- Whatever replies, reports, sweeps, timeouts, withdrawals, revocations and operators' words follow a
  -- request, in any order and at any times, at most one executor is told to begin its action.
  pub begun-at_most_once : (c : Case R) → History c → length c.begun ≤ 1
  begun-at_most_once c h =
      length-begun c.approval c.begun c.action (History-WellFormed c h).action_for

  -- An executor is told to begin only what was asked for, and only after an approver of the request
  -- granted it: its idempotency key is the one of the request and of the hash of the drafted action.
  pub begun-IsApproved :
      (c : Case R)
      → History c
      → (key : String) → includes c.begun key ≡ true
      → (c.approval.status ≡ ApprovalStatus.granted)
        × (key ≡ tool_action_idempotency_key ids.approval_id (draft_hash fs draft))
        × ((user : String) × (c.approval.decided_by_user_id ≡ some user)
            × (includes approvers user ≡ true))
  unfolding new_approval
  begun-IsApproved c h key b =
      let w = History-WellFormed c h in
      let same = History-IsSameRequest c h in
      let k = begun-key c.approval c.begun c.action key w.action_for b in
      let by = w.approved k.0 in
      (
        k.0,
        rw (sym same.0, sym same.3) k.1,
        (by.0, by.1, ap (λ us. includes us by.0) (sym same.4) ∙ by.2),
      )

  -- The agent is told how its approval ended once: the history has one `approval.resolved` event when
  -- the approval is resolved, and none before.
  pub resolved-once :
      (c : Case R) → History c → length c.resolved_events ≡ events_of c.approval.resolved_at
  resolved-once c h =
      length-OneEvent c.approval.resolved_at c.resolved_events (History-WellFormed c h).one_event
