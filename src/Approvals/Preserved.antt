-- ===== src/Approvals/Preserved.antt =====
-- An approval under the transactions of packages/core/src/services/approvals.ts, in any order: its rows,
-- and the trigger approval_requests_guard of packages/db/migrations/0011_approval_guards.sql.
use agent_gateway_control.Prelude.{ℕ, String, true, Option, some, ◌≡◌, refl, ◌∙◌, is_some, arith}
use agent_gateway_control.Approvals.Requests.{ApprovalStatus, ApprovalRow}
use agent_gateway_control.Approvals.Case.{Case}
use agent_gateway_control.Approvals.Writes.{
  Core, core, IsKept, ApprovalGuard, Write, Writes, deny, grant, refuse, close, begin, move,
  resolve, here, next,
}
use agent_gateway_control.Approvals.Invariant.{WellFormed, IsUndecided}
use agent_gateway_control.Approvals.Kept.{Writes-WellFormed}
use agent_gateway_control.Approvals.Life.{Functions, Reach, Reach-Writes}

-- A new decision of a pending request.
decision-ApprovalGuard :
    (p : ApprovalRow) (status : ApprovalStatus) (user post : Option String) (at : Option ℕ)
    → p.status ≡ ApprovalStatus.pending
    → IsUndecided p
    → ApprovalGuard p (record p {
      status = status;
      decided_by_user_id = user;
      decided_at = at;
      decision_post_id = post;
    })
decision-ApprovalGuard p status user post at e u = record {
  id = refl;
  requested_by_agent_id = refl;
  run_id = refl;
  action_type = refl;
  action_params = refl;
  immutable_action_hash = refl;
  allowed_approver_user_ids = refl;
  nonce = refl;
  created_at = refl;
  expires_at = refl;
  decided_by_user_id = λ h. absurd (let bad = rw u.0 at h in ground (arith, bad));
  decided_at = λ h. absurd (let bad = rw u.1 at h in ground (arith, bad));
  decision_post_id = λ h. absurd (let bad = rw u.2 at h in ground (arith, bad));
  resolved_at = λ h. refl;
  status = λ h. absurd (let bad = rw e at h in ground (arith, bad));
}

-- The end of a request for its agent, and no change of it.
resolution-ApprovalGuard :
    (p : ApprovalRow) (at : Option ℕ)
    → (is_some p.resolved_at ≡ true → at ≡ p.resolved_at)
    → ApprovalGuard p (record p { resolved_at = at })
resolution-ApprovalGuard p at e = record {
  id = refl;
  requested_by_agent_id = refl;
  run_id = refl;
  action_type = refl;
  action_params = refl;
  immutable_action_hash = refl;
  allowed_approver_user_ids = refl;
  nonce = refl;
  created_at = refl;
  expires_at = refl;
  decided_by_user_id = λ h. refl;
  decided_at = λ h. refl;
  decision_post_id = λ h. refl;
  resolved_at = e;
  status = λ h. refl;
}

approval-unchanged : (p : ApprovalRow) → ApprovalGuard p p
approval-unchanged p = resolution-ApprovalGuard p p.resolved_at (λ h. refl)

IsKept-trans : {A : Type 0} (a b c : Option A) → IsKept a b → IsKept b c → IsKept a c
IsKept-trans a b c f g h = let same = f h in g (rw same h) ∙ same

ApprovalGuard-trans :
    (p q r : ApprovalRow) → ApprovalGuard p q → ApprovalGuard q r → ApprovalGuard p r
ApprovalGuard-trans p q r f g = record {
  id = g.id ∙ f.id;
  requested_by_agent_id = g.requested_by_agent_id ∙ f.requested_by_agent_id;
  run_id = g.run_id ∙ f.run_id;
  action_type = g.action_type ∙ f.action_type;
  action_params = g.action_params ∙ f.action_params;
  immutable_action_hash = g.immutable_action_hash ∙ f.immutable_action_hash;
  allowed_approver_user_ids = g.allowed_approver_user_ids ∙ f.allowed_approver_user_ids;
  nonce = g.nonce ∙ f.nonce;
  created_at = g.created_at ∙ f.created_at;
  expires_at = g.expires_at ∙ f.expires_at;
  decided_by_user_id = IsKept-trans _ _ _ f.decided_by_user_id g.decided_by_user_id;
  decided_at = IsKept-trans _ _ _ f.decided_at g.decided_at;
  decision_post_id = IsKept-trans _ _ _ f.decision_post_id g.decision_post_id;
  resolved_at = IsKept-trans _ _ _ f.resolved_at g.resolved_at;
  status = λ h. let same = f.status h in g.status (rw same h) ∙ same;
}

module _ {R : Type 0} where
  Write-ApprovalGuard :
      {k l : Core R} → Write k l → WellFormed k → ApprovalGuard k.approval l.approval
  Write-ApprovalGuard (deny k env reply p) w =
      decision-ApprovalGuard k.approval _ _ _ _ p (w.undecided p)
  Write-ApprovalGuard (grant k env reply id namespace version p i d) w =
      decision-ApprovalGuard k.approval _ _ _ _ p (w.undecided p)
  Write-ApprovalGuard (refuse k post_id p) w =
      decision-ApprovalGuard k.approval _ _ _ _ p (w.undecided p)
  Write-ApprovalGuard (close k status p c) w =
      decision-ApprovalGuard k.approval _ _ _ _ p (w.undecided p)
  Write-ApprovalGuard (begin k now a e q s) w = approval-unchanged k.approval
  Write-ApprovalGuard (move k a moved e g t r) w = approval-unchanged k.approval
  Write-ApprovalGuard (resolve k now outcome n o) w =
      resolution-ApprovalGuard k.approval (some now)
        (λ h. absurd (let bad = rw n at h in ground (arith, bad)))

  Writes-ApprovalGuard :
      {k l : Core R} → Writes k l → WellFormed k → ApprovalGuard k.approval l.approval
  Writes-ApprovalGuard {k} here w = approval-unchanged k.approval
  Writes-ApprovalGuard {k} {l} (next {l = q} r s) w =
      ApprovalGuard-trans k.approval q.approval l.approval (Writes-ApprovalGuard r w)
        (Write-ApprovalGuard s (Writes-WellFormed r w))

  -- From a well-formed approval on, over every history of replies, begins, reports, sweeps, timeouts,
  -- withdrawals, revocations and operators' words, the change of the request is one that its trigger lets
  -- through: what was asked, its hash, approvers, nonce and times stay, a decision or a resolution that
  -- is recorded stays, and a request that is no longer pending keeps its status. And the approval stays
  -- well-formed: a pending request has no decision; a granted one was decided by one of its approvers;
  -- there is one event of its end when it is resolved and none before, and it is resolved only when it
  -- has an outcome; an action is there exactly when the request is granted, carries what was approved
  -- under the key made of it, has a start time as its status asks, and was begun exactly when it has one.
  pub Reach-ApprovalGuard :
      (fs : Functions) {c d : Case R}
      → Reach fs c d
      → WellFormed (core c)
      → ApprovalGuard (core c).approval (core d).approval × WellFormed (core d)
  Reach-ApprovalGuard fs r w =
      (Writes-ApprovalGuard (Reach-Writes fs r) w, Writes-WellFormed (Reach-Writes fs r) w)
