-- ===== src/Approvals/Moved.antt =====
-- What happens to an action and at a deadline, as writes to the rows.
use mathlib.Core.Option.{some-injective}
use mathlib.Core.Path.{subst}
use agent_gateway_control.Prelude.{
  ℕ, String, Bool, true, false, some, ◌≡◌, refl, ap, ◌∙◌, inl, inr, Bool-cases, is_some, arith,
}
use agent_gateway_control.Approvals.Requests.{ApprovalStatus, is_granted}
use agent_gateway_control.Approvals.Actions.{
  ToolActionStatus, ToolActionRow, is_queued, is_running, is_unknown,
}
use agent_gateway_control.Approvals.Case.{
  Case, audit, raise_alert, post_notice, post_notice_on_card,
}
use agent_gateway_control.Approvals.Resolve.{resolve_approval}
use agent_gateway_control.Approvals.Settle.{
  late_alert, unknown_alert, settled, move_action, not_begun, not_reported, overdue_action,
  overdue_queued, overdue_running, timed_out_action,
}
use agent_gateway_control.Approvals.Writes.{
  core, ActionGuard, is_forward, is_run, Writes, here, next, move, Writes-append,
}
use agent_gateway_control.Approvals.Replied.{resolve_approval-Writes}

pub is_queued-lem : (s : ToolActionStatus) → is_queued s ≡ true → s ≡ ToolActionStatus.queued
is_queued-lem s h = ground arith

pub is_running-lem : (s : ToolActionStatus) → is_running s ≡ true → s ≡ ToolActionStatus.running
is_running-lem s h = ground arith

pub is_unknown-lem : (s : ToolActionStatus) → is_unknown s ≡ true → s ≡ ToolActionStatus.unknown
is_unknown-lem s h = ground arith

pub is_granted-lem : (s : ApprovalStatus) → is_granted s ≡ true → s ≡ ApprovalStatus.granted
is_granted-lem s h = ground arith

module _ {R : Type 0} where
  -- A move that leaves the identity of the action and its start alone.
  pub record IsMove (a : ToolActionRow R) (moved : ToolActionRow R) : Type 0 where
    pub guard : ActionGuard a moved
    pub started : moved.started_at ≡ a.started_at
    pub run : is_run moved.status ≡ true → a.status ≡ moved.status

  pub move-Write :
      (c : Case R) (a moved : ToolActionRow R)
      → c.action ≡ some a
      → IsMove a moved
      → Writes (core c) (core (record c { action = some moved }))
  move-Write c a moved e m = next here (move (core c) a moved e m.guard m.started m.run)

  pub same_but_status :
      (a moved : ToolActionRow R)
      → moved ≡ record a {
        status = moved.status;
        cancel_requested_at = moved.cancel_requested_at;
        completed_at = moved.completed_at;
        receipt = moved.receipt;
        error_redacted = moved.error_redacted;
      }
      → is_forward a.status moved.status ≡ true
      → (is_run moved.status ≡ true → a.status ≡ moved.status)
      → IsMove a moved
  same_but_status a moved e f r = record {
    guard = record {
      id = ap (λ x. x.id) e;
      approval_id = ap (λ x. x.approval_id) e;
      agent_id = ap (λ x. x.agent_id) e;
      namespace = ap (λ x. x.namespace) e;
      action_type = ap (λ x. x.action_type) e;
      action_params = ap (λ x. x.action_params) e;
      immutable_action_hash = ap (λ x. x.immutable_action_hash) e;
      idempotency_key = ap (λ x. x.idempotency_key) e;
      config_version = ap (λ x. x.config_version) e;
      deadline_at = ap (λ x. x.deadline_at) e;
      status = f;
    };
    started = ap (λ x. x.started_at) e;
    run = r;
  }

  pub not_begun-IsMove :
      (now : ℕ) (a : ToolActionRow R) → is_queued a.status ≡ true → IsMove a (not_begun now a)
  not_begun-IsMove now a q =
      same_but_status a (not_begun now a) refl (rw (is_queued-lem a.status q) refl)
        (λ h. absurd (ground (arith, h)))

  not_reported-IsMove :
      (a : ToolActionRow R) → is_running a.status ≡ true → IsMove a (not_reported a)
  not_reported-IsMove a q =
      same_but_status a (not_reported a) refl (rw (is_running-lem a.status q) refl)
        (λ h. absurd (ground (arith, h)))

  pub overdue_action-IsMove :
      (now : ℕ) (a moved : ToolActionRow R) → overdue_action now a ≡ some moved → IsMove a moved
  overdue_action-IsMove now a moved e = elim (Bool-cases (overdue_queued now a)) [
    | inl q ↦
        let same = some-injective (not_begun now a) moved (rw q at e) in
        subst (IsMove a) same (not_begun-IsMove now a (ground (arith, q)))
    | inr q ↦ elim (Bool-cases (overdue_running now a)) [
      | inl r ↦
          let same = some-injective (not_reported a) moved (rw (q, r) at e) in
          subst (IsMove a) same (not_reported-IsMove a (ground (arith, r)))
      | inr r ↦ absurd (let bad = rw (q, r) at e in ground (arith, bad))
    ]
  ]

  pub timed_out_action-IsMove :
      (now : ℕ) (a moved : ToolActionRow R) → timed_out_action now a ≡ some moved → IsMove a moved
  timed_out_action-IsMove now a moved e = elim (Bool-cases (is_queued a.status)) [
    | inl q ↦
        let same = some-injective (not_begun now a) moved (rw q at e) in
        subst (IsMove a) same (not_begun-IsMove now a q)
    | inr q ↦ elim (Bool-cases (is_running a.status)) [
      | inl r ↦
          let same = some-injective (not_reported a) moved (rw (q, r) at e) in
          subst (IsMove a) same (not_reported-IsMove a r)
      | inr r ↦ absurd (let bad = rw (q, r) at e in ground (arith, bad))
    ]
  ]

  pub post_notice_on_card-core :
      (key : String) (c : Case R) → core (post_notice_on_card key c) ≡ core c
  unfolding post_notice_on_card post_notice
  post_notice_on_card-core key c = elim (Bool-cases (is_some c.card)) [
    | inl e ↦ rw e refl
    | inr e ↦ rw e refl
  ]

  pub alerts-core :
      (late : Bool) (a : ToolActionRow R) (name : String) (c : Case R)
      → core (late_alert late a (unknown_alert a (audit "system" name c))) ≡ core c
  unfolding audit raise_alert
  alerts-core false a name c = elim (Bool-cases (is_unknown a.status)) [
    | inl e ↦ rw e refl
    | inr e ↦ rw e refl
  ]
  alerts-core true a name c = elim (Bool-cases (is_unknown a.status)) [
    | inl e ↦ rw e refl
    | inr e ↦ rw e refl
  ]

  -- Resolving after something that leaves the rows alone.
  pub resolve-after :
      (now : ℕ) (c d : Case R) → core d ≡ core c → Writes (core c) (core (resolve_approval now d).0)
  resolve-after now c d e =
      subst (λ k. Writes k (core (resolve_approval now d).0)) e (resolve_approval-Writes now d)

  settled-Writes :
      (now : ℕ) (late : Bool) (a : ToolActionRow R) (c : Case R)
      → Writes (core c) (core (settled now late a c).0)
  unfolding settled
  settled-Writes now late a c =
      resolve-after now c _ (post_notice_on_card-core _ _ ∙ alerts-core late a _ c)

  pub move_action-Writes :
      (now : ℕ) (late : Bool) (a moved : ToolActionRow R) (c : Case R)
      → c.action ≡ some a
      → IsMove a moved
      → Writes (core c) (core (move_action now late moved c).0)
  move_action-Writes now late a moved c e m =
      Writes-append (move-Write c a moved e m) (settled-Writes now late moved _)
