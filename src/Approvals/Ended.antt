-- ===== src/Approvals/Ended.antt =====
-- sweepOne of packages/core/src/services/approvals.ts on an approval that ended or is overdue.
use mathlib.Core.Path.{subst}
use mathlib.Core.Option.{some-injective}
use agent_gateway_control.Prelude.{
  ℕ, Bool, true, false, Option, none, some, ◌≡◌, refl, sym, ◌∙◌, inl, inr, Bool-cases, leb, is_none,
  is_some, arith,
}
use agent_gateway_control.Approvals.Requests.{ApprovalStatus, ApprovalRow, is_pending, is_granted}
use agent_gateway_control.Approvals.Actions.{ToolActionRow}
use agent_gateway_control.Approvals.Case.{Case, ApprovalOutcome}
use agent_gateway_control.Approvals.Resolve.{
  action_outcome, approval_outcome, emit_resolved, resolve_approval,
}
use agent_gateway_control.Approvals.Settle.{
  settled, final_notice, not_begun, not_reported, overdue_action, overdue_queued, overdue_running,
  settle_overdue, swept_as, expire, expire_overdue, sweep_one,
}
use agent_gateway_control.Approvals.Writes.{Core, core}
use agent_gateway_control.Approvals.Replied.{is_pending-lem}
use agent_gateway_control.Approvals.Moved.{is_granted-lem, alerts-core, post_notice_on_card-core}
use agent_gateway_control.Approvals.Swept.{final_notice-core}
use agent_gateway_control.Approvals.Sweep.{is_action_due, has_ended, is_due}

-- The status that the sweep finds after it expired an overdue request.
abbrev status_after : Bool → ApprovalStatus → ApprovalStatus
status_after true ApprovalStatus.pending = ApprovalStatus.expired
status_after true ApprovalStatus.granted = ApprovalStatus.granted
status_after true ApprovalStatus.denied = ApprovalStatus.denied
status_after true ApprovalStatus.expired = ApprovalStatus.expired
status_after true ApprovalStatus.cancelled = ApprovalStatus.cancelled
status_after false status = status

status_after-same : (b : Bool) (s : ApprovalStatus) → is_pending s ≡ false → status_after b s ≡ s
status_after-same b s h = ground arith

expire-status : (p : ApprovalRow) → (expire p).status ≡ status_after true p.status
unfolding expire
expire-status p = elim (Bool-cases (is_pending p.status)) [
  | inl e ↦ rw e (rw (is_pending-lem p.status e) refl)
  | inr e ↦ rw e (ground (arith, e))
]

expire-resolved_at : (p : ApprovalRow) → (expire p).resolved_at ≡ p.resolved_at
unfolding expire
expire-resolved_at p = elim (Bool-cases (is_pending p.status)) [
  | inl e ↦ rw e refl
  | inr e ↦ rw e refl
]

expire_overdue-lem :
    (now : ℕ) (p : ApprovalRow)
    → ((expire_overdue now p).status ≡ status_after (leb p.expires_at now) p.status)
      × ((expire_overdue now p).resolved_at ≡ p.resolved_at)
expire_overdue-lem now p = elim (Bool-cases (leb p.expires_at now)) [
  | inl e ↦ rw e (expire-status p, expire-resolved_at p)
  | inr e ↦ rw e (refl, refl)
]

module _ {R : Type 0} where
  abbrev outcome_of : Core R → Option ApprovalOutcome
  outcome_of k = approval_outcome k.approval.status k.action

  -- The approval is resolved, and the transaction counts.
  abbrev pub IsResolved : Case R × Bool → Type 0
  IsResolved (c, handled) = (is_some c.approval.resolved_at ≡ true) × (handled ≡ true)

  emit_resolved-IsResolved :
      (now : ℕ) (o : Option ApprovalOutcome) (c : Case R)
      → is_none c.approval.resolved_at ≡ true
      → is_some o ≡ true
      → IsResolved (emit_resolved now o c)
  emit_resolved-IsResolved now none c n h = absurd (ground (arith, h))
  emit_resolved-IsResolved now (some o) c n h =
      let open_still : is_some c.approval.resolved_at ≡ false = ground (arith, n) in
      rw open_still (refl, refl)

  resolve-IsResolved :
      (now : ℕ) (d : Case R) (k : Core R)
      → core d ≡ k
      → is_none k.approval.resolved_at ≡ true
      → is_some (outcome_of k) ≡ true
      → IsResolved (resolve_approval now d)
  unfolding resolve_approval
  resolve-IsResolved now d k e n h =
      emit_resolved-IsResolved now (approval_outcome d.approval.status d.action) d
        (subst (λ x. is_none x.approval.resolved_at ≡ true) (sym e) n)
        (subst (λ x. is_some (outcome_of x) ≡ true) (sym e) h)

  settled-IsResolved :
      (now : ℕ) (late : Bool) (a : ToolActionRow R) (c : Case R)
      → is_none c.approval.resolved_at ≡ true
      → is_some (outcome_of (core c)) ≡ true
      → IsResolved (settled now late a c)
  unfolding settled
  settled-IsResolved now late a c n h =
      resolve-IsResolved now _ (core c) (post_notice_on_card-core _ _ ∙ alerts-core late a _ c) n h

  overdue_action-outcome :
      (now : ℕ) (a moved : ToolActionRow R)
      → overdue_action now a ≡ some moved
      → is_some (action_outcome moved.status) ≡ true
  overdue_action-outcome now a moved e = elim (Bool-cases (overdue_queued now a)) [
    | inl q ↦
        let same = some-injective (not_begun now a) moved (rw q at e) in
        subst (λ x. is_some (action_outcome x.status) ≡ true) same refl
    | inr q ↦ elim (Bool-cases (overdue_running now a)) [
      | inl r ↦
          let same = some-injective (not_reported a) moved (rw (q, r) at e) in
          subst (λ x. is_some (action_outcome x.status) ≡ true) same refl
      | inr r ↦ absurd (let bad = rw (q, r) at e in ground (arith, bad))
    ]
  ]

  not_overdue-outcome :
      (now : ℕ) (a : ToolActionRow R)
      → is_action_due now (some a) ≡ true
      → overdue_action now a ≡ none
      → is_some (action_outcome a.status) ≡ true
  not_overdue-outcome now a d e = ground (arith, d, e)

  -- An action that the sweep moves belongs to a granted approval, and ends it.
  settle_overdue-outcome :
      (now : ℕ) (p : ApprovalRow) (o : Option (ToolActionRow R)) (moved : ToolActionRow R)
      → settle_overdue now p o ≡ some moved
      → is_some (approval_outcome p.status (some moved)) ≡ true
  unfolding settle_overdue approval_outcome
  settle_overdue-outcome now p none moved e = absurd (ground (arith, e))
  settle_overdue-outcome now p (some a) moved e = elim (Bool-cases (is_granted p.status)) [
    | inl g ↦ rw (is_granted-lem p.status g) (overdue_action-outcome now a moved (rw g at e))
    | inr g ↦ absurd (let bad = rw g at e in ground (arith, bad))
  ]

  swept_as-IsResolved :
      (o : Option (ToolActionRow R)) (now : ℕ) (c : Case R)
      → settle_overdue now c.approval c.action ≡ o
      → is_none c.approval.resolved_at ≡ true
      → (o ≡ none → is_some (outcome_of (core c)) ≡ true)
      → IsResolved (swept_as o now c)
  swept_as-IsResolved none now c e n h =
      resolve-IsResolved now (final_notice c) (core c) (final_notice-core c) n (h refl)
  swept_as-IsResolved (some moved) now c e n h =
      let moved_on : Case R = record c { action = some moved } in
      (
        (settled-IsResolved now false moved moved_on n
            (settle_overdue-outcome now c.approval c.action moved e)).0,
        refl,
      )

  granted-outcome :
      (now : ℕ) (p : ApprovalRow) (o : Option (ToolActionRow R))
      → p.status ≡ ApprovalStatus.granted
      → is_action_due now o ≡ true
      → settle_overdue now p o ≡ none
      → is_some (approval_outcome p.status o) ≡ true
  unfolding approval_outcome settle_overdue
  granted-outcome now p none e h n = absurd (ground (arith, h))
  granted-outcome now p (some a) e h n = rw e (not_overdue-outcome now a h (let m = rw e at n in m))

  ended-outcome :
      (now : ℕ) (s : ApprovalStatus) (expires_at : ℕ) (p : ApprovalRow)
      (o : Option (ToolActionRow R))
      → p.status ≡ status_after (leb expires_at now) s
      → has_ended now s expires_at o ≡ true
      → settle_overdue now p o ≡ none
      → is_some (approval_outcome p.status o) ≡ true
  unfolding approval_outcome
  ended-outcome now ApprovalStatus.pending expires_at p o e h n =
      let expired = rw h at e in rw expired refl
  ended-outcome now ApprovalStatus.granted expires_at p o e h n =
      granted-outcome now p o
        (e ∙ status_after-same (leb expires_at now) ApprovalStatus.granted refl) h n
  ended-outcome now ApprovalStatus.denied expires_at p o e h n =
      rw (e ∙ status_after-same (leb expires_at now) ApprovalStatus.denied refl) refl
  ended-outcome now ApprovalStatus.expired expires_at p o e h n =
      rw (e ∙ status_after-same (leb expires_at now) ApprovalStatus.expired refl) refl
  ended-outcome now ApprovalStatus.cancelled expires_at p o e h n =
      rw (e ∙ status_after-same (leb expires_at now) ApprovalStatus.cancelled refl) refl

  -- A sweep of an approval that is due tells its agent how it ended, and counts.
  pub sweep_one-IsResolved :
      (now : ℕ) (c : Case R) → is_due now c ≡ true → IsResolved (sweep_one now c)
  unfolding is_due sweep_one
  sweep_one-IsResolved now c d =
      let swept : Case R = record c { approval = expire_overdue now c.approval } in
      let after = expire_overdue-lem now c.approval in
      swept_as-IsResolved (settle_overdue now swept.approval swept.action) now swept refl
        (rw after.1 (ground (arith, d)))
        (λ n.
          ended-outcome now c.approval.status c.approval.expires_at swept.approval c.action after.0
            (ground (arith, d)) n)
