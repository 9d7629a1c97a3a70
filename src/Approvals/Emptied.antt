-- ===== src/Approvals/Emptied.antt =====
-- The loop of a sweep (sweepApprovals of packages/core/src/services/approvals.ts) over all approvals.
use agent_gateway_control.Prelude.{
  ℕ, zero, suc, ◌≤◌, String, Bool, true, false, ◌&&◌, not, Option, none, some, List, [], ◌∷◌, ◌≡◌,
  refl, inl, inr, Bool-cases, is_some, arith, count_if,
}
use agent_gateway_control.Approvals.Requests.{ApprovalStatus}
use agent_gateway_control.Approvals.Actions.{ToolActionRow}
use agent_gateway_control.Approvals.Case.{Case}
use agent_gateway_control.Approvals.Sweep.{
  is_action_due, has_ended, is_due, sweep_candidate, sweep_up_to, sweep_candidates, sweep_limit,
}
use agent_gateway_control.Approvals.Ended.{sweep_one-IsResolved}

module _ {R : Type 0} where
  -- What is due stays due.
  is_action_due-later :
      (now later : ℕ) (o : Option (ToolActionRow R))
      → now ≤ later
      → is_action_due now o ≡ true
      → is_action_due later o ≡ true
  is_action_due-later now later none le d = absurd (ground (arith, d))
  is_action_due-later now later (some a) le d = ground (arith, d, le)

  has_ended-later :
      (now later : ℕ) (s : ApprovalStatus) (expires_at : ℕ) (o : Option (ToolActionRow R))
      → now ≤ later
      → has_ended now s expires_at o ≡ true
      → has_ended later s expires_at o ≡ true
  has_ended-later now later ApprovalStatus.denied expires_at o le d = refl
  has_ended-later now later ApprovalStatus.expired expires_at o le d = refl
  has_ended-later now later ApprovalStatus.cancelled expires_at o le d = refl
  has_ended-later now later ApprovalStatus.pending expires_at o le d = ground (arith, d, le)
  has_ended-later now later ApprovalStatus.granted expires_at o le d =
      is_action_due-later now later o le d

  is_due-later :
      (now later : ℕ) (c : Case R) → now ≤ later → is_due now c ≡ true → is_due later c ≡ true
  unfolding is_due
  is_due-later now later c le d =
      let ended =
        has_ended-later now later c.approval.status c.approval.expires_at c.action le
          (ground (arith, d)) in
      ground (arith, d, ended)

  module _ (now : ℕ) (clock : String → ℕ) (throws : String → Bool) where
    -- The approval is swept: due, and its transaction goes through.
    abbrev pub is_swept : Case R → Bool
    is_swept c = is_due now c && not (throws c.approval.id)

    -- An approval that is swept is resolved, and any other approval stays as it is.
    abbrev pub IsSettled : Case R → Case R → Type 0
    IsSettled c c' =
        (is_swept c ≡ true → is_some c'.approval.resolved_at ≡ true) × (is_swept c ≡ false → c' ≡ c)

    abbrev pub AreSettled : List (Case R) → List (Case R) → Type 0
    AreSettled [] [] = Unit
    AreSettled (c ∷ cs) (c' ∷ cs') = IsSettled c c' × AreSettled cs cs'
    AreSettled _ _ = ⊥

    not_due-IsSettled : (c : Case R) → is_due now c ≡ false → IsSettled c c
    not_due-IsSettled c d = (λ s. absurd (ground (arith, s, d)), λ _. refl)

    none_due :
        (cs : List (Case R))
        → count_if (is_due now) cs ≤ 0
        → AreSettled cs cs × (count_if is_swept cs ≡ 0)
    none_due [] h = (tt, refl)
    none_due (c ∷ cs) h = elim (Bool-cases (is_due now c)) [
      | inl d ↦ absurd (let bad = rw d at h in omega (arith, bad))
      | inr d ↦ let rest = none_due cs (rw d at h) in ((not_due-IsSettled c d, rest.0), rw d rest.1)
    ]

    candidate-IsSettled :
        (c : Case R)
        → ((id : String) → now ≤ clock id)
        → is_due now c ≡ true
        → IsSettled c ((sweep_candidate clock throws c).0)
          × ((sweep_candidate clock throws c).1 ≡ is_swept c)
    unfolding sweep_candidate
    candidate-IsSettled c later d = elim (Bool-cases (throws c.approval.id)) [
      | inl t ↦ rw (t, d) ((λ s. absurd (ground (arith, s)), λ _. refl), refl)
      | inr t ↦
          let at = is_due-later now (clock c.approval.id) c (later c.approval.id) d in
          let told = sweep_one-IsResolved (clock c.approval.id) c at in
          rw (t, d) ((λ _. told.0, λ s. absurd (ground (arith, s))), told.1)
    ]

    sweep_up_to_lem :
        (limit : ℕ) (cs : List (Case R))
        → ((id : String) → now ≤ clock id)
        → count_if (is_due now) cs ≤ limit
        → AreSettled cs ((sweep_up_to limit now clock throws cs).0)
          × ((sweep_up_to limit now clock throws cs).1 ≡ count_if is_swept cs)
    sweep_up_to_lem zero cs later h = let idle = none_due cs h in (idle.0, ground (arith, idle.1))
    sweep_up_to_lem (suc limit) [] later h = (tt, refl)
    sweep_up_to_lem (suc limit) (c ∷ cs) later h = elim (Bool-cases (is_due now c)) [
      | inl d ↦
          let rest = sweep_up_to_lem limit cs later (let k = rw d at h in omega (arith, k)) in
          let one = candidate-IsSettled c later d in
          let handled = rw d at one.1 in (rw d (one.0, rest.0), rw d (rw (handled, rest.1) refl))
      | inr d ↦
          let rest = sweep_up_to_lem (suc limit) cs later (rw d at h) in
          rw d ((not_due-IsSettled c d, rest.0), ground (arith, rest.1))
    ]

    -- When at most a hundred approvals are due at the sweep (they ended or are overdue, and are not
    -- resolved), and no transaction reads an earlier time than the sweep did: every due approval whose
    -- transaction does not throw is resolved, every other approval stays as it is, and the loop counts
    -- the approvals that it resolved.
    pub sweep_candidates-all_resolved :
        (cs : List (Case R))
        → ((id : String) → now ≤ clock id)
        → count_if (is_due now) cs ≤ 100
        → AreSettled cs ((sweep_candidates now clock throws cs).0)
          × ((sweep_candidates now clock throws cs).1 ≡ count_if is_swept cs)
    unfolding sweep_candidates
    sweep_candidates-all_resolved cs later h = sweep_up_to_lem sweep_limit cs later h
