-- ===== src/Outbox/Fencing/Owners.antt =====
-- The claims on an item that may settle it, and an item that is sent.
use agent_gateway_control.Prelude.{
  ℕ, zero, suc, ◌≤◌, ◌<◌, ◌≡◌, refl, true, false, ◌⊎◌, inl, inr, List, [], ◌∷◌, All-get_elem?,
  get_elem?, some, ap, ◌∙◌, arith,
}
use agent_gateway_control.Outbox.Rows.{OutboxRow, sent}
use agent_gateway_control.Outbox.Claim.{claimable, claim_row}
use agent_gateway_control.Outbox.Deliver.{owned, sent_row, failed_row}
use agent_gateway_control.Outbox.Reconcile.{poisoned, poison_row, redriven_row, cancelled_row}
use agent_gateway_control.Outbox.Retention.{expired_dead, erased_sent, erased_dead}
use agent_gateway_control.Outbox.Fencing.System.{
  System, Step, claims, succeeds, fails, crashes, poisons, requeues, redrives, retires, erases_sent,
  erases_dead, Reach, here, after,
}
use agent_gateway_control.Outbox.Fencing.Invariant.{AreDistinct, Inv, Reach-Inv}

module _ {J : Type 0} where
  same_place :
      (cs : List (OutboxRow J)) (i j : ℕ) {c d : OutboxRow J}
      → AreDistinct cs
      → get_elem? cs i ≡ some c
      → get_elem? cs j ≡ some d
      → c.attempts ≡ d.attempts
      → i ≡ j
  same_place [] i j h e f g = absurd (ground arith)
  same_place (x ∷ cs) zero zero h e f g = refl
  same_place (x ∷ cs) zero (suc j) {c} {d} h e f g =
      absurd (ground (arith, All-get_elem? (λ y. y.attempts < x.attempts) cs j h.0 f))
  same_place (x ∷ cs) (suc i) zero {c} {d} h e f g =
      absurd (ground (arith, All-get_elem? (λ y. y.attempts < x.attempts) cs i h.0 e))
  same_place (x ∷ cs) (suc i) (suc j) h e f g = ground (arith, same_place cs i j h.1 e f g)

  -- At every reachable moment at most one claim may settle the item.
  pub one_owner :
      {s t : System J} (i j : ℕ) {c d : OutboxRow J}
      → Inv s
      → Reach s t
      → get_elem? t.flights i ≡ some c
      → get_elem? t.flights j ≡ some d
      → owned c t.row ≡ true
      → owned d t.row ≡ true
      → i ≡ j
  unfolding owned
  one_owner {t = t} i j v r e f p q =
      same_place t.flights i j (Reach-Inv v r).flights_distinct e f (ground arith)

  -- The row is as it was, or as it was with its contents erased.
  abbrev pub IsKept : OutboxRow J → OutboxRow J → Type 0
  IsKept r r' = (r' ≡ r) ⊎ ((empty : J) × (r' ≡ erased_sent empty r))

  Step-sent : {s t : System J} → Step s t → s.row.status ≡ sent → IsKept s.row t.row
  unfolding claimable owned poisoned expired_dead
  Step-sent (claims now lease e) h = absurd (ground arith)
  Step-sent (succeeds i now receipt c e) h = inl (ground arith)
  Step-sent (fails i now retryable message c e) h = inl (ground arith)
  Step-sent (crashes i) h = inl refl
  Step-sent (poisons now e) h = absurd (ground arith)
  Step-sent (requeues now e) h = absurd (ground arith)
  Step-sent (redrives now e) h = absurd (ground arith)
  Step-sent (retires e) h = absurd (ground arith)
  Step-sent (erases_sent cutoff empty e) h = inr (empty, refl)
  Step-sent (erases_dead cutoff empty e) h = absurd (ground arith)

  IsKept-trans : {q r r' : OutboxRow J} → IsKept q r → IsKept r r' → IsKept q r'
  unfolding erased_sent
  IsKept-trans (inl e) (inl f) = inl (f ∙ e)
  IsKept-trans (inl e) (inr (empty, f)) = inr (empty, f ∙ ap (erased_sent empty) e)
  IsKept-trans (inr (empty, e)) (inl f) = inr (empty, f ∙ e)
  IsKept-trans (inr (empty, e)) (inr (again, f)) = inr (again, f ∙ ap (erased_sent again) e)

  IsKept-status : {r r' : OutboxRow J} → IsKept r r' → r.status ≡ sent → r'.status ≡ sent
  unfolding erased_sent
  IsKept-status (inl e) h = ap (λ x. x.status) e ∙ h
  IsKept-status (inr (empty, e)) h = ap (λ x. x.status) e ∙ h

  -- Once an item is sent its row stays as it is, the receipt and the attempts included, whatever workers,
  -- reconciliation, redrives and the retirement of its agent do: only the retention sweep may still
  -- erase its payload and its last error, and mark them erased.
  pub sent_is_final : {s t : System J} → s.row.status ≡ sent → Reach s t → IsKept s.row t.row
  sent_is_final h here = inl refl
  sent_is_final {s} h (after {t = t} r st) =
      let kept = sent_is_final h r in IsKept-trans kept (Step-sent st (IsKept-status kept h))

  attempts-Step : {s t : System J} → Step s t → s.row.attempts ≤ t.row.attempts
  unfolding claim_row sent_row failed_row poison_row redriven_row cancelled_row
  attempts-Step (claims now lease e) = omega arith
  attempts-Step (succeeds i now receipt c e) = ground arith
  attempts-Step {s} (fails i now retryable message c e) = ground arith
  attempts-Step (crashes i) = omega arith
  attempts-Step (poisons now e) = omega arith
  attempts-Step (requeues now e) = omega arith
  attempts-Step (redrives now e) = omega arith
  attempts-Step (retires e) = omega arith
  attempts-Step (erases_sent cutoff empty e) = unfold erased_sent in omega arith
  attempts-Step (erases_dead cutoff empty e) = unfold erased_dead in omega arith

  attempts-Reach : {s t : System J} → Reach s t → s.row.attempts ≤ t.row.attempts
  attempts-Reach here = omega arith
  attempts-Reach (after r st) = omega (arith, attempts-Step st, attempts-Reach r)

  -- The attempts are a fencing token: a claim that a newer one has overtaken can never settle the
  -- item again, whatever happens later, redrives included.
  pub overtaken_never_settles :
      {s t : System J} (c : OutboxRow J)
      → c.attempts < s.row.attempts
      → Reach s t
      → owned c t.row ≡ false
  unfolding owned
  overtaken_never_settles c h r = ground (arith, attempts-Reach r)
