-- ===== src/Outbox/Exhaustion.antt =====
-- An item whose every delivery fails retryably, claimed each time its backoff has passed.
use agent_gateway_control.Prelude.{
  ℕ, zero, suc, ◌+◌, ◌*◌, ◌<◌, ◌≤◌, String, ◌≡◌, true, Option, arith,
}
use agent_gateway_control.Outbox.Rows.{OutboxKind, OutboxRow, pending, dead}
use agent_gateway_control.Outbox.Outcomes.{
  OutboxItem, Delivery, delivered, delivery_error, other_error,
}
use agent_gateway_control.Outbox.Claim.{claimable, claim_row}
use agent_gateway_control.Outbox.Deliver.{failed_row, perform}
use agent_gateway_control.Outbox.Handlers.{deliver_row, settle_row}

module _ {J : Type 0} where
  abbrev pub IsRetryable : Delivery J → Type 0
  IsRetryable (delivered receipt) = ⊥
  IsRetryable (delivery_error message retryable) = retryable ≡ true
  IsRetryable (other_error message) = Unit

  module _ (deliverer : OutboxKind → Option (OutboxItem J → Delivery J))
      (redact : String → String) where
    -- One delivery after another, each at the moment the item is due.
    unfoldable pub deliveries : ℕ → ℕ → OutboxRow J → OutboxRow J
    deliveries lease_seconds zero r = r
    deliveries lease_seconds (suc n) r =
        deliveries lease_seconds n
          (deliver_row deliverer redact lease_seconds r.next_attempt_at r.next_attempt_at r).0

    settle_row_retryable :
        (now : ℕ) (d : Delivery J) (c : OutboxRow J)
        → IsRetryable d
        → let r = (settle_row deliverer redact now d c).0 in
          (c.attempts < c.max_attempts → r.status ≡ pending)
          × (c.max_attempts ≤ c.attempts → r.status ≡ dead)
          × (r.attempts ≡ c.attempts)
          × (r.max_attempts ≡ c.max_attempts)
    unfolding failed_row
    settle_row_retryable now (delivery_error message retryable) c h =
        (λ p. ground arith, λ p. ground arith, ground arith, ground arith)
    settle_row_retryable now (other_error message) c h =
        (λ p. ground arith, λ p. ground arith, ground arith, ground arith)
    settle_row_retryable now (delivered x) c h = absurd h

    claimable_due : (r : OutboxRow J) → r.status ≡ pending → claimable r.next_attempt_at r ≡ true
    unfolding claimable
    claimable_due r p = ground arith

    one_delivery :
        (lease_seconds now : ℕ) (r : OutboxRow J)
        → ((c : OutboxRow J) → IsRetryable (perform deliverer redact c))
        → r.status ≡ pending
        → let after = (deliver_row deliverer redact lease_seconds r.next_attempt_at now r).0 in
          (r.attempts + 1 < r.max_attempts → after.status ≡ pending)
          × (r.max_attempts ≤ r.attempts + 1 → after.status ≡ dead)
          × (after.attempts ≡ r.attempts + 1)
          × (after.max_attempts ≡ r.max_attempts)
    one_delivery lease_seconds now r f p =
        let c = claim_row (r.next_attempt_at + lease_seconds * 1000) r in
        rw (claimable_due r p)
          (unfold claim_row in settle_row_retryable now (perform deliverer redact c) c (f c))

    -- If every delivery fails retryably, a pending item with k + 1 attempts left is still pending
    -- after k deliveries and dead after k + 1, its attempts used up exactly.
    pub exhausts :
        (lease_seconds k : ℕ) (r : OutboxRow J)
        → ((c : OutboxRow J) → IsRetryable (perform deliverer redact c))
        → r.status ≡ pending
        → r.max_attempts ≡ r.attempts + suc k
        → ((deliveries lease_seconds k r).status ≡ pending)
          × ((deliveries lease_seconds (suc k) r).status ≡ dead)
          × ((deliveries lease_seconds (suc k) r).attempts ≡ r.max_attempts)
    unfolding deliveries
    exhausts lease_seconds zero r f p e =
        let (_, gone, used, _) = one_delivery lease_seconds r.next_attempt_at r f p in
        (p, gone (omega arith), omega arith)
    exhausts lease_seconds (suc k) r f p e =
        let (still, _, used, same) = one_delivery lease_seconds r.next_attempt_at r f p in
        let next =
          (deliver_row deliverer redact lease_seconds r.next_attempt_at r.next_attempt_at r).0 in
        let (a, b, c) = exhausts lease_seconds k next f (still (omega arith)) (omega arith) in
        (a, b, omega (arith, c, same))
