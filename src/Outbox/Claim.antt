-- ===== src/Outbox/Claim.antt =====
-- The claim of deliverOutboxItem: one worker takes the item under a lease.
use agent_gateway_control.Prelude.{
  ℕ, ◌+◌, String, str_eq, Bool, true, ◌&&◌, ◌||◌, Option, none, some, List, leb, ltb,
}
use agent_gateway_control.Prelude.Table.{update_where, returning, first_row}
use agent_gateway_control.Outbox.Rows.{OutboxRow, sending, is_pending, is_sending}

-- `or(isNull(lockedUntil), lt(lockedUntil, now))`
abbrev pub lease_expired : Option ℕ → ℕ → Bool
lease_expired none now = true
lease_expired (some until) now = ltb until now

module _ {J : Type 0} where
  -- A pending item whose backoff has passed, or one whose lease ran out with attempts left.
  unfoldable pub claimable : ℕ → OutboxRow J → Bool
  claimable now r =
      (is_pending r.status && leb r.next_attempt_at now)
      || (is_sending r.status && lease_expired r.locked_until now && ltb r.attempts r.max_attempts)

  unfoldable pub claim_row : ℕ → OutboxRow J → OutboxRow J
  claim_row lease r = record r {
    status = sending;
    attempts = r.attempts + 1;
    locked_until = some lease;
  }

  -- The table after the claim, and the claimed row.
  unfoldable pub claim :
      ℕ → ℕ → String → List (OutboxRow J) → List (OutboxRow J) × Option (OutboxRow J)
  unfolding claimable claim_row
  claim now lease id rows =
      let test = λ (r : OutboxRow J). str_eq r.id id && claimable now r in
      (update_where test (claim_row lease) rows, first_row (returning test (claim_row lease) rows))
