-- ===== src/Outbox/Deliver.antt =====
-- deliverOutboxItem: claim, perform the effect, settle. What the deliverer answers is a parameter.
use agent_gateway_control.Prelude.{
  ℕ, ◌+◌, ◌*◌, String, str_eq, Bool, true, false, ◌&&◌, ◌||◌, not, Option, none, some, [], ◌∷◌,
  ◌++◌, leb, ◌==◌, is_some, if◌then◌else◌,
}
use Prim.Native.String.{◌++◌ as str_append}
use agent_gateway_control.Prelude.Table.{update_where, returning, first_row, find_row}
use agent_gateway_control.Outbox.Rows.{
  OutboxKind, mattermost_post, mattermost_alert, mattermost_approval, mattermost_approval_reply,
  OutboxRow, DeadAudit, Db, pending, sent, dead, is_pending, is_sending,
}
use agent_gateway_control.Outbox.Outcomes.{
  OutboxItem, Delivery, delivered, delivery_error, other_error, DeliveryOutcome, skipped, not_due,
  Settled, resolved, rethrown,
}
use agent_gateway_control.Outbox.Claim.{claim}
use agent_gateway_control.Outbox.Backoff.{retry_delay_seconds}

kind_name : OutboxKind → String
kind_name mattermost_post = "mattermost.post"
kind_name mattermost_alert = "mattermost.alert"
kind_name mattermost_approval = "mattermost.approval"
kind_name mattermost_approval_reply = "mattermost.approval.reply"

module _ {J : Type 0} where
  -- Only the holder of this claim may settle the item.
  unfoldable pub owned : OutboxRow J → OutboxRow J → Bool
  owned claimed r =
      str_eq r.id claimed.id && (is_sending r.status && r.attempts == claimed.attempts)

  unfoldable pub sent_row : ℕ → J → OutboxRow J → OutboxRow J
  sent_row now receipt r = record r {
    status = sent;
    receipt = some receipt;
    sent_at = some now;
    locked_until = none;
    last_error = none;
  }

  unfoldable pub failed_row : ℕ → Bool → String → OutboxRow J → OutboxRow J → OutboxRow J
  failed_row now exhausted message claimed r = record r {
    status = if exhausted then dead else pending;
    locked_until = none;
    last_error = some message;
    next_attempt_at = now + retry_delay_seconds claimed.attempts * 1000;
  }

  unfoldable pub settle_sent : ℕ → J → OutboxRow J → Db J → Db J × Settled
  unfolding owned sent_row
  settle_sent now receipt claimed db =
      let recorded =
        is_some (first_row (returning (owned claimed) (sent_row now receipt) db.outbox)) in
      let rows = update_where (owned claimed) (sent_row now receipt) db.outbox in
      (record db { outbox = rows }, resolved (if recorded then DeliveryOutcome.sent else skipped))

  unfoldable pub settle_failed : ℕ → Bool → String → OutboxRow J → Db J → Db J × Settled
  unfolding owned failed_row
  settle_failed now retryable message claimed db =
      let exhausted = not retryable || leb claimed.max_attempts claimed.attempts in
      let set = failed_row now exhausted message claimed in
      let changed = is_some (first_row (returning (owned claimed) set db.outbox)) in
      let entry : DeadAudit = record {
        at = now;
        subject_id = claimed.id;
        attempts = claimed.attempts;
        error = message;
      } in
      (
        record {
          outbox = update_where (owned claimed) set db.outbox;
          audit_log = if changed && exhausted then db.audit_log ++ entry ∷ [] else db.audit_log;
        },
        if changed
            then if exhausted then resolved DeliveryOutcome.dead else rethrown
            else resolved skipped,
      )

  item_of : OutboxRow J → OutboxItem J
  item_of claimed = record {
    id = claimed.id;
    kind = claimed.kind;
    destination = claimed.destination;
    payload = claimed.payload;
    idempotency_key = claimed.idempotency_key;
    attempt = claimed.attempts;
    created_at = claimed.created_at;
  }

  -- `row?.status === "pending"`
  abbrev pub found_pending : Option (OutboxRow J) → Bool
  found_pending none = false
  found_pending (some r) = is_pending r.status

  module _ (deliverer : OutboxKind → Option (OutboxItem J → Delivery J))
      (redact : String → String) where
    -- The effect: `no deliverer` is a permanent failure.
    unfoldable pub perform : OutboxRow J → Delivery J
    unfolding item_of kind_name
    perform claimed = elim (deliverer claimed.kind) [
      | none ↦
          delivery_error (str_append "no deliverer for '" (str_append (kind_name claimed.kind) "'"))
            false
      | some deliver ↦ deliver (item_of claimed)
    ]

    -- The two clock readings are the claim's and the settlement's.
    unfoldable pub settle : ℕ → Delivery J → OutboxRow J → Db J → Db J × Settled
    unfolding settle_sent settle_failed
    settle now (delivered receipt) claimed db = settle_sent now receipt claimed db
    settle now (delivery_error message retryable) claimed db =
        settle_failed now retryable (redact message) claimed db
    settle now (other_error message) claimed db = settle_failed now true (redact message) claimed db

    unfoldable pub deliver_outbox_item : ℕ → ℕ → ℕ → String → Db J → Db J × Settled
    unfolding perform settle
    deliver_outbox_item lease_seconds claim_time settle_time id db =
        let (rows, claimed) = claim claim_time (claim_time + lease_seconds * 1000) id db.outbox in
        let db' : Db J = record db { outbox = rows } in
        elim claimed [
          | none ↦ (
            db',
            resolved (if found_pending (find_row (λ r. r.id) id rows) then not_due else skipped),
          )
          | some row ↦ settle settle_time (perform row) row db'
        ]
