-- ===== src/Outbox/Retention.antt =====
-- The retention sweep of packages/core/src/services/retention.ts on the outbox: the steps outbox_sent
-- and outbox_dead erase the contents of one old row. `empty` is the JSON value `{}`, `cutoff` the moment
-- that the period of the organization's retention policy reaches back to.
use agent_gateway_control.Prelude.{
  ℕ, Bool, true, false, ◌&&◌, ◌||◌, not, Option, none, some, ltb, max,
}
use agent_gateway_control.Outbox.Rows.{OutboxStatus, OutboxRow, is_dead}

abbrev pub is_sent_item : OutboxStatus → Bool
is_sent_item OutboxStatus.sent = true
is_sent_item _ = false

abbrev pub is_cancelled_item : OutboxStatus → Bool
is_cancelled_item OutboxStatus.cancelled = true
is_cancelled_item _ = false

-- `coalesce(locked_until, created_at)`
abbrev pub locked_or : ℕ → Option ℕ → ℕ
locked_or created_at none = created_at
locked_or created_at (some until) = until

module _ {J : Type 0} where
  unfoldable pub expired_sent : ℕ → OutboxRow J → Bool
  expired_sent cutoff r =
      not r.content_expired && (is_sent_item r.status && ltb r.created_at cutoff)

  unfoldable pub erased_sent : J → OutboxRow J → OutboxRow J
  erased_sent empty r = record r { content_expired = true; payload = empty; last_error = none }

  unfoldable pub expired_dead : ℕ → OutboxRow J → Bool
  expired_dead cutoff r =
      not r.content_expired
      && ((is_dead r.status || is_cancelled_item r.status)
          && ltb (max (max r.created_at r.next_attempt_at) (locked_or r.created_at r.locked_until))
              cutoff)

  unfoldable pub erased_dead : J → OutboxRow J → OutboxRow J
  erased_dead empty r = record r { content_expired = true; payload = empty }
