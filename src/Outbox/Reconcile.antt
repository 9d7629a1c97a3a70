-- ===== src/Outbox/Reconcile.antt =====
-- reconcileOutbox of packages/outbox/src/deliver.ts, and the other statements that write the table:
-- enqueueOutbox (packages/core/src/services/store.ts), redriveOutbox (admin.ts) and the cancellation
-- of a retired agent's deliveries (agent-lifecycle.ts).
use agent_gateway_control.Prelude.{
  ℕ, ◌+◌, ◌-◌, ◌*◌, String, str_eq, Bool, false, ◌&&◌, ◌||◌, not, Option, none, some, List, [], ◌∷◌,
  ◌++◌, leb, ltb, map, filter, includes, take, any, Result, ok, err, is_some, if◌then◌else◌,
}
use agent_gateway_control.Prelude.Table.{update_where, returning, first_row}
use agent_gateway_control.Outbox.Rows.{
  OutboxKind, OutboxRow, DeadAudit, Db, pending, dead, cancelled, is_pending, is_sending, is_dead,
}

-- `lt(lockedUntil, now)`: false on null
abbrev pub lease_before : Option ℕ → ℕ → Bool
lease_before none now = false
lease_before (some until) now = ltb until now

-- what the queue is sent: `{ outboxId }` on `QUEUES.outboxDeliver`
abbrev pub Jobs : Type 0
Jobs = List String

abbrev outbox_redrive_attempts : ℕ
outbox_redrive_attempts = 8

-- `run_id in (…)`: false on null
abbrev pub of_runs : List String → Option String → Bool
of_runs runs none = false
of_runs runs (some run) = includes runs run

pub record OutboxDraft (J : Type 0) : Type 0 where
  pub kind : OutboxKind
  pub destination : String
  pub payload : J
  pub idempotency_key : String
  pub run_id : Option String
  pub max_attempts : Option ℕ

module _ {J : Type 0} where
  unfoldable pub poisoned : ℕ → OutboxRow J → Bool
  poisoned now r =
      is_sending r.status && lease_before r.locked_until now && leb r.max_attempts r.attempts

  unfoldable pub poison_row : ℕ → OutboxRow J → OutboxRow J
  poison_row now r = record r {
    status = dead;
    locked_until = none;
    next_attempt_at = now;
    last_error = some "lease expired on the last attempt";
  }

  poison_audit : ℕ → OutboxRow J → DeadAudit
  poison_audit now r = record {
    at = now;
    subject_id = r.id;
    attempts = r.attempts;
    error = "lease expired";
  }

  unfoldable pub due : ℕ → ℕ → OutboxRow J → Bool
  due now stale r =
      (is_pending r.status && ltb r.next_attempt_at stale)
      || (is_sending r.status && lease_before r.locked_until now)

  unfoldable pub requeued : List String → OutboxRow J → Bool
  requeued ids r = includes ids r.id && is_pending r.status

  abbrev pub set_due : ℕ → OutboxRow J → OutboxRow J
  set_due now r = record r { next_attempt_at = now }

  -- The number of rows is the length of the jobs. `limit(500)` names no order: the model takes the
  -- first rows of the table.
  unfoldable pub reconcile_outbox : ℕ → ℕ → Db J → Db J × Jobs
  unfolding poisoned poison_row poison_audit due requeued
  reconcile_outbox stale_seconds now db =
      let stale = now - stale_seconds * 1000 in
      let dead_rows = returning (poisoned now) (poison_row now) db.outbox in
      let rows = update_where (poisoned now) (poison_row now) db.outbox in
      let ids = map (λ r. r.id) (take 500 (filter (due now stale) rows)) in
      (
        record {
          outbox = update_where (requeued ids) (set_due now) rows;
          audit_log = db.audit_log ++ map (poison_audit now) dead_rows;
        },
        ids,
      )

  unfoldable pub redrivable : String → OutboxRow J → Bool
  redrivable id r = str_eq r.id id && is_dead r.status && not r.content_expired

  -- `attempts` keeps counting: it is the fencing token of claims.
  unfoldable pub redriven_row : ℕ → OutboxRow J → OutboxRow J
  redriven_row now r = record r {
    status = pending;
    max_attempts = r.attempts + outbox_redrive_attempts;
    next_attempt_at = now;
    locked_until = none;
  }

  -- An error is the `AdminError` for an item that is missing, not dead, or expired.
  unfoldable pub redrive_outbox : ℕ → String → Db J → Result String (Db J × Jobs)
  unfolding redrivable redriven_row
  redrive_outbox now id db =
      let set = redriven_row now in
      let changed = is_some (first_row (returning (redrivable id) set db.outbox)) in
      if changed
      then ok (record db { outbox = update_where (redrivable id) set db.outbox }, id ∷ [])
      else err id

  unfoldable pub undelivered_of : List String → OutboxRow J → Bool
  undelivered_of runs r = (is_pending r.status || is_sending r.status) && of_runs runs r.run_id

  -- The lease of a delivery in progress stays as it is.
  unfoldable pub cancelled_row : OutboxRow J → OutboxRow J
  cancelled_row r = record r { status = cancelled; last_error = some "agent_retired" }

  -- The deliveries of the retired agent's runs.
  unfoldable pub cancel_deliveries : List String → Db J → Db J
  unfolding undelivered_of cancelled_row
  cancel_deliveries runs db = record db {
    outbox = update_where (undelivered_of runs) cancelled_row db.outbox;
  }

  -- `onConflictDoNothing` on the idempotency key; `id` is the database's fresh random id.
  unfoldable pub enqueue_outbox : ℕ → String → OutboxDraft J → Db J → Db J × Option String × Jobs
  enqueue_outbox now id draft db =
      let fresh : OutboxRow J = record {
        id = id;
        kind = draft.kind;
        destination = draft.destination;
        payload = draft.payload;
        idempotency_key = draft.idempotency_key;
        status = pending;
        attempts = 0;
        max_attempts = elim draft.max_attempts [ none ↦ 8 | some n ↦ n ];
        next_attempt_at = now;
        locked_until = none;
        last_error = none;
        receipt = none;
        run_id = draft.run_id;
        created_at = now;
        sent_at = none;
        content_expired = false;
      } in
      if any (λ r. str_eq r.idempotency_key draft.idempotency_key) db.outbox
      then (db, none, [])
      else (record db { outbox = db.outbox ++ fresh ∷ [] }, some id, id ∷ [])
