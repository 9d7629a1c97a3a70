-- ===== src/Outbox/Tests.antt =====
-- The outbox on a small table.
use agent_gateway_control.Prelude.{
  length, filter, ℕ, ◌*◌, min, ◌≤◌, ◌<◌, String, ◌≡◌, refl, true, false, Option, some, none, [],
  ◌∷◌, arith, includes,
}
use agent_gateway_control.Outbox.Rows.{
  OutboxKind, mattermost_post, OutboxRow, OutboxStatus, Db, pending, sending,
}
use agent_gateway_control.Outbox.Outcomes.{OutboxItem, Delivery, delivered, other_error}
use agent_gateway_control.Outbox.Claim.{claimable, claim_row}
use agent_gateway_control.Outbox.Deliver.{owned, sent_row, deliver_outbox_item, perform}
use agent_gateway_control.Outbox.Reconcile.{due, poisoned, poison_row, reconcile_outbox}
use agent_gateway_control.Outbox.Backoff.{retry_delay_seconds, retry_delay_lem}
use agent_gateway_control.Outbox.Handlers.{row_of, deliver_row, deliver_outbox_item-deliver_row}
use agent_gateway_control.Outbox.Exhaustion.{deliveries, exhausts}
use agent_gateway_control.Outbox.Recovery.{buried, reconcile_expired}
use agent_gateway_control.Outbox.Retention.{expired_sent, erased_sent}
use agent_gateway_control.Outbox.Fencing.System.{
  System, claims, erases_sent, succeeds, Reach, here, after,
}
use agent_gateway_control.Outbox.Fencing.{
  Inv, Reach-Inv, one_owner, sent_is_final, IsKept, overtaken_never_settles,
}

abbrev post : OutboxRow ℕ
post = record {
  id = "o1";
  kind = mattermost_post;
  destination = "channel/general";
  payload = 7;
  idempotency_key = "run:1:post:0";
  status = pending;
  attempts = 0;
  max_attempts = 2;
  next_attempt_at = 1000;
  locked_until = none;
  last_error = none;
  receipt = none;
  run_id = none;
  created_at = 1000;
  sent_at = none;
  content_expired = false;
}

abbrev other : OutboxRow ℕ
other = record post { id = "o2" }

abbrev db : Db ℕ
db = record { outbox = post ∷ other ∷ []; audit_log = [] }

abbrev echo : OutboxKind → Option (OutboxItem ℕ → Delivery ℕ)
echo kind = some (λ item. delivered item.payload)

abbrev broken : OutboxKind → Option (OutboxItem ℕ → Delivery ℕ)
broken kind = some (λ item. other_error "unreachable")

abbrev as_is : String → String
as_is text = text

deliver_outbox_item-deliver_row_example :
    let run = deliver_outbox_item echo as_is 60 2000 2500 "o2" db in
    let alone = deliver_row echo as_is 60 2000 2500 other in
    (row_of "o2" run.0 ≡ some alone.0) × (run.1 ≡ alone.1)
deliver_outbox_item-deliver_row_example =
    deliver_outbox_item-deliver_row echo as_is 60 2000 2500 "o2" other db ((refl, tt), (tt, tt))
      refl

retry_delay_lem_example :
    (retry_delay_seconds 1 ≡ 5)
    × (retry_delay_seconds 7 ≡ min 300 (2 * retry_delay_seconds 6))
    × (5 ≤ retry_delay_seconds 5)
    × (retry_delay_seconds 5 ≤ 300)
retry_delay_lem_example = retry_delay_lem 5

exhausts_example :
    ((deliveries broken as_is 60 1 post).status ≡ pending)
    × ((deliveries broken as_is 60 2 post).status ≡ OutboxStatus.dead)
    × ((deliveries broken as_is 60 2 post).attempts ≡ 2)
exhausts_example = exhausts broken as_is 60 1 post (unfold perform in λ c. tt) refl refl

abbrev held : OutboxRow ℕ
held = record post { status = sending; attempts = 1; locked_until = some 3000 }

abbrev abandoned : Db ℕ
abandoned = record db { outbox = other ∷ held ∷ [] }

reconcile_expired_example :
    let (db', jobs) = reconcile_outbox 60 90000 abandoned in
    (2 ≤ 1 → row_of "o1" db' ≡ some (poison_row 90000 held))
    × (1 < 2
        → (row_of "o1" db' ≡ some held)
          × (length (filter (due 90000 30000) (buried 90000 abandoned)) ≤ 500
              → includes jobs "o1" ≡ true))
reconcile_expired_example = reconcile_expired 60 90000 "o1" abandoned refl refl refl

-- Two items are due.
two_due : length (filter (due 90000 30000) (buried 90000 abandoned)) ≡ 2
unfolding due poisoned
two_due = refl

abbrev quiet : System ℕ
quiet = record { row = post; flights = [] }

quiet-Inv : Inv quiet
quiet-Inv = record { valid = ground arith; flights_older = tt; flights_distinct = tt }

-- Two workers: the second claims after the first one's lease ran out.
abbrev taken : OutboxRow ℕ
taken = record post { status = sending; attempts = 1; locked_until = some 62000 }

abbrev retaken : OutboxRow ℕ
retaken = record post { status = sending; attempts = 2; locked_until = some 130000 }

abbrev contended : System ℕ
contended = record { row = retaken; flights = retaken ∷ taken ∷ [] }

quiet-contended : Reach quiet contended
unfolding claimable claim_row
quiet-contended = after (after here (claims 2000 62000 refl)) (claims 70000 130000 refl)

Reach-Inv_example : Inv contended
Reach-Inv_example = Reach-Inv quiet-Inv quiet-contended

one_owner_example : ◌≡◌ {A = ℕ} 0 0
unfolding owned
one_owner_example = one_owner 0 0 quiet-Inv quiet-contended refl refl refl refl

overtaken_never_settles_example : owned taken contended.row ≡ false
overtaken_never_settles_example = overtaken_never_settles {s = contended} taken (omega arith) here

abbrev finished : System ℕ
finished = record { row = sent_row 71000 7 retaken; flights = taken ∷ [] }

late_success : Reach finished (record { row = erased_sent 0 finished.row; flights = [] })
unfolding owned sent_row expired_sent
late_success = after (after here (succeeds 0 72000 8 taken refl)) (erases_sent 900000 0 refl)

sent_is_final_example : IsKept (sent_row 71000 7 retaken) (erased_sent 0 (sent_row 71000 7 retaken))
unfolding sent_row
sent_is_final_example = sent_is_final {s = finished} refl late_success
