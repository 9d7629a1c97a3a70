-- ===== src/Outbox/Recovery.antt =====
-- What a reconciliation does for one item of the table.
use agent_gateway_control.Prelude.{
  ℕ, ◌≤◌, ◌-◌, ◌*◌, ◌<◌, String, str_eq, eq_iff, ◌≡◌, refl, ap, ◌∙◌, Bool, true, false, some, List,
  [], ◌∷◌, map, filter, includes, length, take_all, arith, if◌then◌else◌, Bool-cases, inl, inr,
}
use agent_gateway_control.Prelude.Table.{update_where, find_row, touched, find_row-update_where}
use agent_gateway_control.Outbox.Rows.{OutboxRow, Db, sending, is_pending}
use agent_gateway_control.Outbox.Reconcile.{
  lease_before, poisoned, poison_row, due, requeued, set_due, reconcile_outbox,
}
use agent_gateway_control.Outbox.Handlers.{row_of}

module _ {J : Type 0} where
  includes-filter :
      (test : OutboxRow J → Bool) (id : String) (rows : List (OutboxRow J)) {r : OutboxRow J}
      → find_row (λ r. r.id) id rows ≡ some r
      → test r ≡ true
      → includes (map (λ r. r.id) (filter test rows)) id ≡ true
  includes-filter test id [] f t = ground arith
  includes-filter test id (s ∷ rows) {r} f t = elim (Bool-cases (str_eq s.id id)) [
    | inl e ↦ ground (arith, eq_iff s.id id)
    | inr e ↦ ground (arith, includes-filter test id rows {r = r})
  ]

  -- The rows as a reconciliation leaves the used-up ones.
  abbrev pub buried : ℕ → Db J → List (OutboxRow J)
  buried now db = update_where (poisoned now) (poison_row now) db.outbox

  not_requeued :
      (ids : List String) (now : ℕ) (b : OutboxRow J)
      → is_pending b.status ≡ false
      → touched (λ x. x.id) (requeued ids) (set_due now) (some b) ≡ some b
  unfolding requeued
  not_requeued ids now b p = ground arith

  -- Burying and requeueing keep a row that is not pending.
  row_reconciled :
      (stale_seconds now : ℕ) (id : String) (db : Db J) {r b : OutboxRow J}
      → row_of id db ≡ some r
      → (if poisoned now r then poison_row now r else r) ≡ b
      → is_pending b.status ≡ false
      → (find_row (λ x. x.id) id (buried now db) ≡ some b)
        × (row_of id (reconcile_outbox stale_seconds now db).0 ≡ some b)
  unfolding reconcile_outbox poison_row
  row_reconciled stale_seconds now id db {r} {b} f e p =
      let key = λ (x : OutboxRow J). x.id in
      let ids = (reconcile_outbox stale_seconds now db).1 in
      let first : find_row key id (buried now db) ≡ some b =
        find_row-update_where key id (poisoned now) (poison_row now) db.outbox (λ x. refl)
        ∙ ap (touched key (poisoned now) (poison_row now)) f
        ∙ ap some e in
      (
        first,
        find_row-update_where key id (requeued ids) (set_due now) (buried now db) (λ x. refl)
            ∙ ap (touched key (requeued ids) (set_due now)) first
            ∙ not_requeued ids now b p,
      )

  -- An item that was being sent when its lease ran out: with its attempts used up it is dead, whatever else
  -- is due; with attempts left its row is as before, and, if no more than 500 items are due, a job for
  -- it is sent.
  pub reconcile_expired :
      (stale_seconds now : ℕ) (id : String) (db : Db J) {r : OutboxRow J}
      → row_of id db ≡ some r
      → r.status ≡ sending
      → lease_before r.locked_until now ≡ true
      → let (db', jobs) = reconcile_outbox stale_seconds now db in
        (r.max_attempts ≤ r.attempts → row_of id db' ≡ some (poison_row now r))
        × (r.attempts < r.max_attempts
            → (row_of id db' ≡ some r)
              × (length (filter (due now (now - stale_seconds * 1000)) (buried now db)) ≤ 500
                  → includes jobs id ≡ true))
  reconcile_expired stale_seconds now id db {r} f s l = (
    λ h.
        (row_reconciled stale_seconds now id db {b = poison_row now r} f
          (unfold poisoned in ground arith) (unfold poison_row in refl)).1,
    λ h.
        let both =
          row_reconciled stale_seconds now id db {b = r} f (unfold poisoned in ground arith)
            (ground arith) in
        (
          both.1,
          λ n.
              unfold reconcile_outbox in
              rw (take_all 500 (filter (due now (now - stale_seconds * 1000)) (buried now db)) n) (
                includes-filter (due now (now - stale_seconds * 1000)) id (buried now db) both.0
                  (unfold due in ground arith)),
        ),
  )
