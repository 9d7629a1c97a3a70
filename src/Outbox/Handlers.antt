-- ===== src/Outbox/Handlers.antt =====
-- The delivery of one item, seen as what happens to that item's row alone.
use text.Mathlib.TextPositions.{eq_refl}
use agent_gateway_control.Prelude.{
  ℕ, ◌+◌, ◌*◌, String, str_eq, eq_iff, ◌≡◌, refl, ap, sym, ◌∙◌, Bool, true, false, ◌&&◌, ◌||◌, not,
  Option, none, some, leb, ◌==◌, inl, inr, Bool-cases, arith, is_some, if◌then◌else◌,
}
use mathlib.Core.Path.{subst}
use agent_gateway_control.Prelude.Table.{
  returning, first_row, find_row, touched, given_back, HasUniqueKeys, find_row-update_where,
  first_row-returning, HasUniqueKeys-update_where, find_row-key,
}
use agent_gateway_control.Outbox.Rows.{OutboxKind, OutboxRow, Db, is_pending, is_sending}
use agent_gateway_control.Outbox.Outcomes.{
  OutboxItem, Delivery, delivered, delivery_error, other_error, sent, skipped, not_due, dead,
  Settled, resolved, rethrown,
}
use agent_gateway_control.Outbox.Claim.{claimable, claim_row, claim}
use agent_gateway_control.Outbox.Deliver.{
  owned, sent_row, failed_row, settle_sent, settle_failed, perform, settle, deliver_outbox_item,
}

module _ {J : Type 0} where
  abbrev pub row_of : String → Db J → Option (OutboxRow J)
  row_of id db = find_row (λ r. r.id) id db.outbox

  abbrev pub IsKeyed : Db J → Type 0
  IsKeyed db = HasUniqueKeys (λ r. r.id) db.outbox

  -- A failure that no retry follows.
  abbrev pub is_final : Bool → OutboxRow J → Bool
  is_final retryable claimed = not retryable || leb claimed.max_attempts claimed.attempts

  abbrev pub holds_claim : OutboxRow J → OutboxRow J → Bool
  holds_claim c r = is_sending r.status && r.attempts == c.attempts

  -- What a settlement's update gives back.
  changed_lem :
      (c r : OutboxRow J) (set : OutboxRow J → OutboxRow J) (db : Db J)
      → IsKeyed db
      → row_of c.id db ≡ some r
      → is_some (first_row (returning (owned c) set db.outbox)) ≡ owned c r
  unfolding owned
  changed_lem c r set db u f =
      ap is_some (first_row-returning (λ r. r.id) c.id (holds_claim c) set db.outbox u)
      ∙ ap (λ o. is_some (given_back (λ r. r.id) (holds_claim c) set o)) f
      ∙ ground (arith, eq_iff r.id c.id, find_row-key (λ r. r.id) c.id db.outbox {r = r} f)

  settle_sent_lem :
      (now : ℕ) (receipt : J) (c r : OutboxRow J) (db : Db J)
      → IsKeyed db
      → row_of c.id db ≡ some r
      → (row_of c.id (settle_sent now receipt c db).0
          ≡ some (if owned c r then sent_row now receipt r else r))
        × ((settle_sent now receipt c db).1 ≡ resolved (if owned c r then sent else skipped))
  unfolding settle_sent sent_row
  settle_sent_lem now receipt c r db u f = (
    find_row-update_where (λ r. r.id) c.id (owned c) (sent_row now receipt) db.outbox (λ s. refl)
        ∙ ap (touched (λ r. r.id) (owned c) (sent_row now receipt)) f,
    ap (λ b. resolved (if b then sent else skipped))
        (changed_lem c r (sent_row now receipt) db u f),
  )

  settle_failed_lem :
      (now : ℕ) (retryable : Bool) (message : String) (c r : OutboxRow J) (db : Db J)
      → IsKeyed db
      → row_of c.id db ≡ some r
      → (row_of c.id (settle_failed now retryable message c db).0
          ≡ some (if owned c r then failed_row now (is_final retryable c) message c r else r))
        × ((settle_failed now retryable message c db).1 ≡ (
            if owned c r
            then if is_final retryable c then resolved dead else rethrown
            else resolved skipped))
  unfolding settle_failed failed_row
  settle_failed_lem now retryable message c r db u f = (
    find_row-update_where (λ r. r.id) c.id (owned c)
          (failed_row now (is_final retryable c) message c) db.outbox (λ s. refl)
        ∙ ap (touched (λ r. r.id) (owned c) (failed_row now (is_final retryable c) message c)) f,
    ap
        (λ b.
          if b then if is_final retryable c then resolved dead else rethrown else resolved skipped)
        (changed_lem c r (failed_row now (is_final retryable c) message c) db u f),
  )

  owned-id : (c r : OutboxRow J) → owned c r ≡ true → r.id ≡ c.id
  unfolding owned
  owned-id c r h = ground (arith, eq_iff r.id c.id)

  claim_lem :
      (now lease : ℕ) (id : String) (r : OutboxRow J) (db : Db J)
      → IsKeyed db
      → row_of id db ≡ some r
      → (find_row (λ r. r.id) id (claim now lease id db.outbox).0
          ≡ some (if claimable now r then claim_row lease r else r))
        × ((claim now lease id db.outbox).1
            ≡ (if claimable now r then some (claim_row lease r) else none))
  unfolding claim claim_row
  claim_lem now lease id r db u f = (
    find_row-update_where (λ r. r.id) id (λ r. str_eq r.id id && claimable now r) (claim_row lease)
          db.outbox (λ s. refl)
        ∙ ap (touched (λ r. r.id) (λ r. str_eq r.id id && claimable now r) (claim_row lease)) f
        ∙ ground (arith, eq_iff r.id id, find_row-key (λ r. r.id) id db.outbox {r = r} f),
    first_row-returning (λ r. r.id) id (claimable now) (claim_row lease) db.outbox u
        ∙ ap (given_back (λ r. r.id) (claimable now) (claim_row lease)) f,
  )

  claim_absent :
      (now lease : ℕ) (id : String) (db : Db J)
      → IsKeyed db
      → row_of id db ≡ none
      → (claim now lease id db.outbox).1 ≡ none
  unfolding claim
  claim_absent now lease id db u f =
      first_row-returning (λ r. r.id) id (claimable now) (claim_row lease) db.outbox u
      ∙ ap (given_back (λ r. r.id) (claimable now) (claim_row lease)) f

  claim-IsKeyed :
      (now lease : ℕ) (id : String) (db : Db J)
      → IsKeyed db
      → HasUniqueKeys (λ r. r.id) (claim now lease id db.outbox).0
  unfolding claim claim_row
  claim-IsKeyed now lease id db u =
      HasUniqueKeys-update_where (λ r. r.id) (λ r. str_eq r.id id && claimable now r)
        (claim_row lease) db.outbox (λ s. refl) u

  -- The delivery of an item, by a worker that nothing overtakes, on the item's row: an item that is
  -- not claimable is left alone; else it is claimed, and the deliverer's answer decides whether it
  -- is sent, dead, or back to pending for a retry.
  module _ (deliverer : OutboxKind → Option (OutboxItem J → Delivery J))
      (redact : String → String) where
    abbrev pub settle_row : ℕ → Delivery J → OutboxRow J → OutboxRow J × Settled
    settle_row now (delivered receipt) c = (sent_row now receipt c, resolved sent)
    settle_row now (delivery_error message retryable) c =
        if is_final retryable c
        then (failed_row now true (redact message) c c, resolved dead)
        else (failed_row now false (redact message) c c, rethrown)
    settle_row now (other_error message) c =
        if is_final true c
        then (failed_row now true (redact message) c c, resolved dead)
        else (failed_row now false (redact message) c c, rethrown)

    abbrev pub deliver_row : ℕ → ℕ → ℕ → OutboxRow J → OutboxRow J × Settled
    deliver_row lease_seconds claim_time settle_time r =
        let c = claim_row (claim_time + lease_seconds * 1000) r in
        if claimable claim_time r
        then settle_row settle_time (perform deliverer redact c) c
        else (r, resolved (if is_pending r.status then not_due else skipped))

    own_claim : (lease : ℕ) (r : OutboxRow J) → owned (claim_row lease r) (claim_row lease r) ≡ true
    unfolding owned claim_row
    own_claim lease r = rw eq_refl (ground arith)

    settle-settle_row :
        (now : ℕ) (d : Delivery J) (c : OutboxRow J) (db : Db J)
        → IsKeyed db
        → row_of c.id db ≡ some c
        → owned c c ≡ true
        → (row_of c.id (settle deliverer redact now d c db).0 ≡ some (settle_row now d c).0)
          × ((settle deliverer redact now d c db).1 ≡ (settle_row now d c).1)
    unfolding settle
    settle-settle_row now (delivered x) c db u f own =
        ground (arith, settle_sent_lem now x c c db u f)
    settle-settle_row now (delivery_error m b) c db u f own =
        ground (arith, settle_failed_lem now b (redact m) c c db u f)
    settle-settle_row now (other_error m) c db u f own =
        ground (arith, settle_failed_lem now true (redact m) c c db u f)

    claim_row-id : (lease : ℕ) (r : OutboxRow J) → (claim_row lease r).id ≡ r.id
    unfolding claim_row
    claim_row-id lease r = refl

    settled_claim :
        (lease_seconds claim_time settle_time : ℕ) (id : String) (r : OutboxRow J) (db : Db J)
        → IsKeyed db
        → row_of id db ≡ some r
        → claimable claim_time r ≡ true
        → let lease = claim_time + lease_seconds * 1000 in
          let c = claim_row lease r in
          let db' : Db J = record db { outbox = (claim claim_time lease id db.outbox).0 } in
          let after = settle deliverer redact settle_time (perform deliverer redact c) c db' in
          (row_of id after.0 ≡ some (settle_row settle_time (perform deliverer redact c) c).0)
          × (after.1 ≡ (settle_row settle_time (perform deliverer redact c) c).1)
    settled_claim lease_seconds t0 t1 id r db u f e =
        let lease = t0 + lease_seconds * 1000 in
        let c = claim_row lease r in
        let d = perform deliverer redact c in
        let db' : Db J = record db { outbox = (claim t0 lease id db.outbox).0 } in
        let same = claim_row-id lease r ∙ find_row-key (λ (x : OutboxRow J). x.id) id db.outbox f in
        let found : row_of id db' ≡ some c = rw e at ((claim_lem t0 lease id r db u f).0) in
        subst
          (λ k.
            (row_of k (settle deliverer redact t1 d c db').0 ≡ some (settle_row t1 d c).0)
            × ((settle deliverer redact t1 d c db').1 ≡ (settle_row t1 d c).1))
          same
          (settle-settle_row t1 d c db' (claim-IsKeyed t0 lease id db u)
            (subst (λ k. row_of k db' ≡ some c) (sym same) found) (own_claim lease r))

    -- Where the ids are unique, a delivery that nothing overtakes does to the item's row, and
    -- resolves or rejects, exactly as `deliver_row` says.
    pub deliver_outbox_item-deliver_row :
        (lease_seconds claim_time settle_time : ℕ) (id : String) (r : OutboxRow J) (db : Db J)
        → IsKeyed db
        → row_of id db ≡ some r
        → let after =
            deliver_outbox_item deliverer redact lease_seconds claim_time settle_time id db in
          let alone = deliver_row lease_seconds claim_time settle_time r in
          (row_of id after.0 ≡ some alone.0) × (after.1 ≡ alone.1)
    unfolding deliver_outbox_item
    deliver_outbox_item-deliver_row lease_seconds t0 t1 id r db u f =
        let lease = t0 + lease_seconds * 1000 in
        let taken = claim_lem t0 lease id r db u f in
        elim (Bool-cases (claimable t0 r)) [
          | inl e ↦ ground (arith, taken, settled_claim lease_seconds t0 t1 id r db u f e)
          | inr e ↦ ground (arith, taken)
        ]
