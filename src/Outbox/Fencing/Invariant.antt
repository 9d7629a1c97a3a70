-- ===== src/Outbox/Fencing/Invariant.antt =====
-- What holds of an item and the claims on it at every moment.
use agent_gateway_control.Prelude.{
  ℕ, zero, suc, ◌≤◌, ◌<◌, String, ◌≡◌, Bool, true, false, List, [], ◌∷◌, All, All-imp, All-erase_at,
  All-get_elem?, get_elem?, erase_at, is_some, if◌then◌else◌, some, refl, arith,
}
use agent_gateway_control.Outbox.Rows.{OutboxRow, pending, sending, sent}
use agent_gateway_control.Outbox.Claim.{claimable, claim_row}
use agent_gateway_control.Outbox.Deliver.{owned, sent_row, failed_row}
use agent_gateway_control.Outbox.Reconcile.{
  poisoned, poison_row, set_due, redriven_row, cancelled_row,
}
use agent_gateway_control.Outbox.Retention.{erased_sent, erased_dead}
use agent_gateway_control.Outbox.Handlers.{is_final}
use agent_gateway_control.Outbox.Fencing.System.{
  System, Step, claims, succeeds, fails, crashes, poisons, requeues, redrives, retires, erases_sent,
  erases_dead, Reach, here, after,
}

module _ {J : Type 0} where
  -- The attempts never pass their maximum, a pending item has some left, an item being sent has a
  -- lease and was begun, and a receipt is there exactly when the item is sent.
  pub record IsValidRow (r : OutboxRow J) : Type 0 where
    pub bounded : r.attempts ≤ r.max_attempts
    pub pending_left : r.status ≡ pending → r.attempts < r.max_attempts
    pub sending_leased : r.status ≡ sending → is_some r.locked_until ≡ true
    pub sending_begun : r.status ≡ sending → 0 < r.attempts
    pub sent_receipt : r.status ≡ sent → is_some r.receipt ≡ true
    pub receipt_sent : is_some r.receipt ≡ true → r.status ≡ sent

  -- A claim is no newer than the row, and one that may still settle it has its maximum.
  pub record IsOlder (r c : OutboxRow J) : Type 0 where
    pub older : c.attempts ≤ r.attempts
    pub current : c.attempts ≡ r.attempts → r.status ≡ sending → c.max_attempts ≡ r.max_attempts

  -- No two claims carry the same attempt.
  abbrev pub AreDistinct : List (OutboxRow J) → Type 0
  AreDistinct [] = Unit
  AreDistinct (c ∷ cs) = All (λ d. d.attempts < c.attempts) cs × AreDistinct cs

  pub record Inv (s : System J) : Type 0 where
    pub valid : IsValidRow s.row
    pub flights_older : All (IsOlder s.row) s.flights
    pub flights_distinct : AreDistinct s.flights

  AreDistinct-erase_at :
      (i : ℕ) (cs : List (OutboxRow J)) → AreDistinct cs → AreDistinct (erase_at i cs)
  AreDistinct-erase_at i [] h = tt
  AreDistinct-erase_at zero (c ∷ cs) h = h.1
  AreDistinct-erase_at (suc i) (c ∷ cs) h =
      (All-erase_at (λ d. d.attempts < c.attempts) i cs h.0, AreDistinct-erase_at i cs h.1)

  claim-IsValidRow :
      (now lease : ℕ) (r : OutboxRow J)
      → claimable now r ≡ true
      → IsValidRow r
      → IsValidRow (claim_row lease r)
  unfolding claimable claim_row
  claim-IsValidRow now lease r t v = ground arith

  sent-IsValidRow :
      (now : ℕ) (receipt : J) (c r : OutboxRow J)
      → owned c r ≡ true
      → IsValidRow r
      → IsValidRow (sent_row now receipt r)
  unfolding owned sent_row
  sent-IsValidRow now receipt c r t v = ground arith

  failed-IsValidRow :
      (now : ℕ) (retryable : Bool) (message : String) (c r : OutboxRow J)
      → owned c r ≡ true
      → IsOlder r c
      → IsValidRow r
      → IsValidRow (failed_row now (is_final retryable c) message c r)
  unfolding owned failed_row
  failed-IsValidRow now retryable message c r t o v = ground arith

  poison-IsValidRow :
      (now : ℕ) (r : OutboxRow J)
      → poisoned now r ≡ true
      → IsValidRow r
      → IsValidRow (poison_row now r)
  unfolding poisoned poison_row
  poison-IsValidRow now r t v = ground arith

  -- The claims stay older through each write of the row.
  claim-IsOlder : (lease : ℕ) (r c : OutboxRow J) → IsOlder r c → IsOlder (claim_row lease r) c
  unfolding claim_row
  claim-IsOlder lease r c o = ground arith

  claim-IsOlder_self :
      (lease : ℕ) (r : OutboxRow J) → IsOlder (claim_row lease r) (claim_row lease r)
  claim-IsOlder_self lease r = ground arith

  claim_newest :
      (lease : ℕ) (r c : OutboxRow J) → IsOlder r c → c.attempts < (claim_row lease r).attempts
  unfolding claim_row
  claim_newest lease r c o = ground arith

  sent-IsOlder :
      (now : ℕ) (receipt : J) (r c : OutboxRow J) → IsOlder r c → IsOlder (sent_row now receipt r) c
  unfolding sent_row
  sent-IsOlder now receipt r c o = ground arith

  failed-IsOlder :
      (now : ℕ) (final : Bool) (message : String) (claimed r c : OutboxRow J)
      → IsOlder r c
      → IsOlder (failed_row now final message claimed r) c
  unfolding failed_row
  failed-IsOlder now true message claimed r c o = ground arith
  failed-IsOlder now false message claimed r c o = ground arith

  settled :
      (s : System J) (c : OutboxRow J) (b : Bool) (r' : OutboxRow J) (i : ℕ)
      → Inv s
      → get_elem? s.flights i ≡ some c
      → (b ≡ true → IsOlder s.row c → IsValidRow r')
      → ((d : OutboxRow J) → IsOlder s.row d → IsOlder r' d)
      → Inv (record { row = if b then r' else s.row; flights = erase_at i s.flights })
  settled s c true r' i v e valid older = record {
    valid = valid refl (All-get_elem? (IsOlder s.row) s.flights i v.flights_older e);
    flights_older =
        All-erase_at (IsOlder r') i s.flights
          (All-imp (IsOlder s.row) (IsOlder r') s.flights older v.flights_older);
    flights_distinct = AreDistinct-erase_at i s.flights v.flights_distinct;
  }
  settled s c false r' i v e valid older = record {
    valid = v.valid;
    flights_older = All-erase_at (IsOlder s.row) i s.flights v.flights_older;
    flights_distinct = AreDistinct-erase_at i s.flights v.flights_distinct;
  }

  -- A write by the controller, which no worker's claim takes part in.
  rewritten :
      (s : System J) (r' : OutboxRow J)
      → Inv s
      → IsValidRow r'
      → ((d : OutboxRow J) → IsOlder s.row d → IsOlder r' d)
      → Inv (record s { row = r' })
  rewritten s r' v valid older = record {
    valid = valid;
    flights_older = All-imp (IsOlder s.row) (IsOlder r') s.flights older v.flights_older;
    flights_distinct = v.flights_distinct;
  }

  Step-Inv : {s t : System J} → Step s t → Inv s → Inv t
  Step-Inv {s} (claims now lease e) v = record {
    valid = claim-IsValidRow now lease s.row e v.valid;
    flights_older = (
      claim-IsOlder_self lease s.row,
      All-imp (IsOlder s.row) (IsOlder (claim_row lease s.row)) s.flights
          (λ c o. claim-IsOlder lease s.row c o) v.flights_older,
    );
    flights_distinct = (
      All-imp (IsOlder s.row) (λ c. c.attempts < (claim_row lease s.row).attempts) s.flights
          (λ c o. claim_newest lease s.row c o) v.flights_older,
      v.flights_distinct,
    );
  }
  Step-Inv {s} (succeeds i now receipt c e) v =
      settled s c (owned c s.row) (sent_row now receipt s.row) i v e
        (λ own _. sent-IsValidRow now receipt c s.row own v.valid)
        (λ d o. sent-IsOlder now receipt s.row d o)
  Step-Inv {s} (fails i now retryable message c e) v =
      settled s c (owned c s.row) (failed_row now (is_final retryable c) message c s.row) i v e
        (λ own old. failed-IsValidRow now retryable message c s.row own old v.valid)
        (λ d o. failed-IsOlder now (is_final retryable c) message c s.row d o)
  Step-Inv {s} (crashes i) v = record {
    valid = v.valid;
    flights_older = All-erase_at (IsOlder s.row) i s.flights v.flights_older;
    flights_distinct = AreDistinct-erase_at i s.flights v.flights_distinct;
  }
  Step-Inv {s} (poisons now e) v =
      rewritten s (poison_row now s.row) v (poison-IsValidRow now s.row e v.valid)
        (unfold poison_row in λ d o. ground arith)
  Step-Inv {s} (requeues now e) v =
      rewritten s (set_due now s.row) v (ground arith) (λ d o. ground arith)
  Step-Inv {s} (redrives now e) v =
      rewritten s (redriven_row now s.row) v (unfold redriven_row in ground arith)
        (unfold redriven_row in λ d o. ground arith)
  Step-Inv {s} (retires e) v =
      rewritten s (cancelled_row s.row) v (unfold cancelled_row in ground arith)
        (unfold cancelled_row in λ d o. ground arith)
  Step-Inv {s} (erases_sent cutoff empty e) v =
      rewritten s (erased_sent empty s.row) v (unfold erased_sent in ground arith)
        (unfold erased_sent in λ d o. ground arith)
  Step-Inv {s} (erases_dead cutoff empty e) v =
      rewritten s (erased_dead empty s.row) v (unfold erased_dead in ground arith)
        (unfold erased_dead in λ d o. ground arith)

  -- An item that is valid and that nobody has claimed, whatever then happens to it: the invariant
  -- holds, so its attempts never pass their maximum.
  pub Reach-Inv : {s t : System J} → Inv s → Reach s t → Inv t
  Reach-Inv v here = v
  Reach-Inv v (after r st) = Step-Inv st (Reach-Inv v r)
