-- ===== src/Outbox/Fencing/System.antt =====
-- The item's row, and the claims that workers hold: each is the row as its claim returned it.
use agent_gateway_control.Prelude.{
  ℕ, String, ◌≡◌, Bool, true, ◌||◌, some, List, ◌∷◌, get_elem?, erase_at, if◌then◌else◌,
}
use agent_gateway_control.Outbox.Rows.{OutboxRow, is_pending, is_sending, is_dead}
use agent_gateway_control.Outbox.Claim.{claimable, claim_row}
use agent_gateway_control.Outbox.Deliver.{owned, sent_row, failed_row}
use agent_gateway_control.Outbox.Reconcile.{
  poisoned, poison_row, set_due, redriven_row, cancelled_row,
}
use agent_gateway_control.Outbox.Retention.{expired_sent, erased_sent, expired_dead, erased_dead}
use agent_gateway_control.Outbox.Handlers.{is_final}

pub record System (J : Type 0) : Type 0 where
  pub row : OutboxRow J
  pub flights : List (OutboxRow J)

module _ {J : Type 0} where
  -- One transaction, or the loss of a worker.
  pub data Step (s : System J) : System J → Type 0 where
    claims :
        (now lease : ℕ)
        → claimable now s.row ≡ true
        → Step s
            (record { row = claim_row lease s.row; flights = claim_row lease s.row ∷ s.flights })
    succeeds :
        (i now : ℕ) (receipt : J) (c : OutboxRow J)
        → get_elem? s.flights i ≡ some c
        → Step s (record {
          row = if owned c s.row then sent_row now receipt s.row else s.row;
          flights = erase_at i s.flights;
        })
    fails :
        (i now : ℕ) (retryable : Bool) (message : String) (c : OutboxRow J)
        → get_elem? s.flights i ≡ some c
        → Step s (record {
          row =
              if owned c s.row
              then failed_row now (is_final retryable c) message c s.row
              else s.row;
          flights = erase_at i s.flights;
        })
    crashes : (i : ℕ) → Step s (record s { flights = erase_at i s.flights })
    poisons :
        (now : ℕ) → poisoned now s.row ≡ true → Step s (record s { row = poison_row now s.row })
    requeues :
        (now : ℕ) → is_pending s.row.status ≡ true → Step s (record s { row = set_due now s.row })
    redrives :
        (now : ℕ) → is_dead s.row.status ≡ true → Step s (record s { row = redriven_row now s.row })
    retires :
        is_pending s.row.status || is_sending s.row.status ≡ true
        → Step s (record s { row = cancelled_row s.row })
    erases_sent :
        (cutoff : ℕ) (empty : J)
        → expired_sent cutoff s.row ≡ true
        → Step s (record s { row = erased_sent empty s.row })
    erases_dead :
        (cutoff : ℕ) (empty : J)
        → expired_dead cutoff s.row ≡ true
        → Step s (record s { row = erased_dead empty s.row })

  pub data Reach (s : System J) : System J → Type 0 where
    here : Reach s s
    after : {t u : System J} → Reach s t → Step t u → Reach s u
