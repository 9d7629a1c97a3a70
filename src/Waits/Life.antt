-- ===== src/Waits/Life.antt =====
-- The waits of a deployment as they come to be: what resolveWait, cancelActiveWaits
-- (packages/core/src/services/wait-store.ts), extendApprovalWait (approval-store.ts) and insertWait
-- (runs.ts) do to an empty table, in any order.
use agent_gateway_control.Prelude.{
  ℕ, String, str_eq, eq_iff, Bool, true, some, List, [], ◌≡◌, refl, sym, ◌∙◌, inl, inr,
  Option-cases, arith,
}
use agent_gateway_control.Prelude.Table.{
  returning, first_row, find_row, HasUniqueKeys, HasUniqueKeys-update_where,
}
use agent_gateway_control.Waits.Store.{
  WaitRow, is_resolved, resolved_row, cancelled_row, is_open, is_sibling, resolve_wait, is_open_of,
  cancel_active_waits, insert_wait, extended_row, is_open_about, approval_correlation,
  extend_approval_wait,
}
use agent_gateway_control.Waits.Consumed.{id_of, fresh, closed, IsConsumedOnce, All-find_row}
use agent_gateway_control.Waits.Once.{
  resolve_wait-IsConsumedOnce, cancelled_row-IsConsumedOnce, extended_row-IsConsumedOnce, MayInsert,
  insert_wait-IsConsumedOnce, insert_wait-HasUniqueKeys,
}

pub data History : List WaitRow → Type 0 where
  nothing : History []
  resolves :
      {waits : List WaitRow} (now : ℕ) (id event : String) (timed : Bool)
      → History waits
      → History ((resolve_wait now id event timed waits).0)
  cancels :
      {waits : List WaitRow} (now : ℕ) (agent : String)
      → History waits
      → History ((cancel_active_waits now agent waits).0)
  extends :
      {waits : List WaitRow} (approval : String) (until : ℕ)
      → History waits
      → History ((extend_approval_wait approval until waits).0)
  stores :
      {waits : List WaitRow} (id run agent correlation : String) (timeout : ℕ)
      → MayInsert id run waits
      → History waits
      → History (insert_wait id run agent correlation timeout waits)

resolve_wait-HasUniqueKeys :
    (now : ℕ) (k event : String) (timed : Bool) (waits : List WaitRow)
    → HasUniqueKeys id_of waits
    → HasUniqueKeys id_of ((resolve_wait now k event timed waits).0)
unfolding resolve_wait
resolve_wait-HasUniqueKeys now k event timed waits u =
    let first =
      HasUniqueKeys-update_where id_of (is_open k) (resolved_row now event timed) waits (λ r. refl)
        u in
    elim (Option-cases (first_row (returning (is_open k) (resolved_row now event timed) waits))) [
      | inl e ↦ rw e first
      | inr (v, e) ↦ rw e (
          HasUniqueKeys-update_where id_of (is_sibling v.created_by_run_id k) (cancelled_row now) _
            (λ r. refl) first)
    ]

History-HasUniqueKeys : {waits : List WaitRow} → History waits → HasUniqueKeys id_of waits
unfolding cancel_active_waits extend_approval_wait
History-HasUniqueKeys nothing = tt
History-HasUniqueKeys (resolves now id event timed h) =
    resolve_wait-HasUniqueKeys now id event timed _ (History-HasUniqueKeys h)
History-HasUniqueKeys (cancels now agent h) =
    HasUniqueKeys-update_where id_of (is_open_of agent) (cancelled_row now) _ (λ r. refl)
      (History-HasUniqueKeys h)
History-HasUniqueKeys (extends approval until h) =
    HasUniqueKeys-update_where id_of (is_open_about (approval_correlation approval))
      (extended_row until) _ (λ r. refl) (History-HasUniqueKeys h)
History-HasUniqueKeys (stores id run agent correlation timeout may h) =
    insert_wait-HasUniqueKeys id run agent correlation timeout _ may.0 (History-HasUniqueKeys h)

History-IsConsumedOnce :
    {waits : List WaitRow} → History waits → (run : String) → IsConsumedOnce run waits
unfolding cancel_active_waits extend_approval_wait
History-IsConsumedOnce nothing run = inl tt
History-IsConsumedOnce (resolves now id event timed h) run =
    resolve_wait-IsConsumedOnce now id event timed _ (History-HasUniqueKeys h)
      (History-IsConsumedOnce h) run
History-IsConsumedOnce (cancels now agent h) run =
    cancelled_row-IsConsumedOnce now agent run _ (History-IsConsumedOnce h run)
History-IsConsumedOnce (extends approval until h) run =
    extended_row-IsConsumedOnce until (is_open_about (approval_correlation approval)) run _
      (History-IsConsumedOnce h run)
History-IsConsumedOnce (stores id run agent correlation timeout may h) other =
    insert_wait-IsConsumedOnce id run agent correlation timeout _ other may.1
      (History-IsConsumedOnce h other)

resolved_same_id :
    (run : String) (waits : List WaitRow) (j k : String) (a b : WaitRow)
    → IsConsumedOnce run waits
    → find_row id_of j waits ≡ some a
    → find_row id_of k waits ≡ some b
    → is_resolved a.status ≡ true
    → is_resolved b.status ≡ true
    → str_eq a.created_by_run_id run ≡ true
    → str_eq b.created_by_run_id run ≡ true
    → a.id ≡ b.id
resolved_same_id run waits j k a b (inl f) fa fb ra rb ea eb =
    absurd (
      let bad = All-find_row (λ y. fresh run y ≡ true) j waits a f fa in
      ground (arith, bad, ra, ea))
resolved_same_id run waits j k a b (inr (id, c)) fa fb ra rb ea eb =
    let at_a = All-find_row (λ y. closed run id y ≡ true) j waits a c fa in
    let at_b = All-find_row (λ y. closed run id y ≡ true) k waits b c fb in
    let ia : str_eq a.id id ≡ true = ground (arith, at_a, ra, ea) in
    let ib : str_eq b.id id ≡ true = ground (arith, at_b, rb, eb) in
    (eq_iff a.id id).0 ia ∙ sym ((eq_iff b.id id).0 ib)

-- In a table of waits that came to be by storing, resolving, cancelling and extending waits, where a
-- wait is stored under a new id and before a wait of its run is consumed: two waits of one run that an
-- event or a timeout consumed are the same wait.
pub waits-consumed_once :
    {waits : List WaitRow}
    → History waits
    → (j k : String) (a b : WaitRow) → find_row id_of j waits ≡ some a
    → find_row id_of k waits ≡ some b
    → is_resolved a.status ≡ true
    → is_resolved b.status ≡ true
    → a.created_by_run_id ≡ b.created_by_run_id
    → a.id ≡ b.id
waits-consumed_once h j k a b fa fb ra rb same =
    resolved_same_id b.created_by_run_id _ j k a b (History-IsConsumedOnce h b.created_by_run_id) fa
      fb ra rb ((eq_iff a.created_by_run_id b.created_by_run_id).1 same)
      ((eq_iff b.created_by_run_id b.created_by_run_id).1 refl)
