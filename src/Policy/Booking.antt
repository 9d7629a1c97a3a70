-- ===== src/Policy/Booking.antt =====
-- What booking an attempt does to the totals and to the holds.
use text.Mathlib.TextPositions.{eq_refl}
use agent_gateway_control.Prelude.{
  ℕ, ◌+◌, String, ◌≡◌, inl, inr, refl, ap, sym, ◌∙◌, Bool, true, false, ◌&&◌, Option, none, some,
  List, [], ◌∷◌, ◌++◌, any, any-append, filter, count_if, is_none, is_some, if◌then◌else◌, arith,
  Bool-cases,
}
use agent_gateway_control.Policy.Budget.{RuntimeUsage, metered_usage, OrganizationBudgets, or_zero}
use agent_gateway_control.Policy.Holds.{Within, budget_hold_monotone}
use agent_gateway_control.Policy.Ledger.{
  UsageRow, UsageAttempt, utc_day, booked_cost, usage_row, same_attempt, record_run_usage,
  counts_for, sum_of, totals, budget_hold_for,
}

sum_of-filter :
    (column : UsageRow → Option ℕ) (p : UsageRow → Bool) (xs : List UsageRow) (y : UsageRow)
    → sum_of column (filter p (xs ++ y ∷ []))
      ≡ sum_of column (filter p xs) + (if p y then or_zero (column y) else 0)
sum_of-filter column p [] y = ground arith
sum_of-filter column p (x ∷ xs) y = ground (arith, sum_of-filter column p xs y)

count_if-filter {ℓ} :
    {A : Type ℓ} (q p : A → Bool) (xs : List A) (y : A)
    → count_if q (filter p (xs ++ y ∷ []))
      ≡ count_if q (filter p xs) + (if p y && q y then 1 else 0)
count_if-filter q p [] y = ground arith
count_if-filter q p (x ∷ xs) y = ground (arith, count_if-filter q p xs y)

-- A row more in the ledger.
totals-append :
    (day : ℕ) (scope : Option String) (ledger : List UsageRow) (row : UsageRow)
    → let before = totals day scope ledger in
      let after = totals day scope (ledger ++ row ∷ []) in
      let counted = counts_for day scope row in
      (after.cost_usd ≡ before.cost_usd + (if counted then or_zero row.cost_usd else 0))
      × ((after.tokens ≡ before.tokens + (if counted then or_zero row.tokens else 0))
          × (after.unmetered_attempts
              ≡ before.unmetered_attempts
                + (if counted && (is_none row.cost_usd && is_none row.tokens) then 1 else 0)))
unfolding totals
totals-append day scope ledger row = (
  sum_of-filter (λ r. r.cost_usd) (counts_for day scope) ledger row,
  (
    sum_of-filter (λ r. r.tokens) (counts_for day scope) ledger row,
    count_if-filter (λ r. is_none r.cost_usd && is_none r.tokens) (counts_for day scope) ledger row,
  ),
)

same_attempt-usage_row :
    (now : ℕ) (attempt : UsageAttempt) (usage : Option RuntimeUsage)
    → same_attempt attempt (usage_row now attempt usage) ≡ true
unfolding usage_row
same_attempt-usage_row now attempt usage = ground (arith, eq_refl attempt.run_id)

record_run_usage-present :
    (now : ℕ) (attempt : UsageAttempt) (usage : Option RuntimeUsage) (ledger : List UsageRow)
    → any (same_attempt attempt) ledger ≡ true
    → record_run_usage now attempt usage ledger ≡ ledger
unfolding record_run_usage
record_run_usage-present now attempt usage ledger e = rw e refl

record_run_usage-absent :
    (now : ℕ) (attempt : UsageAttempt) (usage : Option RuntimeUsage) (ledger : List UsageRow)
    → any (same_attempt attempt) ledger ≡ false
    → record_run_usage now attempt usage ledger ≡ ledger ++ usage_row now attempt usage ∷ []
unfolding record_run_usage
record_run_usage-absent now attempt usage ledger e = rw e refl

-- After booking the attempt is in the ledger.
any-record_run_usage :
    (now : ℕ) (attempt : UsageAttempt) (usage : Option RuntimeUsage) (ledger : List UsageRow)
    → any (same_attempt attempt) (record_run_usage now attempt usage ledger) ≡ true
any-record_run_usage now attempt usage ledger =
    elim (Bool-cases (any (same_attempt attempt) ledger)) [
      | inl e ↦
          ap (any (same_attempt attempt)) (record_run_usage-present now attempt usage ledger e) ∙ e
      | inr e ↦
          ap (any (same_attempt attempt)) (record_run_usage-absent now attempt usage ledger e)
          ∙ any-append (same_attempt attempt) ledger (usage_row now attempt usage)
              (same_attempt-usage_row now attempt usage)
    ]

is_none-booked_cost : (cost : Option ℕ) → is_none (booked_cost cost) ≡ is_none cost
is_none-booked_cost none = refl
is_none-booked_cost (some cost) = refl

totals-usage_row :
    (now : ℕ) (attempt : UsageAttempt) (usage : Option RuntimeUsage) (ledger : List UsageRow)
    (day : ℕ) (scope : Option String)
    → let metered = metered_usage usage in
      let counted = counts_for day scope (usage_row now attempt usage) in
      let before = totals day scope ledger in
      let after = totals day scope (ledger ++ usage_row now attempt usage ∷ []) in
      (after.cost_usd
        ≡ before.cost_usd + (if counted then or_zero (booked_cost metered.cost_usd) else 0))
      × ((after.tokens ≡ before.tokens + (if counted then or_zero metered.tokens else 0))
          × (after.unmetered_attempts
              ≡ before.unmetered_attempts
                + (if counted && (is_none metered.cost_usd && is_none metered.tokens)
                    then 1
                    else 0)))
unfolding usage_row
totals-usage_row now attempt usage ledger day scope =
    rw (sym (is_none-booked_cost (metered_usage usage).cost_usd))
      (totals-append day scope ledger (usage_row now attempt usage))

-- Booking an attempt a second time changes nothing, whenever it comes and whatever usage it reports;
-- booked for the first time, an attempt adds its tokens, and its cost up to the largest one a row
-- holds, to the totals of the day and of the agent it was reported for and to no others, and counts as
-- unmetered where it reported neither.
pub record_run_usage_lem :
    (now later : ℕ) (attempt : UsageAttempt) (usage other : Option RuntimeUsage)
    (ledger : List UsageRow) (day : ℕ) (scope : Option String)
    → let once = record_run_usage now attempt usage ledger in
      let metered = metered_usage usage in
      let counted = counts_for day scope (usage_row now attempt usage) in
      let before = totals day scope ledger in
      let after = totals day scope once in
      (record_run_usage later attempt other once ≡ once)
      × (any (same_attempt attempt) ledger ≡ false
          → (after.cost_usd
              ≡ before.cost_usd + (if counted then or_zero (booked_cost metered.cost_usd) else 0))
            × ((after.tokens ≡ before.tokens + (if counted then or_zero metered.tokens else 0))
                × (after.unmetered_attempts
                    ≡ before.unmetered_attempts
                      + (if counted && (is_none metered.cost_usd && is_none metered.tokens)
                          then 1
                          else 0))))
record_run_usage_lem now later attempt usage other ledger day scope = (
  record_run_usage-present later attempt other (record_run_usage now attempt usage ledger)
      (any-record_run_usage now attempt usage ledger),
  λ e.
      rw (record_run_usage-absent now attempt usage ledger e)
        (totals-usage_row now attempt usage ledger day scope),
)

Within-record_run_usage :
    (now : ℕ) (attempt : UsageAttempt) (usage : Option RuntimeUsage) (ledger : List UsageRow)
    (day : ℕ) (scope : Option String)
    → Within
        (totals day scope ledger)
        (totals day scope (record_run_usage now attempt usage ledger))
Within-record_run_usage now attempt usage ledger day scope =
    elim (Bool-cases (any (same_attempt attempt) ledger)) [
      | inl e ↦
          rw (record_run_usage-present now attempt usage ledger e)
            (omega arith, (omega arith, omega arith))
      | inr e ↦
          let grown = (record_run_usage_lem now now attempt usage usage ledger day scope).1 e in
          (omega (arith, grown.0), (omega (arith, grown.1.0), omega (arith, grown.1.1)))
    ]

-- An agent that is held stays held for the rest of the day, whatever attempts are booked meanwhile:
-- a hold of an earlier moment is still there at a later moment of the same day.
pub budget_hold_for_stays :
    (now booked later : ℕ) (budgets : OrganizationBudgets) (attempt : UsageAttempt)
    (usage : Option RuntimeUsage) (ledger : List UsageRow) (agent_id : String)
    → utc_day later ≡ utc_day now
    → is_some (budget_hold_for now (some budgets) ledger agent_id).0 ≡ true
    → is_some
        (budget_hold_for later
          (some budgets)
          (record_run_usage booked attempt usage ledger)
          agent_id).0
      ≡ true
unfolding budget_hold_for
budget_hold_for_stays now booked later budgets attempt usage ledger agent_id same held = rw same (
    budget_hold_monotone budgets (totals (utc_day now) (some agent_id) ledger)
      (totals (utc_day now) (some agent_id) (record_run_usage booked attempt usage ledger))
      (totals (utc_day now) none ledger)
      (totals (utc_day now) none (record_run_usage booked attempt usage ledger))
      (Within-record_run_usage booked attempt usage ledger (utc_day now) (some agent_id))
      (Within-record_run_usage booked attempt usage ledger (utc_day now) none) held)
