-- ===== src/Policy/Ledger.antt =====
-- The usage ledger (packages/core/src/services/budgets.ts): one row per run and attempt, and the hold
-- computed from the rows of the day. A day is the number of days since the epoch.
use agent_gateway_control.Prelude.{
  ℕ, ◌+◌, ◌/◌, String, str_eq, Bool, ◌&&◌, Option, none, some, List, [], ◌∷◌, ◌++◌, min, ◌==◌, any,
  filter, is_none, if◌then◌else◌, count_if,
}
use agent_gateway_control.Policy.Budget.{
  RuntimeUsage, metered_usage, UsageTotals, OrganizationBudgets, BudgetHold, budget_hold, or_zero,
  of_everyone, of_agent,
}

pub record UsageRow : Type 0 where
  pub run_id : String
  pub attempt : ℕ
  pub agent_id : String
  pub day : ℕ
  pub cost_usd : Option ℕ
  pub tokens : Option ℕ
  pub recorded_at : ℕ

pub record UsageAttempt : Type 0 where
  pub run_id : String
  pub attempt : ℕ
  pub agent_id : String

-- 99,999,999 dollars
abbrev max_booked_cost_usd : ℕ
max_booked_cost_usd = 99999999000000

unfoldable pub utc_day : ℕ → ℕ
utc_day now = now / 86400000

abbrev pub booked_cost : Option ℕ → Option ℕ
booked_cost none = none
booked_cost (some cost) = some (min cost max_booked_cost_usd)

unfoldable pub usage_row : ℕ → UsageAttempt → Option RuntimeUsage → UsageRow
unfolding utc_day
usage_row now attempt usage =
    let metered = metered_usage usage in
    record {
      run_id = attempt.run_id;
      attempt = attempt.attempt;
      agent_id = attempt.agent_id;
      day = utc_day now;
      cost_usd = booked_cost metered.cost_usd;
      tokens = metered.tokens;
      recorded_at = now;
    }

abbrev pub same_attempt : UsageAttempt → UsageRow → Bool
same_attempt attempt row = str_eq row.run_id attempt.run_id && row.attempt == attempt.attempt

-- `onConflictDoNothing` on the primary key `(run_id, attempt)`
unfoldable pub record_run_usage :
    ℕ → UsageAttempt → Option RuntimeUsage → List UsageRow → List UsageRow
record_run_usage now attempt usage ledger =
    if any (same_attempt attempt) ledger then ledger else ledger ++ usage_row now attempt usage ∷ []

abbrev pub counts_for : ℕ → Option String → UsageRow → Bool
counts_for day none row = row.day == day
counts_for day (some agent_id) row = row.day == day && str_eq row.agent_id agent_id

-- `sum`, in which a null is nothing
abbrev pub sum_of : (UsageRow → Option ℕ) → List UsageRow → ℕ
sum_of column [] = 0
sum_of column (row ∷ rows) = or_zero (column row) + sum_of column rows

unfoldable pub totals : ℕ → Option String → List UsageRow → UsageTotals
totals day agent_id ledger =
    let rows = filter (counts_for day agent_id) ledger in
    record {
      cost_usd = sum_of (λ row. row.cost_usd) rows;
      tokens = sum_of (λ row. row.tokens) rows;
      unmetered_attempts = count_if (λ row. is_none row.cost_usd && is_none row.tokens) rows;
    }

-- The alert of a hold: its scope, no agent for everyone's, and its day.
abbrev pub hold_alerts : ℕ → String → Option BudgetHold → List (Option String × ℕ)
hold_alerts day agent_id none = []
hold_alerts day agent_id (some hold) = elim hold.scope [
  | of_everyone ↦ (none, day) ∷ []
  | of_agent ↦ (some agent_id, day) ∷ []
]

-- The hold, and the alerts raised for it.
unfoldable pub budget_hold_for :
    ℕ
    → Option OrganizationBudgets
    → List UsageRow
    → String
    → Option BudgetHold × List (Option String × ℕ)
unfolding utc_day
budget_hold_for now budgets ledger agent_id =
    let day = utc_day now in
    let hold = budget_hold budgets (totals day (some agent_id) ledger) (totals day none ledger) in
    (hold, hold_alerts day agent_id hold)
