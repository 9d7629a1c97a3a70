-- ===== src/Policy/LedgerTests.antt =====
-- A ledger of one attempt.
use mathlib.Core.Path.{refl}
use agent_gateway_control.Prelude.{
  ◌+◌, ◌≡◌, ◌&&◌, true, false, none, some, List, [], ◌∷◌, any, is_none, is_some, if◌then◌else◌,
}
use agent_gateway_control.Policy.Budget.{
  RuntimeUsage, OrganizationBudgets, metered_usage, or_zero, budget_hold, over_budget,
  unmetered_hold,
}
use agent_gateway_control.Policy.Ledger.{
  UsageRow, UsageAttempt, utc_day, booked_cost, usage_row, same_attempt, record_run_usage,
  counts_for, totals, budget_hold_for,
}
use agent_gateway_control.Policy.Booking.{record_run_usage_lem, budget_hold_for_stays}

abbrev first_attempt : UsageAttempt
first_attempt = record { run_id = "run-1"; attempt = 1; agent_id = "cto" }

abbrev second_attempt : UsageAttempt
second_attempt = record { run_id = "run-1"; attempt = 2; agent_id = "cto" }

abbrev usage : RuntimeUsage
usage = record {
  input_tokens = some 700;
  output_tokens = some 300;
  cached_input_tokens = none;
  cost_usd = some 20000000;
}

abbrev one_row : List UsageRow
one_row =
    record {
      run_id = "run-1";
      attempt = 1;
      agent_id = "cto";
      day = 0;
      cost_usd = some 20000000;
      tokens = some 1000;
      recorded_at = 5000;
    }
    ∷ []

abbrev budgets : OrganizationBudgets
budgets = record {
  per_agent_daily = some (record { cost_usd = none; tokens = some 1000 });
  global_daily = none;
  hold_unmetered = false;
}

booked : record_run_usage 5000 first_attempt (some usage) [] ≡ one_row
unfolding record_run_usage usage_row metered_usage utc_day
booked = refl

held : is_some (budget_hold_for 6000 (some budgets) one_row "cto").0 ≡ true
unfolding budget_hold_for budget_hold over_budget unmetered_hold totals utc_day
held = refl

same_day : utc_day 7000 ≡ utc_day 6000
unfolding utc_day
same_day = refl

not_booked : any (same_attempt second_attempt) one_row ≡ false
not_booked = refl

record_run_usage_lem_example :
    let once = record_run_usage 9000 second_attempt (some usage) one_row in
    let metered = metered_usage (some usage) in
    let counted = counts_for 0 (some "cto") (usage_row 9000 second_attempt (some usage)) in
    let before = totals 0 (some "cto") one_row in
    let after = totals 0 (some "cto") once in
    (record_run_usage 9500 second_attempt none once ≡ once)
    × (any (same_attempt second_attempt) one_row ≡ false
        → (after.cost_usd
            ≡ before.cost_usd + (if counted then or_zero (booked_cost metered.cost_usd) else 0))
          × ((after.tokens ≡ before.tokens + (if counted then or_zero metered.tokens else 0))
              × (after.unmetered_attempts
                  ≡ before.unmetered_attempts
                    + (if counted && (is_none metered.cost_usd && is_none metered.tokens)
                        then 1
                        else 0))))
record_run_usage_lem_example =
    record_run_usage_lem 9000 9500 second_attempt (some usage) none one_row 0 (some "cto")

budget_hold_for_stays_example :
    is_some
      (budget_hold_for 7000
        (some budgets)
        (record_run_usage 6500 second_attempt none one_row)
        "cto").0
    ≡ true
budget_hold_for_stays_example =
    budget_hold_for_stays 6000 6500 7000 budgets second_attempt none one_row "cto" same_day held
