-- ===== src/Policy/Budget.antt =====
-- Spending limits per UTC day (packages/policy/src/budget.ts). An amount of money is a whole number
-- of millionths of a dollar, the step of the usage ledger.
use agent_gateway_control.Prelude.{
  ℕ, ◌+◌, ◌*◌, Bool, false, ◌&&◌, ◌||◌, Option, none, some, List, [], ◌∷◌, ◌++◌, leb, ltb, is_none,
  is_some, if◌then◌else◌,
}

-- The parts of a runtime's usage that are metered.
pub record RuntimeUsage : Type 0 where
  pub input_tokens : Option ℕ
  pub output_tokens : Option ℕ
  pub cached_input_tokens : Option ℕ
  pub cost_usd : Option ℕ

pub record MeteredUsage : Type 0 where
  pub cost_usd : Option ℕ
  pub tokens : Option ℕ

-- `?? 0`
abbrev pub or_zero : Option ℕ → ℕ
or_zero none = 0
or_zero (some n) = n

unfoldable pub metered_usage : Option RuntimeUsage → MeteredUsage
metered_usage none = record { cost_usd = none; tokens = none }
metered_usage (some usage) = record {
  cost_usd = usage.cost_usd;
  tokens =
      if is_none usage.input_tokens && is_none usage.output_tokens
      then none
      else some (or_zero usage.input_tokens + or_zero usage.output_tokens);
}

unfoldable pub is_unmetered : MeteredUsage → Bool
is_unmetered usage = is_none usage.cost_usd && is_none usage.tokens

-- One scope's consumption in the current day.
pub record UsageTotals : Type 0 where
  pub cost_usd : ℕ
  pub tokens : ℕ
  pub unmetered_attempts : ℕ

pub record DailyBudget : Type 0 where
  pub cost_usd : Option ℕ
  pub tokens : Option ℕ

pub record OrganizationBudgets : Type 0 where
  pub per_agent_daily : Option DailyBudget
  pub global_daily : Option DailyBudget
  pub hold_unmetered : Bool

-- The parts of the reason's text.
pub data HoldReason : Type 0 where
  cost_reached : ℕ → ℕ → HoldReason
  tokens_reached : ℕ → ℕ → HoldReason
  reported_no_usage : ℕ → HoldReason

-- `limit !== undefined && amount >= limit`
abbrev pub reached : ℕ → Option ℕ → Bool
reached amount none = false
reached amount (some limit) = leb limit amount

unfoldable pub over_budget : UsageTotals → Option DailyBudget → Option HoldReason
over_budget totals none = none
over_budget totals (some budget) =
    if reached totals.cost_usd budget.cost_usd
    then some (cost_reached totals.cost_usd (or_zero budget.cost_usd))
    else if reached totals.tokens budget.tokens
    then some (tokens_reached totals.tokens (or_zero budget.tokens))
    else none

pub data HoldScope : Type 0 where
  of_agent : HoldScope
  of_everyone : HoldScope

pub record BudgetHold : Type 0 where
  pub scope : HoldScope
  pub reason : HoldReason

abbrev scoped : HoldScope → HoldReason → BudgetHold
scoped scope reason = record { scope = scope; reason = reason }

-- The unmetered rule, once both limits leave room.
unfoldable pub unmetered_hold : OrganizationBudgets → UsageTotals → Option BudgetHold
unmetered_hold budgets agent =
    let limited = is_some budgets.per_agent_daily || is_some budgets.global_daily in
    if limited && (budgets.hold_unmetered && ltb 0 agent.unmetered_attempts)
    then some (scoped of_agent (reported_no_usage agent.unmetered_attempts))
    else none

unfoldable pub budget_hold :
    Option OrganizationBudgets → UsageTotals → UsageTotals → Option BudgetHold
unfolding over_budget unmetered_hold
budget_hold none agent everyone = none
budget_hold (some budgets) agent everyone = elim (over_budget everyone budgets.global_daily) [
  | some reason ↦ some (scoped of_everyone reason)
  | none ↦ elim (over_budget agent budgets.per_agent_daily) [
    | some reason ↦ some (scoped of_agent reason)
    | none ↦ unmetered_hold budgets agent
  ]
]

-- The share of a limit that is consumed, as the pair that is divided.
pub record Share : Type 0 where
  pub amount : ℕ
  pub limit : ℕ

-- `limit !== undefined && limit > 0`
abbrev pub share_of : ℕ → Option ℕ → List Share
share_of amount none = []
share_of amount (some limit) =
    if ltb 0 limit then record { amount = amount; limit = limit } ∷ [] else []

-- `b.ratio - a.ratio > 0`: the quotients compared by their cross products
abbrev pub smaller_share : Share → Share → Bool
smaller_share a b = ltb (a.amount * b.limit) (b.amount * a.limit)

-- The first entry once the shares are sorted, the largest first, equal ones in their order.
abbrev pub top_share : List Share → Option Share
top_share [] = none
top_share (a ∷ rest) = elim (top_share rest) [
  | none ↦ some a
  | some b ↦ if smaller_share a b then some b else some a
]

abbrev pub shares : UsageTotals → DailyBudget → List Share
shares totals budget =
    share_of totals.cost_usd budget.cost_usd ++ share_of totals.tokens budget.tokens

-- `top.ratio < 0.8 ? null : top`
abbrev pub warned : Option Share → Option Share
warned none = none
warned (some top) = if ltb (top.amount * 10) (top.limit * 8) then none else some top

unfoldable pub budget_pressure : UsageTotals → Option DailyBudget → Option Share
budget_pressure totals none = none
budget_pressure totals (some budget) = warned (top_share (shares totals budget))
