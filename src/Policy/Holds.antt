-- ===== src/Policy/Holds.antt =====
-- budgetHold of packages/policy/src/budget.ts: when it holds an agent, and growing consumption.
use agent_gateway_control.Prelude.{
  ℕ, ◌≤◌, ◌<◌, ◌≡◌, ◌↔◌, ◌⊎◌, inl, inr, Bool, true, false, Option, none, some, is_some, arith,
}
use agent_gateway_control.Policy.Budget.{
  UsageTotals, DailyBudget, OrganizationBudgets, BudgetHold, of_agent, of_everyone, reached,
  over_budget, unmetered_hold, budget_hold,
}

-- The amount has come up to the limit, where there is one.
abbrev pub HasReached : ℕ → Option ℕ → Type 0
HasReached amount none = ⊥
HasReached amount (some limit) = limit ≤ amount

abbrev pub Exhausted : UsageTotals → Option DailyBudget → Type 0
Exhausted totals none = ⊥
Exhausted totals (some budget) =
    HasReached totals.cost_usd budget.cost_usd ⊎ HasReached totals.tokens budget.tokens

-- A limit is set, unmetered attempts hold, and the agent has one today.
abbrev pub Unreported : OrganizationBudgets → UsageTotals → Type 0
Unreported budgets agent =
    ((is_some budgets.per_agent_daily ≡ true) ⊎ (is_some budgets.global_daily ≡ true))
    × ((budgets.hold_unmetered ≡ true) × (0 < agent.unmetered_attempts))

reached_iff :
    (amount : ℕ) (limit : Option ℕ) → (reached amount limit ≡ true) ↔ HasReached amount limit
reached_iff amount none = ground arith
reached_iff amount (some n) = ground arith

over_budget_iff :
    (totals : UsageTotals) (budget : Option DailyBudget)
    → (is_some (over_budget totals budget) ≡ true) ↔ Exhausted totals budget
unfolding over_budget
over_budget_iff totals none = ground arith
over_budget_iff totals (some b) =
    ground (arith, reached_iff totals.cost_usd b.cost_usd, reached_iff totals.tokens b.tokens)

abbrev pub holds_everyone : Option BudgetHold → Bool
holds_everyone none = false
holds_everyone (some hold) = elim hold.scope [ of_everyone ↦ true | of_agent ↦ false ]

unmetered_hold_iff :
    (budgets : OrganizationBudgets) (agent : UsageTotals)
    → ((is_some (unmetered_hold budgets agent) ≡ true) ↔ Unreported budgets agent)
      × (holds_everyone (unmetered_hold budgets agent) ≡ false)
unfolding unmetered_hold
unmetered_hold_iff budgets agent = ground arith

-- An agent is held exactly when the global budget is used up, its own is, or it has an attempt that
-- reported no usage while the organization holds on those; everyone is held exactly when the global
-- budget is used up; without configured budgets nobody is.
pub budget_hold_iff :
    (budgets : OrganizationBudgets) (agent everyone : UsageTotals)
    → let hold = budget_hold (some budgets) agent everyone in
      ((is_some hold ≡ true) ↔ (
        Exhausted everyone budgets.global_daily
        ⊎ (Exhausted agent budgets.per_agent_daily ⊎ Unreported budgets agent)))
      × ((holds_everyone hold ≡ true) ↔ Exhausted everyone budgets.global_daily)
      × (budget_hold none agent everyone ≡ none)
unfolding budget_hold
budget_hold_iff budgets agent everyone = ground (
  arith,
  over_budget_iff everyone budgets.global_daily,
  over_budget_iff agent budgets.per_agent_daily,
  unmetered_hold_iff budgets agent,
)

-- At most as much has been consumed.
abbrev pub Within : UsageTotals → UsageTotals → Type 0
Within a b =
    (a.cost_usd ≤ b.cost_usd)
    × ((a.tokens ≤ b.tokens) × (a.unmetered_attempts ≤ b.unmetered_attempts))

HasReached-le : (a b : ℕ) (limit : Option ℕ) → a ≤ b → HasReached a limit → HasReached b limit
HasReached-le a b none le h = h
HasReached-le a b (some n) le h = omega arith

Exhausted-le :
    (a b : UsageTotals) (budget : Option DailyBudget)
    → Within a b
    → Exhausted a budget
    → Exhausted b budget
Exhausted-le a b none le h = h
Exhausted-le a b (some budget) le (inl h) =
    inl (HasReached-le a.cost_usd b.cost_usd budget.cost_usd le.0 h)
Exhausted-le a b (some budget) le (inr h) =
    inr (HasReached-le a.tokens b.tokens budget.tokens le.1.0 h)

-- A hold stays while consumption grows: with the same budgets, an agent that is held is still held
-- after it and the others have consumed more.
pub budget_hold_monotone :
    (budgets : OrganizationBudgets) (agent agent' everyone everyone' : UsageTotals)
    → Within agent agent'
    → Within everyone everyone'
    → is_some (budget_hold (some budgets) agent everyone) ≡ true
    → is_some (budget_hold (some budgets) agent' everyone') ≡ true
budget_hold_monotone budgets agent agent' everyone everyone' le le' held = ground (
  arith,
  budget_hold_iff budgets agent everyone,
  budget_hold_iff budgets agent' everyone',
  Exhausted-le agent agent' budgets.per_agent_daily le,
  Exhausted-le everyone everyone' budgets.global_daily le',
)
