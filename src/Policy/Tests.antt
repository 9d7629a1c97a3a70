-- ===== src/Policy/Tests.antt =====
-- Concrete policies, budgets and addresses.
use mathlib.Core.Path.{refl}
use agent_gateway_control.Prelude.{
  String, ◌≡◌, ◌↔◌, ◌⊎◌, true, false, none, some, [], ◌∷◌, is_some, arith,
}
use agent_gateway_control.Policy.Patterns.{tool_pattern_covers, covers}
use agent_gateway_control.Policy.Tools.{
  ToolLists, ToolSubject, require_approval, denied, finance_read, is_finance, evaluate_tool,
  is_finance_read,
}
use agent_gateway_control.Policy.Authority.{MayTouch, is_granted, needs_approval, evaluate_tool_iff}
use agent_gateway_control.Policy.Budget.{
  UsageTotals, DailyBudget, OrganizationBudgets, budget_hold, over_budget, unmetered_hold,
}
use agent_gateway_control.Policy.Holds.{
  Exhausted, Unreported, holds_everyone, budget_hold_iff, budget_hold_monotone,
}
use agent_gateway_control.Policy.IpGuard.{
  ipv4, version_4, is_public_address, blocked_address_reason, ipv4_blocked_reason, first_blocked,
  ipv4_blocked_ranges,
}
use agent_gateway_control.Policy.PublicAddress.{IsPublicHost, is_public_address_iff}

abbrev lists : ToolLists
lists = record {
  allow = "mail.read" ∷ "finance.read" ∷ [];
  require_human_approval = "finance.payment.create" ∷ "deploy.*" ∷ [];
  deny = "publish.*" ∷ [];
}

abbrev accountant : ToolSubject
accountant = record { agent_id = "cfo"; finance_agent_id = "cfo" }

abbrev writer : ToolSubject
writer = record { agent_id = "writer"; finance_agent_id = "cfo" }

pays_with_approval :
    (evaluate_tool lists accountant "finance.payment.create").decision ≡ require_approval
unfolding evaluate_tool is_finance_read tool_pattern_covers
pays_with_approval = refl

no_finance_for_writer : (evaluate_tool lists writer "finance.read").decision ≡ denied
unfolding evaluate_tool is_finance_read tool_pattern_covers
no_finance_for_writer = refl

evaluate_tool_iff_example :
    let decision = (evaluate_tool lists accountant "finance.read").decision in
    ((is_granted decision ≡ true) ↔ (
      MayTouch lists accountant "finance.read"
      × ((covers lists.require_human_approval "finance.read" ≡ false)
          × ((covers lists.allow "finance.read" ≡ true)
              × (is_finance "finance.read" ≡ true → "finance.read" ≡ finance_read)))))
    × ((needs_approval decision ≡ true) ↔ (
        MayTouch lists accountant "finance.read"
        × (covers lists.require_human_approval "finance.read" ≡ true)))
evaluate_tool_iff_example = evaluate_tool_iff lists accountant "finance.read"

abbrev mail_read : String
mail_read = "mail.read"

abbrev deploy_web : String
deploy_web = "deploy.web"

abbrev ten_dollars : DailyBudget
ten_dollars = record { cost_usd = some 10000000; tokens = none }

abbrev budgets : OrganizationBudgets
budgets = record { per_agent_daily = some ten_dollars; global_daily = none; hold_unmetered = true }

abbrev spent : UsageTotals
spent = record { cost_usd = 10000000; tokens = 500; unmetered_attempts = 0 }

abbrev spent_more : UsageTotals
spent_more = record { cost_usd = 10000001; tokens = 900; unmetered_attempts = 1 }

spent_is_held : is_some (budget_hold (some budgets) spent spent) ≡ true
unfolding budget_hold over_budget unmetered_hold
spent_is_held = refl

budget_hold_iff_example :
    let hold = budget_hold (some budgets) spent spent_more in
    ((is_some hold ≡ true) ↔ (
      Exhausted spent_more budgets.global_daily
      ⊎ (Exhausted spent budgets.per_agent_daily ⊎ Unreported budgets spent)))
    × ((holds_everyone hold ≡ true) ↔ Exhausted spent_more budgets.global_daily)
    × (budget_hold none spent spent_more ≡ none)
budget_hold_iff_example = budget_hold_iff budgets spent spent_more

budget_hold_monotone_example : is_some (budget_hold (some budgets) spent_more spent_more) ≡ true
budget_hold_monotone_example =
    budget_hold_monotone budgets spent spent_more spent spent_more
      (omega arith, (omega arith, omega arith)) (omega arith, (omega arith, omega arith))
      spent_is_held

metadata_service : blocked_address_reason (version_4 (ipv4 169 254 169 254)) ≡ some "link-local"
unfolding blocked_address_reason ipv4_blocked_reason first_blocked ipv4_blocked_ranges
metadata_service = refl

is_public_address_iff_example :
    (is_public_address (version_4 (ipv4 8 8 8 8)) ≡ true) ↔ IsPublicHost (version_4 (ipv4 8 8 8 8))
is_public_address_iff_example = is_public_address_iff (version_4 (ipv4 8 8 8 8)) (omega arith)
