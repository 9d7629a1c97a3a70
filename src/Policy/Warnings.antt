-- ===== src/Policy/Warnings.antt =====
-- budgetPressure of packages/policy/src/budget.ts.
use native.Mathlib.Nat.{mul-le-mul_right, le_of_mul-le-mul_right}
use agent_gateway_control.Prelude.{
  ℕ, ◌*◌, ◌≤◌, ◌<◌, ◌≡◌, ◌↔◌, ◌⊎◌, true, Option, none, some, ◌++◌, is_some, arith,
}
use agent_gateway_control.Policy.Budget.{
  UsageTotals, DailyBudget, share_of, top_share, warned, budget_pressure,
}

-- At least four fifths of the limit, where a positive one is set.
abbrev pub NearLimit : ℕ → Option ℕ → Type 0
NearLimit amount none = ⊥
NearLimit amount (some limit) = (0 < limit) × (limit * 8 ≤ amount * 10)

-- Cross products: a is no smaller a share than b.
near-carries : (a m b n : ℕ) → 0 < n → b * m ≤ a * n → n * 8 ≤ b * 10 → m * 8 ≤ a * 10
near-carries a m b n pos le near =
    le_of_mul-le-mul_right {m = m * 8} {n = a * 10} {k = n} (omega (arith, mul-le-mul_right m near))
      pos

pressure_iff :
    (cost tokens : ℕ) (cost_limit token_limit : Option ℕ)
    → (is_some (warned (top_share (share_of cost cost_limit ++ share_of tokens token_limit)))
        ≡ true)
      ↔ (NearLimit cost cost_limit ⊎ NearLimit tokens token_limit)
pressure_iff cost tokens none none = ground arith
pressure_iff cost tokens (some m) none = ground arith
pressure_iff cost tokens none (some n) = ground arith
pressure_iff cost tokens (some m) (some n) =
    ground (arith, near-carries cost m tokens n, near-carries tokens n cost m)

-- A warning is given exactly when a metric has come up to four fifths of its positive limit.
pub budget_pressure_iff :
    (totals : UsageTotals) (budget : DailyBudget)
    → (is_some (budget_pressure totals (some budget)) ≡ true)
      ↔ (NearLimit totals.cost_usd budget.cost_usd ⊎ NearLimit totals.tokens budget.tokens)
unfolding budget_pressure
budget_pressure_iff totals budget =
    pressure_iff totals.cost_usd totals.tokens budget.cost_usd budget.tokens
