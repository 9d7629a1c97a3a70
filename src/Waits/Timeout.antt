-- ===== src/Waits/Timeout.antt =====
-- clampWaitTimeout of packages/core/src/waits.ts.
use agent_gateway_control.Prelude.{ℕ, ◌+◌, ◌*◌, ◌≤◌, min, max, ◌≡◌, arith}

abbrev pub max_wait_seconds : ℕ
max_wait_seconds = 7 * 24 * 3600

abbrev pub min_wait_seconds : ℕ
min_wait_seconds = 60

unfoldable pub clamp_wait_timeout : ℕ → ℕ → ℕ
clamp_wait_timeout requested now =
    let low = now + min_wait_seconds * 1000 in
    let high = now + max_wait_seconds * 1000 in min high (max low requested)

-- The clamped timeout lies between a minute and seven days from now, is the requested one where that
-- lies there, never moves backwards when a later one is requested, and clamping it again at the same
-- moment changes nothing.
pub clamp_wait_timeout_lem :
    (requested later now : ℕ)
    → let clamped = clamp_wait_timeout requested now in
      (now + 60 * 1000 ≤ clamped)
      × (clamped ≤ now + 7 * 24 * 3600 * 1000)
      × (now + 60 * 1000 ≤ requested → requested ≤ now + 7 * 24 * 3600 * 1000 → clamped ≡ requested)
      × (requested ≤ later → clamped ≤ clamp_wait_timeout later now)
      × (clamp_wait_timeout clamped now ≡ clamped)
unfolding clamp_wait_timeout
clamp_wait_timeout_lem requested later now =
    (omega arith, omega arith, λ a b. omega arith, λ a. omega arith, omega arith)
