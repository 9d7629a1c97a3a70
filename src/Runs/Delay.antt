-- ===== src/Runs/Delay.antt =====
-- The bounds of runRetryDelaySeconds (packages/core/src/outcome.ts).
use native.Mathlib.Nat.{mul-le-mul_left}
use agent_gateway_control.Prelude.{ℕ, ◌+◌, ◌-◌, ◌*◌, ◌/◌, ◌^◌, ◌≤◌, ◌<◌, min, max, arith}
use agent_gateway_control.Outbox.Backoff.{pow_pos}
use agent_gateway_control.Runs.Failure.{random_grain, run_retry_delay_seconds}

-- A jittered and rounded share of the base.
jittered :
    (base random : ℕ)
    → random < 9007199254740992
    → let delay = (base * (9007199254740992 + random) + 9007199254740992) / 18014398509481984 in
      (delay ≤ base) × (base ≤ 2 * delay)
jittered base random small = (
  omega (arith, mul-le-mul_left {m = random} {n = 9007199254740991} base (omega arith)),
  omega arith,
)

at_least_one :
    (base delay : ℕ)
    → 1 ≤ base
    → base ≤ 300
    → delay ≤ base
    → base ≤ 2 * delay
    → (1 ≤ max 1 delay) × ((max 1 delay ≤ base) × ((base ≤ 2 * max 1 delay) × (max 1 delay ≤ 300)))
at_least_one base delay pos small below above = ground arith

-- The delay before the next attempt is at least a second, at most five minutes, and between half of
-- the exponential base and the whole of it, where the base doubles from 5 s with every attempt up to
-- 300 s.
pub run_retry_delay_seconds_lem :
    (attempt random : ℕ)
    → random < random_grain
    → let base = min 300 (5 * 2 ^ (attempt - 1)) in
      let delay = run_retry_delay_seconds attempt random in
      (1 ≤ delay) × ((delay ≤ base) × ((base ≤ 2 * delay) × (delay ≤ 300)))
unfolding run_retry_delay_seconds random_grain
run_retry_delay_seconds_lem attempt random small =
    let base = min 300 (5 * 2 ^ (attempt - 1)) in
    let shares = jittered base random small in
    at_least_one base ((base * (9007199254740992 + random) + 9007199254740992) / 18014398509481984)
      (omega (arith, pow_pos (attempt - 1))) (omega arith) shares.0 shares.1
