-- ===== src/Outbox/Backoff.antt =====
-- retryDelaySeconds of packages/outbox/src/deliver.ts.
use native.Mathlib.Nat.{pow-suc}
use agent_gateway_control.Prelude.{ℕ, zero, suc, ◌-◌, ◌*◌, ◌^◌, ◌≤◌, min, ◌≡◌, ap, arith}

-- `Math.max(0, attempts - 1)` is the subtraction that stops at 0.
unfoldable pub retry_delay_seconds : ℕ → ℕ
retry_delay_seconds attempts = min 300 (5 * 2 ^ (attempts - 1))

pub pow_pos : (n : ℕ) → 1 ≤ 2 ^ n
pow_pos zero = omega arith
pow_pos (suc n) = omega (arith, pow-suc 2 n, pow_pos n)

retry_delay_bounds : (n : ℕ) → (5 ≤ retry_delay_seconds n) × (retry_delay_seconds n ≤ 300)
unfolding retry_delay_seconds
retry_delay_bounds n = omega (arith, pow_pos (n - 1))

retry_delay-suc : (n : ℕ) → retry_delay_seconds (suc n) ≡ min 300 (5 * 2 ^ n)
unfolding retry_delay_seconds
retry_delay-suc n = ap (λ (k : ℕ). min 300 (5 * 2 ^ k)) (omega arith)

-- The delays are 5 s for the first failure, then twice the one before, up to 300 s; so they lie
-- between 5 s and 300 s.
pub retry_delay_lem :
    (n : ℕ)
    → (retry_delay_seconds 1 ≡ 5)
      × (retry_delay_seconds (suc (suc n)) ≡ min 300 (2 * retry_delay_seconds (suc n)))
      × (5 ≤ retry_delay_seconds n)
      × (retry_delay_seconds n ≤ 300)
retry_delay_lem n = (
  retry_delay-suc 0,
  omega (arith, retry_delay-suc n, retry_delay-suc (suc n), pow-suc 2 n),
  (retry_delay_bounds n).0,
  (retry_delay_bounds n).1,
)
