-- ===== src/Workflow/State/Delay.antt =====
-- The backoff of `RetryDelay`.
use run_mesh.Base.{ℕ, zero, suc, ◌-◌, ◌*◌, ◌^◌, ◌≤◌, ◌<◌, min, ◌≡◌, arith}
use run_mesh.Workflow.State.{retry_delay, second}
use native.Mathlib.Nat.{pow-suc}

pow_pos : (n : ℕ) → 0 < 2 ^ n
pow_pos zero = omega arith
pow_pos (suc n) = omega (arith, pow-suc 2 n, pow_pos n)

-- A delay is at least two seconds and at most an hour.
retry_delay_bounds :
    (attempt : ℕ) → (2 * second ≤ retry_delay attempt) × (retry_delay attempt ≤ 3600 * second)
unfolding retry_delay
retry_delay_bounds attempt = ground (arith, pow_pos (attempt - 1), pow_pos 0)

-- The next delay is twice the delay before, up to an hour.
retry_delay_doubles :
    (attempt : ℕ)
    → retry_delay (suc (suc attempt)) ≡ min (3600 * second) (2 * retry_delay (suc attempt))
unfolding retry_delay
retry_delay_doubles attempt = ground (arith, pow-suc 2 attempt)
