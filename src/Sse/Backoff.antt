-- ===== src/Sse/Backoff.antt =====
-- frontend/src/lib/sseBackoff.ts, in milliseconds.
use native.Mathlib.Nat.{pow-suc}
use react_ai_healthycare.Base.{ℕ, zero, suc, ◌*◌, ◌^◌, ◌≡◌, refl, min, max, arith}

abbrev pub retry_reset_delay_ms : ℕ
retry_reset_delay_ms = 1000

abbrev pub retry_floor_ms : ℕ
retry_floor_ms = 5000

abbrev pub retry_max_ms : ℕ
retry_max_ms = 30000

unfoldable pub current_sse_retry_delay_ms : ℕ → ℕ
current_sse_retry_delay_ms delay_ms = max delay_ms retry_floor_ms

unfoldable pub next_sse_retry_delay_ms : ℕ → ℕ
next_sse_retry_delay_ms delay_ms = min (delay_ms * 2) retry_max_ms

-- The delay that the hooks keep after `n` attempts in a row have failed and been retried: each retry
-- waits for the current delay and keeps the next one.
unfoldable pub delay_after : ℕ → ℕ
delay_after zero = retry_reset_delay_ms
delay_after (suc n) = next_sse_retry_delay_ms (current_sse_retry_delay_ms (delay_after n))

-- The wait before retry `n + 1` in a row is 5000 ms doubled `n` times, and never above 30000 ms.
pub retry_delay_lem :
    (n : ℕ) → current_sse_retry_delay_ms (delay_after n) ≡ min (5000 * 2 ^ n) 30000
unfolding current_sse_retry_delay_ms delay_after next_sse_retry_delay_ms
retry_delay_lem zero = refl
retry_delay_lem (suc n) = omega (arith, retry_delay_lem n, pow-suc 2 n)
