-- ===== src/Worker/Consumer/Backoff.antt =====
-- The waits before a retry, in services/order-worker/consumer/consumer.go.
use native.Mathlib.Nat.{pow-le-pow_right}
use ticketer.Base.{ℕ, ◌*◌, ◌^◌, ◌≤◌, ◌<◌, some, ◌≡◌, ap, arith, pos, ◌*ℤ◌, wrap64, wrap64_small}
use ticketer.Worker.Consumer.{backoff}

pos_mul : (a b : ℕ) → pos a *ℤ pos b ≡ pos (a * b)
unfolding ◌*ℤ◌
pos_mul a b = ground arith

fits : (n : ℕ) → n < 2 ^ 63 → wrap64 (pos n) ≡ pos n
fits n h = wrap64_small (pos n) (omega arith, omega arith)

steps :
    (p : ℕ)
    → p ≤ 2 ^ 34
    → wrap64 (wrap64 (pos 500 *ℤ wrap64 (pos p)) *ℤ pos 1000000) ≡ pos (500000000 * p)
steps p h =
    rw
      (
        fits p (omega arith),
        pos_mul 500 p,
        fits (500 * p) (omega arith),
        pos_mul (500 * p) 1000000,
        fits (500 * p * 1000000) (omega arith),
      )
      (ap pos (omega arith))

below : (n : ℕ) → n < 35 → 2 ^ n ≤ 2 ^ 34
below n h = let l : n ≤ 34 = omega arith in pow-le-pow_right (omega arith) l

-- For a count of attempts below 35, the wait before a retry is exactly 500 ms, in nanoseconds,
-- times 2 to that count: none of the 64-bit operations wraps around.
pub backoff_exact : (n : ℕ) → n < 35 → backoff (pos n) ≡ some (pos (500000000 * 2 ^ n))
unfolding backoff
backoff_exact n h = ap some (steps (2 ^ n) (below n h))
