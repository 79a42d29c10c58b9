-- ===== src/Worker/Pace.antt =====
-- How internal/worker/worker.go paces its goroutines: Run's defaults and the jitter of the tickers.
use go_signalium.Base.{
  ℕ, ◌+◌, ◌-◌, ◌*◌, ◌/◌, ◌≤◌, ◌<◌, ◌≡◌, Option, none, some, ltb, leb, ◌==◌, arith, if◌then◌else◌,
}
use go_signalium.Base.Int.{ℤ, pos, negsuc}

-- PollInterval, or a second, in nanoseconds.
unfoldable pub poll_of : ℤ → ℕ
poll_of (pos n) = if ltb 0 n then n else 1000000000
poll_of (negsuc n) = 1000000000

-- The goroutines that run: one, inline, or as many as are configured.
unfoldable pub goroutines_of : ℤ → ℕ
goroutines_of (pos n) = if leb n 1 then 1 else n
goroutines_of (negsuc n) = 1

-- jitter. rand.Int64N(n) is a draw below n, and panics where n is 0.
unfoldable pub jitter : (ℕ → ℕ) → ℕ → Option ℕ
jitter draw d =
    if d == 0 then some d else if d / 2 == 0 then none else some (d - d / 4 + draw (d / 2))

-- The period of a ticker: within a quarter of the interval on both sides, never zero, and there
-- wherever the interval is not a single nanosecond.
pub record Paced (d : ℕ) (period : ℕ) : Type 0 where
  pub low : 3 * d ≤ 4 * period
  pub high : 4 * period ≤ 5 * d
  pub runs : 0 < period

poll_of-positive : (z : ℤ) → 0 < poll_of z
unfolding poll_of
poll_of-positive (pos n) = ground arith
poll_of-positive (negsuc n) = omega arith

halves : (d : ℕ) → 1 < d → 0 < d / 2
halves d h = omega (arith, h)

-- For a draw below its bound, a worker's ticker has a period, which is positive and lies within a
-- quarter of the poll interval, unless that is one nanosecond.
pub jitter-Paced :
    (draw : ℕ → ℕ) (z : ℤ)
    → ((n : ℕ) → 0 < n → draw n < n)
    → 1 < poll_of z
    → (period : ℕ) × (jitter draw (poll_of z) ≡ some period) × Paced (poll_of z) period
unfolding jitter
jitter-Paced draw z below h =
    let d = poll_of z in
    let k = below (d / 2) (halves d h) in
    (
      d - d / 4 + draw (d / 2),
      ground (arith, halves d h),
      record { low = omega (arith, k); high = omega (arith, k); runs = omega (arith, k, h) },
    )
