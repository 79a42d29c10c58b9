-- ===== src/Service/Backoff.antt =====
-- internal/service/backoff.go: exponential backoff with full jitter.
use go_signalium.Base.{
  ℕ, ◌-◌, ◌*◌, ◌/◌, ◌^◌, ◌≤◌, ◌<◌, ◌≡◌, Bool, false, arith, ltb, ◌==◌, if◌then◌else◌, if_elim,
}

-- float64 as Go documents it: a value is a bit pattern, and the operations are the hardware's.
-- `draw` is what rand.Float64 returned. `trunc_le` says that the truncation of a number that is not
-- above n is at most n, for the integers that a float64 holds exactly.
pub record Float64 : Type 0 where
  pub of_int : ℕ → ℕ
  pub mul : ℕ → ℕ → ℕ
  pub pow : ℕ → ℕ → ℕ
  pub gt : ℕ → ℕ → Bool
  pub trunc : ℕ → ℕ
  pub trunc_le : (x n : ℕ) → n < 2 ^ 53 → gt x (of_int n) ≡ false → trunc x ≤ n

-- rand() * base * 2^(attempts-1)
unfoldable pub full_jitter : Float64 → ℕ → ℕ → ℕ → ℕ
full_jitter f draw attempts base =
    f.mul draw (f.mul (f.of_int base) (f.pow (f.of_int 2) (f.of_int (attempts - 1))))

unfoldable pub capped : Float64 → ℕ → ℕ → ℕ
capped f jitter max = if f.gt jitter (f.of_int max) then max else f.trunc jitter

-- Backoff; durations are in nanoseconds, and `attempts` is never negative here.
unfoldable pub backoff : Float64 → ℕ → ℕ → ℕ → ℕ → ℕ
backoff f draw attempts base max =
    if attempts == 0 then 0 else capped f (full_jitter f draw attempts base) max

capped-le : (f : Float64) (jitter max : ℕ) → max < 2 ^ 53 → capped f jitter max ≤ max
unfolding capped
capped-le f jitter max h =
    if_elim (λ d. d ≤ max) (f.gt jitter (f.of_int max)) max (f.trunc jitter) (λ _. omega arith)
      (λ e. f.trunc_le jitter max h e)

-- No row is scheduled past the ceiling, whatever the number of attempts and the draw, for ceilings of
-- less than 2 ^ 53 ns (104 days).
pub backoff-le-max :
    (f : Float64) (draw attempts base max : ℕ)
    → max < 2 ^ 53
    → backoff f draw attempts base max ≤ max
unfolding backoff
backoff-le-max f draw attempts base max h =
    if_elim (λ d. d ≤ max) (attempts == 0) 0 (capped f (full_jitter f draw attempts base) max)
      (λ _. omega arith) (λ _. capped-le f (full_jitter f draw attempts base) max h)

pub fixed_point_le :
    (x n : ℕ) → n < 2 ^ 53 → ltb (n * 9007199254740992) x ≡ false → x / 9007199254740992 ≤ n
fixed_point_le x n h e = ground arith

-- Numbers in units of 2 ^ -53, truncated: an arithmetic that meets the law.
abbrev pub fixed_point : Float64
fixed_point = record {
  of_int = λ n. n * 9007199254740992;
  mul = λ a b. a * b / 9007199254740992;
  pow = λ a b. (a / 9007199254740992) ^ (b / 9007199254740992) * 9007199254740992;
  gt = λ a b. ltb b a;
  trunc = λ x. x / 9007199254740992;
  trunc_le = fixed_point_le;
}
