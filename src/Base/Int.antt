-- ===== src/Base/Int.antt =====
-- Signed integers over the native numbers, and the conversions of Go that wrap.
use Prim.Native.Nat.{ℕ, ◌+◌, ◌-◌, ◌%◌, ◌<◌}
use mathlib.Core.Path.{◌≡◌}
use mathlib.Core.Bool.{Bool, true, false}
use native.Mathlib.Omega.{arith}
use package.go_signalium.Base.Tests.{ltb, leb, if◌then◌else◌}

-- `negsuc n` is -(n + 1).
pub data ℤ : Type 0 where
  pos : ℕ → ℤ
  negsuc : ℕ → ℤ

-- 0 < z
abbrev pub is_positive : ℤ → Bool
is_positive (pos n) = ltb 0 n
is_positive (negsuc n) = false

-- z < 0
abbrev pub is_negative : ℤ → Bool
is_negative (pos n) = false
is_negative (negsuc n) = true

-- z ≤ n
abbrev pub leb_ℕ : ℤ → ℕ → Bool
leb_ℕ (pos m) n = leb m n
leb_ℕ (negsuc m) n = true

-- The two's-complement reading of the low bits: `half` is 2 ^ (w - 1).
abbrev pub signed : ℕ → ℕ → ℤ
signed half r = if ltb r half then pos r else negsuc (half + half - r - 1)

-- int32(n) and int64(n) for n ≥ 0.
unfoldable pub int32 : ℕ → ℤ
int32 n = signed 2147483648 (n % 4294967296)

-- int32(z)
unfoldable pub int32_of : ℤ → ℤ
unfolding int32
int32_of (pos n) = int32 n
int32_of (negsuc n) = signed 2147483648 (4294967295 - n % 4294967296)

unfoldable pub int64 : ℕ → ℤ
int64 n = signed 9223372036854775808 (n % 18446744073709551616)

pub int32_small : (n : ℕ) → n < 2147483648 → int32 n ≡ pos n
unfolding int32
int32_small n h = ground arith

pub int64_small : (n : ℕ) → n < 9223372036854775808 → int64 n ≡ pos n
unfolding int64
int64_small n h = ground arith
