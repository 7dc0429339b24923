-- ===== src/Common/Int.antt =====
-- Integers as the code's `int` and `time.Duration` arguments, and the 64-bit counters.
use Prim.Native.Nat.{ℕ, ◌+◌, ◌-◌, ◌%◌, ◌^◌, min}
use mathlib.Core.Bool.{Bool}
use gh_aw_mcpg.Common.Tests.{leb, if◌then◌else◌}

-- `negsuc n` is -(n + 1).
pub data ℤ : Type 0 where
  pos : ℕ → ℤ
  negsuc : ℕ → ℤ

-- `if x <= 0 { x = default }`, as the positive number that is left
abbrev pub positive_or : ℕ → ℤ → ℕ
positive_or default (pos n) = if leb n 0 then default else n
positive_or default (negsuc n) = default

-- `n++` on the bit pattern of a 64-bit `int`
abbrev pub inc64 : ℕ → ℕ
inc64 n = (n + 1) % 2 ^ 64

-- `a <= b` on bit patterns of a 64-bit `int`: a pattern from 2^63 on is negative.
abbrev pub leb64 : ℕ → ℕ → Bool
leb64 a b = leb ((a + 2 ^ 63) % 2 ^ 64) ((b + 2 ^ 63) % 2 ^ 64)

-- `a.Sub(b)` of two instants: it saturates at the largest `time.Duration`, and is taken as 0 where
-- it is negative.
abbrev pub sub_time : ℕ → ℕ → ℕ
sub_time a b = min (a - b) (2 ^ 63 - 1)
