-- ===== src/Base/Ints.antt =====
-- Go's int and time.Duration, where the program looks whether they are positive.
use Prim.Native.Nat.{ℕ}
use mathlib.Core.Bool.{Bool, false}
use opusref.Base.Tests.{◌==◌, if◌then◌else◌, ltb}

-- `negsuc n` is -(n + 1).
pub data ℤ : Type 0 where
  pos negsuc : ℕ → ℤ

-- `value <= 0`, the other way round.
abbrev pub is_positive : ℤ → Bool
is_positive (pos n) = ltb 0 n
is_positive (negsuc n) = false

-- `if value == 0 { value = fallback }`.
abbrev pub or_else : ℤ → ℕ → ℤ
or_else (pos n) fallback = if n == 0 then pos fallback else pos n
or_else (negsuc n) fallback = negsuc n

-- The capacity of make(chan T, value), which panics below 0.
abbrev pub capacity : ℤ → ℕ
capacity (pos n) = n
capacity (negsuc n) = 0
