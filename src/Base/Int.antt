-- ===== src/Base/Int.antt =====
-- Go's `int` and `int32`, as integers with the wrap-around of a conversion written out.
use Prim.Native.Nat.{ℕ, ◌-◌, ◌%◌, ◌^◌, ◌*◌, ◌+◌, max}
use elastic_env_operator.Base.Tests.{ltb, if◌then◌else◌}

-- `negsuc n` is -(n + 1).
pub data ℤ : Type 0 where
  pos : ℕ → ℤ
  negsuc : ℕ → ℤ

-- The low 32 bits.
abbrev low_bits : ℤ → ℕ
low_bits (pos n) = n % 2 ^ 32
low_bits (negsuc n) = 2 ^ 32 - 1 - n % 2 ^ 32

abbrev signed : ℕ → ℤ
signed m = if ltb m (2 ^ 31) then pos m else negsuc (2 ^ 32 - 1 - m)

-- int32(x)
abbrev pub to_int32 : ℤ → ℤ
to_int32 x = signed (low_bits x)

-- The larger of a number and a natural number, which is a natural number.
abbrev pub max_ℕ : ℤ → ℕ → ℕ
max_ℕ (pos n) m = max n m
max_ℕ (negsuc n) m = m

-- The low 64 bits, and the integer that they stand for.
abbrev low_64_bits : ℤ → ℕ
low_64_bits (pos n) = n % 2 ^ 64
low_64_bits (negsuc n) = 2 ^ 64 - 1 - n % 2 ^ 64

abbrev signed_64 : ℕ → ℤ
signed_64 m = if ltb m (2 ^ 63) then pos m else negsuc (2 ^ 64 - 1 - m)

-- int64(x), of a product that may not fit
abbrev pub to_int64 : ℤ → ℤ
to_int64 x = signed_64 (low_64_bits x)

-- The product with a natural number that is not 0.
abbrev pub times : ℤ → ℕ → ℤ
times (pos n) m = pos (n * m)
times (negsuc n) m = negsuc ((n + 1) * m - 1)
