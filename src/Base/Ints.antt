-- ===== src/Base/Ints.antt =====
-- Signed integers over the native numbers, as the values of the C `int` and the Java `int`.
use Prim.Native.Nat.{ℕ, zero, suc, ◌+◌, ◌-◌, ◌^◌, ◌%◌, ◌<◌, ◌≤◌}
use mathlib.Core.Path.{◌≡◌}
use mathlib.Core.Bool.{Bool, true, false}
use native.Mathlib.Omega.{arith}
use my_toolbox.Base.Tests.{ltb, leb, if◌then◌else◌}

-- `negsuc n` is -(n + 1).
pub data ℤ : Type 0 where
  pos : ℕ → ℤ
  negsuc : ℕ → ℤ

-- `x < n` for a bound that is not negative.
abbrev pub lt_nat : ℤ → ℕ → Bool
lt_nat (pos m) n = ltb m n
lt_nat (negsuc m) n = true

-- `n < x`
abbrev pub gt_nat : ℤ → ℕ → Bool
gt_nat (pos m) n = ltb n m
gt_nat (negsuc m) n = false

-- The value where it is not negative; 0 otherwise.
abbrev pub pos_part : ℤ → ℕ
pos_part (pos n) = n
pos_part (negsuc n) = 0

-- The range of a 32-bit `int`.
abbrev pub IsInt32 : ℤ → Type 0
IsInt32 (pos n) = n < 2 ^ 31
IsInt32 (negsuc n) = n < 2 ^ 31

abbrev pub is_int32 : ℤ → Bool
is_int32 (pos n) = ltb n (2 ^ 31)
is_int32 (negsuc n) = ltb n (2 ^ 31)

-- `m - n`
abbrev pub sub_nat : ℕ → ℕ → ℤ
sub_nat m n = if leb n m then pos (m - n) else negsuc ((n - m) - 1)

abbrev pub add : ℤ → ℤ → ℤ
add (pos a) (pos b) = pos (a + b)
add (pos a) (negsuc b) = sub_nat a (suc b)
add (negsuc a) (pos b) = sub_nat b (suc a)
add (negsuc a) (negsuc b) = negsuc (suc (a + b))

abbrev pub neg : ℤ → ℤ
neg (pos zero) = pos 0
neg (pos (suc n)) = negsuc n
neg (negsuc n) = pos (suc n)

abbrev pub sub : ℤ → ℤ → ℤ
sub a b = add a (neg b)

-- `x < y`
abbrev pub Below : ℤ → ℤ → Type 0
Below (pos m) (pos n) = m < n
Below (pos m) (negsuc n) = 1 < 0
Below (negsuc m) (pos n) = 0 < 1
Below (negsuc m) (negsuc n) = n < m

-- `x ≤ y`
abbrev pub AtMost : ℤ → ℤ → Type 0
AtMost (pos m) (pos n) = m ≤ n
AtMost (pos m) (negsuc n) = 1 < 0
AtMost (negsuc m) (pos n) = 0 < 1
AtMost (negsuc m) (negsuc n) = n ≤ m

-- The conversion `(uint32_t) x`.
abbrev pub to_u32 : ℤ → ℕ
to_u32 (pos n) = n % 2 ^ 32
to_u32 (negsuc n) = (2 ^ 32 - 1) - n % 2 ^ 32

-- The conversion `(jint) x` of a `uint32_t`, in two's complement.
abbrev pub of_u32 : ℕ → ℤ
of_u32 n = if ltb n (2 ^ 31) then pos n else negsuc ((2 ^ 32 - 1) - n)

pub of_u32-to_u32 : (x : ℤ) → IsInt32 x → of_u32 (to_u32 x) ≡ x
of_u32-to_u32 (pos n) h = ground arith
of_u32-to_u32 (negsuc n) h = ground arith

pub to_u32-lt : (x : ℤ) → to_u32 x < 2 ^ 32
to_u32-lt (pos n) = omega arith
to_u32-lt (negsuc n) = omega arith

-- The conversion `(int) x` of a 64-bit `size_t`.
abbrev pub as_int : ℕ → ℤ
as_int n = of_u32 (n % 2 ^ 32)

pub as_int_small : (n : ℕ) → n < 2 ^ 31 → as_int n ≡ pos n
as_int_small n h = ground arith
