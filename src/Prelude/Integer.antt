-- ===== src/Prelude/Integer.antt =====
-- Signed machine integers of the program, with their readers and writers.
use Prim.Native.Nat.{ℕ, zero, suc, ◌+◌, ◌-◌, ◌*◌, ◌/◌, ◌%◌, ◌^◌}
use mathlib.Core.Bool.{Bool, true, false}
use mathlib.Core.Option.{Option, none, some}
use proxy_watch.Prelude.Tests.{ltb, leb, ◌==◌, if◌then◌else◌}

pub data ℤ : Type 0 where
  pos : ℕ → ℤ
  -- `negsuc n` is `-(n + 1)`
  negsuc : ℕ → ℤ

abbrev pub is_zero : ℤ → Bool
is_zero (pos zero) = true
is_zero (pos (suc n)) = false
is_zero (negsuc n) = false

-- `T::try_from`, for an unsigned type that holds the numbers below the bound.
abbrev pub try_unsigned : ℕ → ℤ → Option ℕ
try_unsigned bound (pos n) = if ltb n bound then some n else none
try_unsigned bound (negsuc n) = none

-- The negation of a number, if it is at least the least number of 64 bits.
abbrev pub negate64 : ℕ → Option ℤ
negate64 zero = some (pos 0)
negate64 (suc n) = if ltb n (2 ^ 63) then some (negsuc n) else none

-- `a - b` of two unsigned numbers.
abbrev pub difference : ℕ → ℕ → ℤ
difference a b = if ltb a b then negsuc (b - a - 1) else pos (a - b)

infixl 60 ◌+ℤ◌ ◌-ℤ◌
abbrev pub ◌+ℤ◌ : ℤ → ℤ → ℤ
pos a +ℤ pos b = pos (a + b)
pos a +ℤ negsuc b = difference a (b + 1)
negsuc a +ℤ pos b = difference b (a + 1)
negsuc a +ℤ negsuc b = negsuc (a + b + 1)

abbrev pub negate : ℤ → ℤ
negate (pos n) = difference 0 n
negate (negsuc n) = pos (n + 1)

abbrev pub ◌-ℤ◌ : ℤ → ℤ → ℤ
a -ℤ b = a +ℤ negate b

-- Products, and quotients that round towards zero, by an unsigned number.
infixl 70 ◌*ℤ◌ ◌/ℤ◌
abbrev pub ◌*ℤ◌ : ℤ → ℕ → ℤ
pos a *ℤ n = pos (a * n)
negsuc a *ℤ n = difference 0 ((a + 1) * n)

abbrev pub ◌/ℤ◌ : ℤ → ℕ → ℤ
pos a /ℤ n = pos (a / n)
negsuc a /ℤ n = difference 0 ((a + 1) / n)

-- `div_euclid` and `rem_euclid`, by a positive number.
abbrev pub div_euclid : ℤ → ℕ → ℤ
div_euclid (pos a) n = pos (a / n)
div_euclid (negsuc a) n = negsuc (a / n)

abbrev pub rem_euclid : ℤ → ℕ → ℕ
rem_euclid (pos a) n = a % n
rem_euclid (negsuc a) n = n - 1 - a % n

abbrev pub le_int : ℤ → ℤ → Bool
le_int (pos a) (pos b) = leb a b
le_int (pos a) (negsuc b) = false
le_int (negsuc a) (pos b) = true
le_int (negsuc a) (negsuc b) = leb b a

abbrev pub eq_int : ℤ → ℤ → Bool
eq_int (pos a) (pos b) = a == b
eq_int (pos a) (negsuc b) = false
eq_int (negsuc a) (pos b) = false
eq_int (negsuc a) (negsuc b) = a == b

-- The arithmetic of 64 bits that reports an overflow, and the one that stops at the ends.
abbrev pub checked64 : ℤ → Option ℤ
checked64 (pos n) = if ltb n (2 ^ 63) then some (pos n) else none
checked64 (negsuc n) = if ltb n (2 ^ 63) then some (negsuc n) else none

abbrev pub saturating64 : ℤ → ℤ
saturating64 (pos n) = if ltb n (2 ^ 63) then pos n else pos (2 ^ 63 - 1)
saturating64 (negsuc n) = if ltb n (2 ^ 63) then negsuc n else negsuc (2 ^ 63 - 1)
