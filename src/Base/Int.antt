-- ===== src/Base/Int.antt =====
-- C++ signed integers: the value of a bit pattern, the pattern of a value, `<`, `/` and `%`.
use Prim.Native.Nat.{ℕ, zero, suc, ◌-◌, ◌/◌, ◌%◌, ◌^◌}
use mathlib.Core.Bool.{Bool, true, false}
use rremu.Base.Tests.{ltb, ◌==◌, if◌then◌else◌}

-- `negsuc n` is -(n + 1).
pub data ℤ : Type 0 where
  pos : ℕ → ℤ
  negsuc : ℕ → ℤ

-- `static_cast<int64_t>` of a `uint64_t`, and `static_cast<int32_t>`
abbrev pub int64 : ℕ → ℤ
int64 x = if ltb x (2 ^ 63) then pos x else negsuc (2 ^ 64 - 1 - x)

abbrev pub int32 : ℕ → ℤ
int32 x = let y = x % 2 ^ 32 in if ltb y (2 ^ 31) then pos y else negsuc (2 ^ 32 - 1 - y)

-- a signed value converted to `uint64_t`
abbrev pub u64_of_ℤ : ℤ → ℕ
u64_of_ℤ (pos n) = n % 2 ^ 64
u64_of_ℤ (negsuc n) = 2 ^ 64 - 1 - n % 2 ^ 64

abbrev pub ltb_ℤ : ℤ → ℤ → Bool
ltb_ℤ (pos a) (pos b) = ltb a b
ltb_ℤ (pos a) (negsuc b) = false
ltb_ℤ (negsuc a) (pos b) = true
ltb_ℤ (negsuc a) (negsuc b) = ltb b a

abbrev pub neg : ℕ → ℤ
neg zero = pos 0
neg (suc n) = negsuc n

-- `/` and `%` on signed integers: the quotient is cut off towards 0.
abbrev pub quot_ℤ : ℤ → ℤ → ℤ
quot_ℤ (pos a) (pos b) = pos (a / b)
quot_ℤ (pos a) (negsuc b) = neg (a / suc b)
quot_ℤ (negsuc a) (pos b) = neg (suc a / b)
quot_ℤ (negsuc a) (negsuc b) = pos (suc a / suc b)

abbrev pub rem_ℤ : ℤ → ℤ → ℤ
rem_ℤ (pos a) (pos b) = pos (a % b)
rem_ℤ (pos a) (negsuc b) = pos (a % suc b)
rem_ℤ (negsuc a) (pos b) = neg (suc a % b)
rem_ℤ (negsuc a) (negsuc b) = neg (suc a % suc b)

infix 50 ◌==ℤ◌
abbrev pub ◌==ℤ◌ : ℤ → ℤ → Bool
pos a ==ℤ pos b = a == b
pos a ==ℤ negsuc b = false
negsuc a ==ℤ pos b = false
negsuc a ==ℤ negsuc b = a == b
