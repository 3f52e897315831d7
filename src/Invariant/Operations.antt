-- ===== src/Invariant/Operations.antt =====
-- The operations of the instructions give words.
use native.Mathlib.Nat.{div-le_self, mod-le}
use rremu.Base.{
  sext8, sext16, sext32, if◌then◌else◌, ◌==◌, ◌&&◌, ℕ, ◌^◌, bit_or, bit_xor, shl64, ◌>>>◌, arith,
}
use rremu.Base.Int.{ℤ, pos, negsuc, u64_of_ℤ, quot_ℤ, rem_ℤ, ◌==ℤ◌}
use rremu.Bits.{bit_or-lt, bit_xor-lt}
use rremu.Isa.Multiply.{div_int, rem_int, div_uint, rem_uint}
use rremu.Invariant.Logic.{both}
use rremu.Invariant.Memory.{IsWord}
use rremu.Invariant.Shapes.{Closed, ShiftClosed}

pub sext8-IsWord : (x : ℕ) → IsWord (sext8 x)
sext8-IsWord x = ground arith

pub sext16-IsWord : (x : ℕ) → IsWord (sext16 x)
sext16-IsWord x = ground arith

pub sext32-IsWord : (x : ℕ) → IsWord (sext32 x)
sext32-IsWord x = ground arith

pub bit_or-Closed : Closed bit_or
bit_or-Closed a b p q = bit_or-lt 64 a b p q

pub bit_xor-Closed : Closed bit_xor
bit_xor-Closed a b p q = bit_xor-lt 64 a b p q

pub shr-ShiftClosed : ShiftClosed (λ a k. a >>> k)
shr-ShiftClosed a k h = omega (arith, div-le_self a (2 ^ k))

pub shl64-ShiftClosed : ShiftClosed shl64
shl64-ShiftClosed a k h = omega arith

u64_of_ℤ-IsWord : (z : ℤ) → IsWord (u64_of_ℤ z)
u64_of_ℤ-IsWord (pos n) = omega arith
u64_of_ℤ-IsWord (negsuc n) = omega arith

-- What DIV and REM have in common: three cases, by the divisor and by overflow.
three_cases :
    (cast : ℕ → ℤ) (least : ℤ) (a b : ℕ) {x y z : ℕ}
    → IsWord x
    → IsWord y
    → IsWord z
    → IsWord
        (if cast b ==ℤ pos 0 then x else if cast a ==ℤ least && cast b ==ℤ negsuc 0 then y else z)
three_cases cast least a b p q r =
    both IsWord (cast b ==ℤ pos 0) p (both IsWord (cast a ==ℤ least && cast b ==ℤ negsuc 0) q r)

pub div_int-Closed : (cast : ℕ → ℤ) (least : ℤ) → Closed (div_int cast least)
unfolding div_int
div_int-Closed cast least a b p q =
    three_cases cast least a b (u64_of_ℤ-IsWord (negsuc 0)) (u64_of_ℤ-IsWord (cast a))
      (u64_of_ℤ-IsWord (quot_ℤ (cast a) (cast b)))

pub rem_int-Closed : (cast : ℕ → ℤ) (least : ℤ) → Closed (rem_int cast least)
unfolding rem_int
rem_int-Closed cast least a b p q =
    three_cases cast least a b {y = 0} (u64_of_ℤ-IsWord (cast a)) (omega arith)
      (u64_of_ℤ-IsWord (rem_ℤ (cast a) (cast b)))

pub div_uint-Closed : Closed div_uint
unfolding div_uint
div_uint-Closed a b p q =
    both IsWord (b == 0) (u64_of_ℤ-IsWord (negsuc 0)) (omega (arith, div-le_self a b))

pub rem_uint-Closed : Closed rem_uint
unfolding rem_uint
rem_uint-Closed a b p q = both IsWord (b == 0) p (omega (arith, mod-le a b))
