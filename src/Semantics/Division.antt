-- ===== src/Semantics/Division.antt =====
-- DIVU and REMU: quotient and remainder belong together.
use native.Mathlib.Nat.{div-add-mod'}
use rremu.Base.{ℕ, ◌-◌, ◌^◌, ◌<◌, ◌≡◌, ◌⊎◌, add64, mul64, arith}
use rremu.Isa.Multiply.{div_uint, rem_uint}

-- For a 64-bit dividend, quotient times divisor plus remainder is the dividend, and the remainder
-- is below the divisor; for a divisor of 0 the first holds too, and the quotient has all bits set.
pub div_uint-rem_uint :
    (a b : ℕ)
    → a < 2 ^ 64
    → (add64 (mul64 (div_uint a b) b) (rem_uint a b) ≡ a)
      × (((b ≡ 0) × (div_uint a b ≡ 2 ^ 64 - 1)) ⊎ (rem_uint a b < b))
unfolding div_uint rem_uint
div_uint-rem_uint a b h = ground (arith, div-add-mod' a b)
