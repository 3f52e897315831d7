-- ===== src/Invariant/Entries/Multiply.antt =====
-- The entries of the table: multiplication and division.
use rremu.Base.{u32, arith}
use rremu.Base.Int.{int64, int32}
use rremu.Isa.Multiply.{
  mul, mulh, mulhsu, mulhu, mulw, div, divu, rem, remu, divw, divuw, remw, remuw, int64_min,
  int32_min,
}
use rremu.Invariant.Shapes.{Preserves, reg_reg-Preserves}
use rremu.Invariant.Operations.{div_int-Closed, div_uint-Closed, rem_int-Closed, rem_uint-Closed}

pub mul-Preserves : Preserves mul.execute
unfolding mul
mul-Preserves = reg_reg-Preserves (λ a b _ _. omega arith)

pub mulh-Preserves : Preserves mulh.execute
unfolding mulh
mulh-Preserves = reg_reg-Preserves (λ a b _ _. omega arith)

pub mulhsu-Preserves : Preserves mulhsu.execute
unfolding mulhsu
mulhsu-Preserves = reg_reg-Preserves (λ a b _ _. omega arith)

pub mulhu-Preserves : Preserves mulhu.execute
unfolding mulhu
mulhu-Preserves = reg_reg-Preserves (λ a b _ _. omega arith)

pub mulw-Preserves : Preserves mulw.execute
unfolding mulw
mulw-Preserves = reg_reg-Preserves (λ a b _ _. omega arith)

pub div-Preserves : Preserves div.execute
unfolding div
div-Preserves = reg_reg-Preserves (div_int-Closed int64 int64_min)

pub divu-Preserves : Preserves divu.execute
unfolding divu
divu-Preserves = reg_reg-Preserves div_uint-Closed

pub rem-Preserves : Preserves rem.execute
unfolding rem
rem-Preserves = reg_reg-Preserves (rem_int-Closed int64 int64_min)

pub remu-Preserves : Preserves remu.execute
unfolding remu
remu-Preserves = reg_reg-Preserves rem_uint-Closed

pub divw-Preserves : Preserves divw.execute
unfolding divw
divw-Preserves = reg_reg-Preserves (div_int-Closed int32 int32_min)

pub divuw-Preserves : Preserves divuw.execute
unfolding divuw
divuw-Preserves =
    reg_reg-Preserves (λ a b _ _. div_uint-Closed (u32 a) (u32 b) (omega arith) (omega arith))

pub remw-Preserves : Preserves remw.execute
unfolding remw
remw-Preserves = reg_reg-Preserves (rem_int-Closed int32 int32_min)

pub remuw-Preserves : Preserves remuw.execute
unfolding remuw
remuw-Preserves =
    reg_reg-Preserves (λ a b _ _. rem_uint-Closed (u32 a) (u32 b) (omega arith) (omega arith))
