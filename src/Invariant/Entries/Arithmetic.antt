-- ===== src/Invariant/Entries/Arithmetic.antt =====
-- The entries of the table: two registers.
use rremu.Base.{arith}
use rremu.Isa.Arithmetic.{
  add, sub, sll, slt, sltu, xor, srl, sra, or, and, addw, subw, sllw, srlw, sraw,
}
use rremu.Invariant.Operations.{bit_or-Closed, bit_xor-Closed, shl64-ShiftClosed, shr-ShiftClosed}
use rremu.Invariant.Shapes.{Preserves, reg_reg-Preserves, shift_reg-Preserves}
use rremu.Invariant.Registers.{and-IsWord}

pub add-Preserves : Preserves add.execute
unfolding add
add-Preserves = reg_reg-Preserves (λ a b _ _. omega arith)

pub sub-Preserves : Preserves sub.execute
unfolding sub
sub-Preserves = reg_reg-Preserves (λ a b _ _. omega arith)

pub sll-Preserves : Preserves sll.execute
unfolding sll
sll-Preserves = shift_reg-Preserves shl64-ShiftClosed

pub slt-Preserves : Preserves slt.execute
unfolding slt
slt-Preserves = reg_reg-Preserves (λ a b _ _. ground arith)

pub sltu-Preserves : Preserves sltu.execute
unfolding sltu
sltu-Preserves = reg_reg-Preserves (λ a b _ _. ground arith)

pub xor-Preserves : Preserves xor.execute
unfolding xor
xor-Preserves = reg_reg-Preserves bit_xor-Closed

pub srl-Preserves : Preserves srl.execute
unfolding srl
srl-Preserves = shift_reg-Preserves shr-ShiftClosed

pub sra-Preserves : Preserves sra.execute
unfolding sra
sra-Preserves = shift_reg-Preserves shr-ShiftClosed

pub or-Preserves : Preserves or.execute
unfolding or
or-Preserves = reg_reg-Preserves bit_or-Closed

pub and-Preserves : Preserves and.execute
unfolding and
and-Preserves = reg_reg-Preserves (λ a b h _. and-IsWord a _ h)

pub addw-Preserves : Preserves addw.execute
unfolding addw
addw-Preserves = reg_reg-Preserves (λ a b _ _. omega arith)

pub subw-Preserves : Preserves subw.execute
unfolding subw
subw-Preserves = reg_reg-Preserves (λ a b _ _. omega arith)

pub sllw-Preserves : Preserves sllw.execute
unfolding sllw
sllw-Preserves = shift_reg-Preserves shl64-ShiftClosed

pub srlw-Preserves : Preserves srlw.execute
unfolding srlw
srlw-Preserves = shift_reg-Preserves shr-ShiftClosed

pub sraw-Preserves : Preserves sraw.execute
unfolding sraw
sraw-Preserves = shift_reg-Preserves shr-ShiftClosed
