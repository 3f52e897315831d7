-- ===== src/Invariant/Entries/Immediate.antt =====
-- The entries of the table: register and immediate.
use rremu.Base.{arith}
use rremu.Isa.Immediate.{
  addi, slti, sltiu, xori, ori, andi, slli, srli, srai, addiw, slliw, srliw, sraiw,
}
use rremu.Isa.{parse_i, parse_r}
use rremu.Invariant.Shapes.{Preserves, reg_imm-Preserves, shift_imm-Preserves}
use rremu.Invariant.Operations.{
  sext32-IsWord, bit_or-Closed, bit_xor-Closed, shl64-ShiftClosed, shr-ShiftClosed,
}
use rremu.Invariant.Registers.{and-IsWord}

pub addi-Preserves : Preserves addi.execute
unfolding addi
addi-Preserves = reg_imm-Preserves (λ a b _ _. omega arith)

pub slti-Preserves : Preserves slti.execute
unfolding slti
slti-Preserves = reg_imm-Preserves (λ a b _ _. ground arith)

pub sltiu-Preserves : Preserves sltiu.execute
unfolding sltiu
sltiu-Preserves = reg_imm-Preserves (λ a b _ _. ground arith)

pub xori-Preserves : Preserves xori.execute
unfolding xori
xori-Preserves = reg_imm-Preserves bit_xor-Closed

pub ori-Preserves : Preserves ori.execute
unfolding ori
ori-Preserves = reg_imm-Preserves bit_or-Closed

pub andi-Preserves : Preserves andi.execute
unfolding andi
andi-Preserves = reg_imm-Preserves (λ a b h _. and-IsWord a _ h)

pub slli-Preserves : Preserves slli.execute
unfolding slli
slli-Preserves = shift_imm-Preserves shl64-ShiftClosed parse_i

pub srli-Preserves : Preserves srli.execute
unfolding srli
srli-Preserves = shift_imm-Preserves shr-ShiftClosed parse_i

pub srai-Preserves : Preserves srai.execute
unfolding srai
srai-Preserves = shift_imm-Preserves shr-ShiftClosed parse_i

pub addiw-Preserves : Preserves addiw.execute
unfolding addiw
addiw-Preserves = reg_imm-Preserves (λ a b _ _. sext32-IsWord _)

pub slliw-Preserves : Preserves slliw.execute
unfolding slliw
slliw-Preserves = shift_imm-Preserves shl64-ShiftClosed parse_r

pub srliw-Preserves : Preserves srliw.execute
unfolding srliw
srliw-Preserves = shift_imm-Preserves shr-ShiftClosed parse_r

pub sraiw-Preserves : Preserves sraiw.execute
unfolding sraiw
sraiw-Preserves = shift_imm-Preserves shr-ShiftClosed parse_r
