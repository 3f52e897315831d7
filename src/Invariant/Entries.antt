-- ===== src/Invariant/Entries.antt =====
-- Every entry of the table keeps the invariant.
mod System
mod Jumps
mod Memory
mod Immediate
mod Arithmetic
mod Multiply
mod Csrs
mod Atomic
use rremu.Base.{List, [], ◌∷◌}
use rremu.Isa.{Instruction, instructions}
use rremu.Invariant.Shapes.{Preserves}
use System.{
  sret-Preserves, mret-Preserves, ecall-Preserves, ebreak-Preserves, fence-Preserves,
  fence_i-Preserves,
}
use Jumps.{
  lui-Preserves, auipc-Preserves, jal-Preserves, jalr-Preserves, beq-Preserves, bne-Preserves,
  blt-Preserves, bge-Preserves, bltu-Preserves, bgeu-Preserves,
}
use Memory.{
  lb-Preserves, lh-Preserves, lw-Preserves, lbu-Preserves, lhu-Preserves, lwu-Preserves,
  ld-Preserves, sb-Preserves, sh-Preserves, sw-Preserves, sd-Preserves, lr_w-Preserves,
  sc_w-Preserves, lr_d-Preserves, sc_d-Preserves,
}
use Immediate.{
  addi-Preserves, slti-Preserves, sltiu-Preserves, xori-Preserves, ori-Preserves, andi-Preserves,
  slli-Preserves, srli-Preserves, srai-Preserves, addiw-Preserves, slliw-Preserves, srliw-Preserves,
  sraiw-Preserves,
}
use Arithmetic.{
  add-Preserves, sub-Preserves, sll-Preserves, slt-Preserves, sltu-Preserves, xor-Preserves,
  srl-Preserves, sra-Preserves, or-Preserves, and-Preserves, addw-Preserves, subw-Preserves,
  sllw-Preserves, srlw-Preserves, sraw-Preserves,
}
use Multiply.{
  mul-Preserves, mulh-Preserves, mulhsu-Preserves, mulhu-Preserves, mulw-Preserves, div-Preserves,
  divu-Preserves, rem-Preserves, remu-Preserves, divw-Preserves, divuw-Preserves, remw-Preserves,
  remuw-Preserves,
}
use Csrs.{
  csrrw-Preserves, csrrs-Preserves, csrrc-Preserves, csrrwi-Preserves, csrrsi-Preserves,
  csrrci-Preserves,
}
use Atomic.{
  amoswap_w-Preserves, amoadd_w-Preserves, amoxor_w-Preserves, amoand_w-Preserves,
  amoor_w-Preserves, amomin_w-Preserves, amomax_w-Preserves, amominu_w-Preserves,
  amomaxu_w-Preserves, amoswap_d-Preserves, amoadd_d-Preserves, amoxor_d-Preserves,
  amoand_d-Preserves, amoor_d-Preserves, amomin_d-Preserves, amomax_d-Preserves,
  amominu_d-Preserves, amomaxu_d-Preserves,
}

abbrev pub AllPreserve : List Instruction → Type 0
AllPreserve [] = Unit
AllPreserve (i ∷ is) = Preserves i.execute × AllPreserve is

-- Pairs in a row.
infixr 5 ◌&◌
abbrev ◌&◌ : {A B : Type 0} → A → B → A × B
p & q = (p, q)

-- In the order of the table.
pub instructions-AllPreserve : AllPreserve instructions
unfolding instructions
instructions-AllPreserve =
    sret-Preserves & mret-Preserves & lui-Preserves & auipc-Preserves & jal-Preserves
    & jalr-Preserves & beq-Preserves & bne-Preserves & blt-Preserves & bge-Preserves
    & bltu-Preserves & bgeu-Preserves & lb-Preserves & lh-Preserves & lw-Preserves & lbu-Preserves
    & lhu-Preserves & sb-Preserves & sh-Preserves & sw-Preserves & addi-Preserves & slti-Preserves
    & sltiu-Preserves & xori-Preserves & ori-Preserves & andi-Preserves & slli-Preserves
    & srli-Preserves & srai-Preserves & add-Preserves & sub-Preserves & sll-Preserves
    & slt-Preserves & sltu-Preserves & xor-Preserves & srl-Preserves & sra-Preserves & or-Preserves
    & and-Preserves & fence-Preserves & ecall-Preserves & ebreak-Preserves & lwu-Preserves
    & ld-Preserves & sd-Preserves & addiw-Preserves & slliw-Preserves & srliw-Preserves
    & sraiw-Preserves & addw-Preserves & subw-Preserves & sllw-Preserves & srlw-Preserves
    & sraw-Preserves & fence_i-Preserves & csrrw-Preserves & csrrs-Preserves & csrrc-Preserves
    & csrrwi-Preserves & csrrsi-Preserves & csrrci-Preserves & mul-Preserves & mulh-Preserves
    & mulhsu-Preserves & mulhu-Preserves & div-Preserves & divu-Preserves & rem-Preserves
    & remu-Preserves & mulw-Preserves & divw-Preserves & divuw-Preserves & remw-Preserves
    & remuw-Preserves & lr_w-Preserves & sc_w-Preserves & amoswap_w-Preserves & amoadd_w-Preserves
    & amoxor_w-Preserves & amoand_w-Preserves & amoor_w-Preserves & amomin_w-Preserves
    & amomax_w-Preserves & amominu_w-Preserves & amomaxu_w-Preserves & lr_d-Preserves
    & sc_d-Preserves & amoswap_d-Preserves & amoadd_d-Preserves & amoxor_d-Preserves
    & amoand_d-Preserves & amoor_d-Preserves & amomin_d-Preserves & amomax_d-Preserves
    & amominu_d-Preserves & amomaxu_d-Preserves & tt
