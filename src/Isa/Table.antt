-- ===== src/Isa/Table.antt =====
-- `instructions[]` of source/cpu.cpp, in the order of the source.
use rremu.Base.{List, [], ◌∷◌}
use rremu.Isa.Shapes.{Instruction}
use rremu.Isa.System.{sret, mret, ecall, ebreak, fence, fence_i}
use rremu.Isa.Jumps.{lui, auipc, jal, jalr, beq, bne, blt, bge, bltu, bgeu}
use rremu.Isa.Memory.{lb, lh, lw, lbu, lhu, lwu, ld, sb, sh, sw, sd, lr_w, sc_w, lr_d, sc_d}
use rremu.Isa.Immediate.{
  addi, slti, sltiu, xori, ori, andi, slli, srli, srai, addiw, slliw, srliw, sraiw,
}
use rremu.Isa.Arithmetic.{
  add, sub, sll, slt, sltu, xor, srl, sra, or, and, addw, subw, sllw, srlw, sraw,
}
use rremu.Isa.Multiply.{
  mul, mulh, mulhsu, mulhu, mulw, div, divu, rem, remu, divw, divuw, remw, remuw,
}
use rremu.Isa.Csrs.{csrrw, csrrs, csrrc, csrrwi, csrrsi, csrrci}
use rremu.Isa.Atomic.{
  amoswap_w, amoadd_w, amoxor_w, amoand_w, amoor_w, amomin_w, amomax_w, amominu_w, amomaxu_w,
  amoswap_d, amoadd_d, amoxor_d, amoand_d, amoor_d, amomin_d, amomax_d, amominu_d, amomaxu_d,
}

unfoldable pub instructions : List Instruction
unfolding sret mret lui auipc jal jalr beq bne blt bge bltu bgeu lb lh lw lbu lhu sb sh sw addi slti
    sltiu xori ori andi slli srli srai add sub sll slt sltu xor srl sra or and fence ecall ebreak
    lwu ld sd addiw slliw srliw sraiw addw subw sllw srlw sraw fence_i csrrw csrrs csrrc csrrwi
    csrrsi csrrci mul mulh mulhsu mulhu div divu rem remu mulw divw divuw remw remuw lr_w sc_w
    amoswap_w amoadd_w amoxor_w amoand_w amoor_w amomin_w amomax_w amominu_w amomaxu_w lr_d sc_d
    amoswap_d amoadd_d amoxor_d amoand_d amoor_d amomin_d amomax_d amominu_d amomaxu_d
instructions =
    sret ∷ mret ∷ lui ∷ auipc ∷ jal ∷ jalr ∷ beq ∷ bne ∷ blt ∷ bge ∷ bltu ∷ bgeu ∷ lb ∷ lh ∷ lw
    ∷ lbu ∷ lhu ∷ sb ∷ sh ∷ sw ∷ addi ∷ slti ∷ sltiu ∷ xori ∷ ori ∷ andi ∷ slli ∷ srli ∷ srai ∷ add
    ∷ sub ∷ sll ∷ slt ∷ sltu ∷ xor ∷ srl ∷ sra ∷ or ∷ and ∷ fence ∷ ecall ∷ ebreak ∷ lwu ∷ ld ∷ sd
    ∷ addiw ∷ slliw ∷ srliw ∷ sraiw ∷ addw ∷ subw ∷ sllw ∷ srlw ∷ sraw ∷ fence_i ∷ csrrw ∷ csrrs
    ∷ csrrc ∷ csrrwi ∷ csrrsi ∷ csrrci ∷ mul ∷ mulh ∷ mulhsu ∷ mulhu ∷ div ∷ divu ∷ rem ∷ remu
    ∷ mulw ∷ divw ∷ divuw ∷ remw ∷ remuw ∷ lr_w ∷ sc_w ∷ amoswap_w ∷ amoadd_w ∷ amoxor_w ∷ amoand_w
    ∷ amoor_w ∷ amomin_w ∷ amomax_w ∷ amominu_w ∷ amomaxu_w ∷ lr_d ∷ sc_d ∷ amoswap_d ∷ amoadd_d
    ∷ amoxor_d ∷ amoand_d ∷ amoor_d ∷ amomin_d ∷ amomax_d ∷ amominu_d ∷ amomaxu_d ∷ []
