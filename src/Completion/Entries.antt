-- ===== src/Completion/Entries.antt =====
-- The entries of the table whose bodies always come back.
use rremu.Base.{List, [], ◌∷◌, inl, inr}
use rremu.Isa.System.{sret, mret, ecall, ebreak, fence, fence_i}
use rremu.Isa.Jumps.{lui, auipc, jal, jalr, beq, bne, blt, bge, bltu, bgeu}
use rremu.Isa.Immediate.{addi, slti, sltiu, xori, ori, andi, addiw, slliw, srliw, sraiw}
use rremu.Isa.Arithmetic.{add, sub, slt, sltu, xor, or, and, addw, subw}
use rremu.Isa.Multiply.{
  mul, mulh, mulhsu, mulhu, mulw, div, divu, rem, remu, divw, divuw, remw, remuw,
}
use rremu.Isa.Csrs.{csrrw, csrrs, csrrc, csrrwi, csrrsi, csrrci}
use rremu.Isa.Atomic.{amoswap_d, amoadd_d, amoxor_d, amoand_d, amoor_d}
use rremu.Isa.{Instruction}
use rremu.Step.Decoding.{IsEntry}
use rremu.Completion.Logic.{pure-IsTotal}
use rremu.Completion.Shapes.{
  Completes, reg_imm-Completes, reg_reg-Completes, shift_imm-Completes, branch-Completes,
  csr_reg-Completes, csr_imm-Completes, amo_direct-Completes, run_lui-Completes,
  run_auipc-Completes, run_jal-Completes, run_jalr-Completes, run_ecall-Completes,
  run_sret-Completes, run_mret-Completes,
}

-- No memory access, no shift by a register's value or by an unchecked immediate, no register whose
-- number another register holds.
abbrev pub total_entries : List Instruction
total_entries =
    sret ∷ mret ∷ ecall ∷ ebreak ∷ fence ∷ fence_i ∷ lui ∷ auipc ∷ jal ∷ jalr ∷ beq ∷ bne ∷ blt
    ∷ bge ∷ bltu ∷ bgeu ∷ addi ∷ slti ∷ sltiu ∷ xori ∷ ori ∷ andi ∷ addiw ∷ slliw ∷ srliw ∷ sraiw
    ∷ add ∷ sub ∷ slt ∷ sltu ∷ xor ∷ or ∷ and ∷ addw ∷ subw ∷ mul ∷ mulh ∷ mulhsu ∷ mulhu ∷ mulw
    ∷ div ∷ divu ∷ rem ∷ remu ∷ divw ∷ divuw ∷ remw ∷ remuw ∷ csrrw ∷ csrrs ∷ csrrc ∷ csrrwi
    ∷ csrrsi ∷ csrrci ∷ amoswap_d ∷ amoadd_d ∷ amoxor_d ∷ amoand_d ∷ amoor_d ∷ []

abbrev AllComplete : List Instruction → Type 0
AllComplete [] = Unit
AllComplete (i ∷ is) = Completes i.execute × AllComplete is

entry-Completes :
    (i : Instruction) (is : List Instruction) → AllComplete is → IsEntry i is → Completes i.execute
entry-Completes i [] h e = absurd e
entry-Completes i (j ∷ is) h (inl e) = rw e h.0
entry-Completes i (j ∷ is) h (inr e) = entry-Completes i is h.1 e

infixr 4 ◌&◌
abbrev ◌&◌ : {A B : Type 0} → A → B → A × B
a & b = (a, b)

total_entries-AllComplete : AllComplete total_entries
unfolding sret mret ecall ebreak fence fence_i lui auipc jal jalr beq bne blt bge bltu bgeu addi
    slti sltiu xori ori andi addiw slliw srliw sraiw add sub slt sltu xor or and addw subw mul mulh
    mulhsu mulhu mulw div divu rem remu divw divuw remw remuw csrrw csrrs csrrc csrrwi csrrsi csrrci
    amoswap_d amoadd_d amoxor_d amoand_d amoor_d
total_entries-AllComplete =
    run_sret-Completes
    & run_mret-Completes
    & run_ecall-Completes
    & (λ _ _. pure-IsTotal)
    & (λ _ _. pure-IsTotal)
    & (λ _ _. pure-IsTotal)
    & run_lui-Completes
    & run_auipc-Completes
    & run_jal-Completes
    & run_jalr-Completes
    & branch-Completes _
    & branch-Completes _
    & branch-Completes _
    & branch-Completes _
    & branch-Completes _
    & branch-Completes _
    & reg_imm-Completes _
    & reg_imm-Completes _
    & reg_imm-Completes _
    & reg_imm-Completes _
    & reg_imm-Completes _
    & reg_imm-Completes _
    & reg_imm-Completes _
    & shift_imm-Completes _
    & shift_imm-Completes _
    & shift_imm-Completes _
    & reg_reg-Completes _
    & reg_reg-Completes _
    & reg_reg-Completes _
    & reg_reg-Completes _
    & reg_reg-Completes _
    & reg_reg-Completes _
    & reg_reg-Completes _
    & reg_reg-Completes _
    & reg_reg-Completes _
    & reg_reg-Completes _
    & reg_reg-Completes _
    & reg_reg-Completes _
    & reg_reg-Completes _
    & reg_reg-Completes _
    & reg_reg-Completes _
    & reg_reg-Completes _
    & reg_reg-Completes _
    & reg_reg-Completes _
    & reg_reg-Completes _
    & reg_reg-Completes _
    & reg_reg-Completes _
    & reg_reg-Completes _
    & csr_reg-Completes _
    & csr_reg-Completes _
    & csr_reg-Completes _
    & csr_imm-Completes _
    & csr_imm-Completes _
    & csr_imm-Completes _
    & amo_direct-Completes _
    & amo_direct-Completes _
    & amo_direct-Completes _
    & amo_direct-Completes _
    & amo_direct-Completes _
    & tt

pub total-Completes : (i : Instruction) → IsEntry i total_entries → Completes i.execute
total-Completes i e = entry-Completes i total_entries total_entries-AllComplete e
