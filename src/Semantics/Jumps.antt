-- ===== src/Semantics/Jumps.antt =====
-- Branches and jumps go where the word that an assembler writes for an offset says.
use rremu.Base.{
  ℕ, ◌^◌, ◌<◌, ◌≡◌, Bool, Bool-cases, inl, inr, if◌then◌else◌, ◌==◌, bit_and, not64, add64, sub64,
  arith,
}
use rremu.Action.{done, gets, ◌>>=◌}
use rremu.Ram.{update}
use rremu.Cpu.{Cpu}
use rremu.Isa.{parse_i, branch, InstructionFields}
use rremu.Isa.Jumps.{run_jal, run_jalr}
use rremu.Encoding.Immediates.{field, parse_i_imm}
use rremu.Encoding.Offsets.{
  Fits, encode_b, encode_j, parse_b-encode_b, parse_j-encode_j, sign_extend_12b_lem,
  sign_extend_13b_lem, sign_extend_20b_iff, signed_value,
}
use rremu.Semantics.Registers.{get_reg_lem, set_reg_lem, parse_i-range}

-- The address of the instruction, which `Fetch` has left behind, and an offset.
abbrev pub target : ℕ → ℕ → ℕ
target pc offset = add64 (sub64 pc 4) offset

target_lem : (pc offset : ℕ) → sub64 (add64 pc offset) 4 ≡ target pc offset
target_lem pc offset = omega arith

-- A branch that was assembled for an even 13-bit offset returns, with nothing but `pc` changed: it
-- goes to the branch's own address plus the signed offset where the test of the two registers
-- holds, and on to the next instruction where it does not.
pub branch-encode_b :
    (test : ℕ → ℕ → Bool) (fuel : ℕ) (f : InstructionFields) (c : Cpu)
    → Fits f 13 2
    → branch test fuel (encode_b f) c
      ≡ done tt (record c {
        pc =
            if test (c.regs f.rs1) (c.regs f.rs2)
            then target c.pc (signed_value 13 f.imm)
            else c.pc;
      })
unfolding branch gets
branch-encode_b test fuel f c h =
    let (_, _, rs1, rs2, imm) = parse_b-encode_b f h in
    elim (Bool-cases (test (c.regs f.rs1) (c.regs f.rs2))) [
      | inl taken ↦ rw (
        ◌>>=◌,
        rs1,
        get_reg_lem f.rs1 c h.rs1,
        rs2,
        get_reg_lem f.rs2 c h.rs2,
        taken,
        imm,
        sign_extend_13b_lem f.imm h.imm,
        target_lem c.pc (signed_value 13 f.imm),
      )
      | inr skipped ↦
          rw (◌>>=◌, rs1, get_reg_lem f.rs1 c h.rs1, rs2, get_reg_lem f.rs2 c h.rs2, skipped)
    ]

-- JAL that was assembled for an even 21-bit offset whose bits 19 and 20 agree returns: it links to
-- the next instruction and goes to its own address plus the signed offset.
pub jal-encode_j :
    (fuel : ℕ) (f : InstructionFields) (c : Cpu)
    → Fits f 21 2
    → field 19 1 f.imm ≡ field 20 1 f.imm
    → run_jal fuel (encode_j f) c
      ≡ done tt
          (record c { regs = update c.regs f.rd c.pc; pc = target c.pc (signed_value 21 f.imm) })
unfolding run_jal gets
jal-encode_j fuel f c h near =
    let (_, rd, imm) = parse_j-encode_j f h in
    rw (
      ◌>>=◌,
      rd,
      set_reg_lem f.rd c.pc c h.rd,
      imm,
      (sign_extend_20b_iff f.imm h.imm).1 near,
      target_lem c.pc (signed_value 21 f.imm),
    )

-- JALR returns on every word and in every state. It links to the next instruction and goes to the
-- even address at the signed offset from `rs1`; where `rs1` is the link register, it is the link
-- that the offset is added to, since the link is written first.
pub jalr_lem :
    (fuel w : ℕ) (c : Cpu)
    → let f = parse_i w in
      let base = if f.rd == f.rs1 then c.pc else c.regs f.rs1 in
      run_jalr fuel w c
      ≡ done tt (record c {
        regs = update c.regs f.rd c.pc;
        pc = bit_and (add64 base (signed_value 12 f.imm)) (not64 1);
      })
unfolding run_jalr gets
jalr_lem fuel w c =
    let f = parse_i w in
    let (rd, rs1) = parse_i-range w in
    let small : f.imm < 2 ^ 12 = omega (arith, parse_i_imm w) in
    let linked : Cpu = record c { regs = update c.regs f.rd c.pc } in
    rw (
      ◌>>=◌,
      set_reg_lem f.rd c.pc c rd,
      get_reg_lem f.rs1 linked rs1,
      sign_extend_12b_lem f.imm small,
    )
