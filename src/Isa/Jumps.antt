-- ===== src/Isa/Jumps.antt =====
-- source/cpu.cpp, `instructions[]`: upper immediates, jumps and branches.
use rremu.Base.{not, ◌==◌, ltb, leb, bit_and, not64, add64, sub64, sext32}
use rremu.Base.Int.{int64, ltb_ℤ}
use rremu.Action.{◌>>=◌, ◌>>◌, gets}
use rremu.Cpu.{get_reg, set_reg, set_pc}
use rremu.Isa.Fields.{parse_i, parse_u, parse_j, sign_extend_12b, sign_extend_20b}
use rremu.Isa.Shapes.{Instruction, Execute, branch}

unfoldable pub run_lui : Execute
run_lui fuel instruction = do
  let fields = parse_u instruction
  set_reg fields.rd (sext32 fields.imm)

unfoldable pub run_auipc : Execute
run_auipc fuel instruction = do
  let fields = parse_u instruction
  pc ← gets (λ c. c.pc)
  set_reg fields.rd (sub64 (add64 pc fields.imm) 4)

unfoldable pub run_jal : Execute
run_jal fuel instruction = do
  let fields = parse_j instruction
  pc ← gets (λ c. c.pc)
  set_reg fields.rd pc
  set_pc (sub64 (add64 pc (sext32 (sign_extend_20b fields.imm))) 4)

-- The link register is written before `rs1` is read.
unfoldable pub run_jalr : Execute
run_jalr fuel instruction = do
  let fields = parse_i instruction
  pc ← gets (λ c. c.pc)
  set_reg fields.rd pc
  base ← get_reg fields.rs1
  set_pc (bit_and (add64 base (sext32 (sign_extend_12b fields.imm))) (not64 1))

unfoldable pub lui : Instruction
lui = record {
  name = "LUI";
  format = b'U';
  mask_field = 0x0000007f;
  instruction_matcher = 0x00000037;
  execute = run_lui;
}

unfoldable pub auipc : Instruction
auipc = record {
  name = "AUIPC";
  format = b'U';
  mask_field = 0x0000007f;
  instruction_matcher = 0x00000017;
  execute = run_auipc;
}

unfoldable pub jal : Instruction
jal = record {
  name = "JAL";
  format = b'J';
  mask_field = 0x0000007f;
  instruction_matcher = 0x0000006f;
  execute = run_jal;
}

unfoldable pub jalr : Instruction
jalr = record {
  name = "JALR";
  format = b'I';
  mask_field = 0x0000707f;
  instruction_matcher = 0x00000067;
  execute = run_jalr;
}

unfoldable pub beq : Instruction
beq = record {
  name = "BEQ";
  format = b'B';
  mask_field = 0x0000707f;
  instruction_matcher = 0x00000063;
  execute = branch (λ a b. a == b);
}

unfoldable pub bne : Instruction
bne = record {
  name = "BNE";
  format = b'B';
  mask_field = 0x0000707f;
  instruction_matcher = 0x00001063;
  execute = branch (λ a b. not (a == b));
}

unfoldable pub blt : Instruction
blt = record {
  name = "BLT";
  format = b'B';
  mask_field = 0x0000707f;
  instruction_matcher = 0x00004063;
  execute = branch (λ a b. ltb_ℤ (int64 a) (int64 b));
}

unfoldable pub bge : Instruction
bge = record {
  name = "BGE";
  format = b'B';
  mask_field = 0x0000707f;
  instruction_matcher = 0x00005063;
  execute = branch (λ a b. not (ltb_ℤ (int64 a) (int64 b)));
}

unfoldable pub bltu : Instruction
bltu = record {
  name = "BLTU";
  format = b'B';
  mask_field = 0x0000707f;
  instruction_matcher = 0x00006063;
  execute = branch (λ a b. ltb a b);
}

unfoldable pub bgeu : Instruction
bgeu = record {
  name = "BGEU";
  format = b'B';
  mask_field = 0x0000707f;
  instruction_matcher = 0x00007063;
  execute = branch (λ a b. leb b a);
}
