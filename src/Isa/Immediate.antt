-- ===== src/Isa/Immediate.antt =====
-- source/cpu.cpp, `instructions[]`: arithmetic with an immediate.
use rremu.Base.{ℕ, Bool, if◌then◌else◌, ltb, bit_and, bit_or, bit_xor, ◌>>>◌, add64, shl64, sext32}
use rremu.Isa.Fields.{parse_r, parse_i, sign_extend_12b}
use rremu.Isa.Shapes.{Instruction, reg_imm, shift_imm}

abbrev bool : Bool → ℕ
bool b = if b then 1 else 0

unfoldable pub addi : Instruction
addi = record {
  name = "ADDI";
  format = b'I';
  mask_field = 0x0000707f;
  instruction_matcher = 0x00000013;
  execute = reg_imm (λ a imm. add64 a (sext32 (sign_extend_12b imm)));
}

unfoldable pub slti : Instruction
slti = record {
  name = "SLTI";
  format = b'I';
  mask_field = 0x0000707f;
  instruction_matcher = 0x00002013;
  execute = reg_imm (λ a imm. bool (ltb a imm));
}

unfoldable pub sltiu : Instruction
sltiu = record {
  name = "SLTIU";
  format = b'I';
  mask_field = 0x0000707f;
  instruction_matcher = 0x00003013;
  execute = reg_imm (λ a imm. bool (ltb a imm));
}

unfoldable pub xori : Instruction
xori = record {
  name = "XORI";
  format = b'I';
  mask_field = 0x0000707f;
  instruction_matcher = 0x00004013;
  execute = reg_imm (λ a imm. bit_xor a imm);
}

unfoldable pub ori : Instruction
ori = record {
  name = "ORI";
  format = b'I';
  mask_field = 0x0000707f;
  instruction_matcher = 0x00006013;
  execute = reg_imm (λ a imm. bit_or a imm);
}

unfoldable pub andi : Instruction
andi = record {
  name = "ANDI";
  format = b'I';
  mask_field = 0x0000707f;
  instruction_matcher = 0x00007013;
  execute = reg_imm (λ a imm. bit_and a imm);
}

unfoldable pub slli : Instruction
slli = record {
  name = "SLLI";
  format = b'I';
  mask_field = 0xfc00707f;
  instruction_matcher = 0x00001013;
  execute = shift_imm parse_i (λ a k. shl64 a k);
}

unfoldable pub srli : Instruction
srli = record {
  name = "SRLI";
  format = b'I';
  mask_field = 0xfc00707f;
  instruction_matcher = 0x00005013;
  execute = shift_imm parse_i (λ a k. a >>> k);
}

unfoldable pub srai : Instruction
srai = record {
  name = "SRAI";
  format = b'I';
  mask_field = 0xfc00707f;
  instruction_matcher = 0x40005013;
  execute = shift_imm parse_i (λ a k. a >>> k);
}

unfoldable pub addiw : Instruction
addiw = record {
  name = "ADDIW";
  format = b'I';
  mask_field = 0x0000707f;
  instruction_matcher = 0x0000001b;
  execute = reg_imm (λ a imm. sext32 (add64 a (sext32 (sign_extend_12b imm))));
}

unfoldable pub slliw : Instruction
slliw = record {
  name = "SLLIW";
  format = b'R';
  mask_field = 0xfe00707f;
  instruction_matcher = 0x0000101b;
  execute = shift_imm parse_r (λ a k. shl64 a k);
}

unfoldable pub srliw : Instruction
srliw = record {
  name = "SRLIW";
  format = b'R';
  mask_field = 0xfc00707f;
  instruction_matcher = 0x0000501b;
  execute = shift_imm parse_r (λ a k. a >>> k);
}

unfoldable pub sraiw : Instruction
sraiw = record {
  name = "SRAIW";
  format = b'R';
  mask_field = 0xfc00707f;
  instruction_matcher = 0x4000501b;
  execute = shift_imm parse_r (λ a k. a >>> k);
}
