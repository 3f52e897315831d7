-- ===== src/Isa/Arithmetic.antt =====
-- source/cpu.cpp, `instructions[]`: arithmetic on registers.
use rremu.Base.{ℕ, Bool, if◌then◌else◌, ltb, bit_and, bit_or, bit_xor, ◌>>>◌, add64, sub64, shl64}
use rremu.Isa.Shapes.{Instruction, reg_reg, shift_reg}

abbrev bool : Bool → ℕ
bool b = if b then 1 else 0

unfoldable pub add : Instruction
add = record {
  name = "ADD";
  format = b'R';
  mask_field = 0xfe00707f;
  instruction_matcher = 0x00000033;
  execute = reg_reg (λ a b. add64 a b);
}

unfoldable pub sub : Instruction
sub = record {
  name = "SUB";
  format = b'R';
  mask_field = 0xfe00707f;
  instruction_matcher = 0x40000033;
  execute = reg_reg (λ a b. sub64 a b);
}

unfoldable pub sll : Instruction
sll = record {
  name = "SLL";
  format = b'R';
  mask_field = 0xfe00707f;
  instruction_matcher = 0x00001033;
  execute = shift_reg (λ a k. shl64 a k);
}

unfoldable pub slt : Instruction
slt = record {
  name = "SLT";
  format = b'R';
  mask_field = 0xfe00707f;
  instruction_matcher = 0x00002033;
  execute = reg_reg (λ a b. bool (ltb a b));
}

unfoldable pub sltu : Instruction
sltu = record {
  name = "SLTU";
  format = b'R';
  mask_field = 0xfe00707f;
  instruction_matcher = 0x00003033;
  execute = reg_reg (λ a b. bool (ltb a b));
}

unfoldable pub xor : Instruction
xor = record {
  name = "XOR";
  format = b'R';
  mask_field = 0xfe00707f;
  instruction_matcher = 0x00004033;
  execute = reg_reg (λ a b. bit_xor a b);
}

unfoldable pub srl : Instruction
srl = record {
  name = "SRL";
  format = b'R';
  mask_field = 0xfe00707f;
  instruction_matcher = 0x00005033;
  execute = shift_reg (λ a k. a >>> k);
}

unfoldable pub sra : Instruction
sra = record {
  name = "SRA";
  format = b'R';
  mask_field = 0xfe00707f;
  instruction_matcher = 0x40005033;
  execute = shift_reg (λ a k. a >>> k);
}

unfoldable pub or : Instruction
or = record {
  name = "OR";
  format = b'R';
  mask_field = 0xfe00707f;
  instruction_matcher = 0x00006033;
  execute = reg_reg (λ a b. bit_or a b);
}

unfoldable pub and : Instruction
and = record {
  name = "AND";
  format = b'R';
  mask_field = 0xfe00707f;
  instruction_matcher = 0x00007033;
  execute = reg_reg (λ a b. bit_and a b);
}

unfoldable pub addw : Instruction
addw = record {
  name = "ADDW";
  format = b'R';
  mask_field = 0xfe00707f;
  instruction_matcher = 0x0000003b;
  execute = reg_reg (λ a b. add64 a b);
}

unfoldable pub subw : Instruction
subw = record {
  name = "SUBW";
  format = b'R';
  mask_field = 0xfe00707f;
  instruction_matcher = 0x4000003b;
  execute = reg_reg (λ a b. sub64 a b);
}

unfoldable pub sllw : Instruction
sllw = record {
  name = "SLLW";
  format = b'R';
  mask_field = 0xfe00707f;
  instruction_matcher = 0x0000103b;
  execute = shift_reg (λ a k. shl64 a k);
}

unfoldable pub srlw : Instruction
srlw = record {
  name = "SRLW";
  format = b'R';
  mask_field = 0xfe00707f;
  instruction_matcher = 0x0000503b;
  execute = shift_reg (λ a k. a >>> k);
}

unfoldable pub sraw : Instruction
sraw = record {
  name = "SRAW";
  format = b'R';
  mask_field = 0xfe00707f;
  instruction_matcher = 0x4000503b;
  execute = shift_reg (λ a k. a >>> k);
}
