-- ===== src/Isa/Csrs.antt =====
-- source/cpu.cpp, `instructions[]`: reads and writes of the CSRs.
use rremu.Base.{bit_and, bit_or, not32, not64}
use rremu.Isa.Shapes.{Instruction, csr_reg, csr_imm}

unfoldable pub csrrw : Instruction
csrrw = record {
  name = "CSRRW";
  format = b'I';
  mask_field = 0x0000707f;
  instruction_matcher = 0x00001073;
  execute = csr_reg (λ csr a. a);
}

unfoldable pub csrrs : Instruction
csrrs = record {
  name = "CSRRS";
  format = b'I';
  mask_field = 0x0000707f;
  instruction_matcher = 0x00002073;
  execute = csr_reg (λ csr a. bit_or csr a);
}

unfoldable pub csrrc : Instruction
csrrc = record {
  name = "CSRRC";
  format = b'I';
  mask_field = 0x0000707f;
  instruction_matcher = 0x00003073;
  execute = csr_reg (λ csr a. bit_and csr (not64 a));
}

unfoldable pub csrrwi : Instruction
csrrwi = record {
  name = "CSRRWI";
  format = b'I';
  mask_field = 0x0000707f;
  instruction_matcher = 0x00005073;
  execute = csr_imm (λ csr rs1. rs1);
}

unfoldable pub csrrsi : Instruction
csrrsi = record {
  name = "CSRRSI";
  format = b'I';
  mask_field = 0x0000707f;
  instruction_matcher = 0x00006073;
  execute = csr_imm (λ csr rs1. bit_or csr rs1);
}

unfoldable pub csrrci : Instruction
csrrci = record {
  name = "CSRRCI";
  format = b'I';
  mask_field = 0x0000707f;
  instruction_matcher = 0x00007073;
  execute = csr_imm (λ csr rs1. bit_and csr (not32 rs1));
}
