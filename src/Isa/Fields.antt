-- ===== src/Isa/Fields.antt =====
-- The field extraction of source/cpu.cpp: `mask`, `mask_and_shift`, the sign extensions and
-- `parse_instruction` for each format. An `int32_t` stands as its bit pattern.
use rremu.Base.{ℕ, ◌+◌, ◌-◌, ◌^◌, if◌then◌else◌, ◌==◌, bit_and, bit_or, ◌>>>◌, shl32}

-- `mask<start, end>` and `mask_and_shift<start, end, dest>` on `uint32_t`
abbrev pub mask : ℕ → ℕ → ℕ → ℕ
mask start end instruction = bit_and (instruction >>> start) (2 ^ (end - start + 1) - 1)

abbrev pub mask_and_shift : ℕ → ℕ → ℕ → ℕ → ℕ
mask_and_shift start end dest instruction =
    shl32 (bit_and (instruction >>> start) (2 ^ (end - start + 1) - 1)) dest

unfoldable pub sign_extend_12b : ℕ → ℕ
sign_extend_12b imm = if bit_and imm 0x800 == 0 then imm else bit_or imm 0xfffff000

unfoldable pub sign_extend_13b : ℕ → ℕ
sign_extend_13b imm = if bit_and imm 0x1000 == 0 then imm else bit_or imm 0xffffe000

unfoldable pub sign_extend_20b : ℕ → ℕ
sign_extend_20b imm = if bit_and imm 0x00080000 == 0 then imm else bit_or imm 0xfff00000

pub record InstructionFields : Type 0 where
  pub opcode : ℕ
  pub rd : ℕ
  pub funct3 : ℕ
  pub rs1 : ℕ
  pub rs2 : ℕ
  pub funct7 : ℕ
  pub imm : ℕ

unfoldable pub parse_r : ℕ → InstructionFields
parse_r instruction = record {
  opcode = mask 0 6 instruction;
  rd = mask 7 11 instruction;
  funct3 = mask 12 14 instruction;
  rs1 = mask 15 19 instruction;
  rs2 = mask 20 24 instruction;
  funct7 = mask 25 31 instruction;
  imm = 0;
}

unfoldable pub parse_i : ℕ → InstructionFields
parse_i instruction = record {
  opcode = mask 0 6 instruction;
  rd = mask 7 11 instruction;
  funct3 = mask 12 14 instruction;
  rs1 = mask 15 19 instruction;
  rs2 = 0;
  funct7 = 0;
  imm = mask 20 31 instruction;
}

unfoldable pub parse_s : ℕ → InstructionFields
parse_s instruction = record {
  opcode = mask 0 6 instruction;
  rd = 0;
  funct3 = mask 12 14 instruction;
  rs1 = mask 15 19 instruction;
  rs2 = mask 20 24 instruction;
  funct7 = 0;
  imm = bit_or (mask 7 11 instruction) (mask_and_shift 25 31 5 instruction);
}

unfoldable pub parse_b : ℕ → InstructionFields
parse_b instruction = record {
  opcode = mask 0 6 instruction;
  rd = 0;
  funct3 = mask 12 14 instruction;
  rs1 = mask 15 19 instruction;
  rs2 = mask 20 24 instruction;
  funct7 = 0;
  imm =
      bit_or
        (bit_or (bit_or (mask_and_shift 7 7 11 instruction) (mask_and_shift 8 11 1 instruction))
          (mask_and_shift 25 30 5 instruction))
        (mask_and_shift 31 31 12 instruction);
}

unfoldable pub parse_u : ℕ → InstructionFields
parse_u instruction = record {
  opcode = mask 0 6 instruction;
  rd = mask 7 11 instruction;
  funct3 = 0;
  rs1 = 0;
  rs2 = 0;
  funct7 = 0;
  imm = mask_and_shift 12 31 12 instruction;
}

unfoldable pub parse_j : ℕ → InstructionFields
parse_j instruction = record {
  opcode = mask 0 6 instruction;
  rd = mask 7 11 instruction;
  funct3 = 0;
  rs1 = 0;
  rs2 = 0;
  funct7 = 0;
  imm =
      bit_or
        (bit_or (bit_or (mask_and_shift 21 30 1 instruction) (mask_and_shift 20 20 11 instruction))
          (mask_and_shift 12 19 12 instruction))
        (mask_and_shift 31 31 20 instruction);
}
