-- ===== src/Isa/Multiply.antt =====
-- source/cpu.cpp, `instructions[]`: multiplication and division.
use rremu.Base.{ℕ, ◌-◌, ◌/◌, ◌%◌, ◌^◌, ◌&&◌, if◌then◌else◌, ◌==◌, u32, mul64}
use rremu.Base.Int.{ℤ, pos, negsuc, int64, int32, u64_of_ℤ, quot_ℤ, rem_ℤ, ◌==ℤ◌}
use rremu.Isa.Shapes.{Instruction, reg_reg}

abbrev pub int64_min : ℤ
int64_min = negsuc (2 ^ 63 - 1)

abbrev pub int32_min : ℤ
int32_min = negsuc (2 ^ 31 - 1)

-- DIV and REM, by the cast that reads the operands and its least value.
unfoldable pub div_int : (ℕ → ℤ) → ℤ → ℕ → ℕ → ℕ
div_int cast least a b =
    let dividend = cast a in
    let divisor = cast b in
    if divisor ==ℤ pos 0
    then u64_of_ℤ (negsuc 0)
    else if dividend ==ℤ least && divisor ==ℤ negsuc 0
    then u64_of_ℤ dividend
    else u64_of_ℤ (quot_ℤ dividend divisor)

unfoldable pub rem_int : (ℕ → ℤ) → ℤ → ℕ → ℕ → ℕ
rem_int cast least a b =
    let dividend = cast a in
    let divisor = cast b in
    if divisor ==ℤ pos 0
    then u64_of_ℤ dividend
    else if dividend ==ℤ least && divisor ==ℤ negsuc 0
    then 0
    else u64_of_ℤ (rem_ℤ dividend divisor)

-- DIVU and REMU.
unfoldable pub div_uint : ℕ → ℕ → ℕ
div_uint dividend divisor = if divisor == 0 then u64_of_ℤ (negsuc 0) else dividend / divisor

unfoldable pub rem_uint : ℕ → ℕ → ℕ
rem_uint dividend divisor = if divisor == 0 then dividend else dividend % divisor

unfoldable pub mul : Instruction
mul = record {
  name = "MUL";
  format = b'R';
  mask_field = 0xfe00707f;
  instruction_matcher = 0x02000033;
  execute = reg_reg (λ a b. mul64 a b);
}

unfoldable pub mulh : Instruction
mulh = record {
  name = "MULH";
  format = b'R';
  mask_field = 0xfe00707f;
  instruction_matcher = 0x02001033;
  execute = reg_reg (λ a b. mul64 a b);
}

unfoldable pub mulhsu : Instruction
mulhsu = record {
  name = "MULHSU";
  format = b'R';
  mask_field = 0xfe00707f;
  instruction_matcher = 0x02002033;
  execute = reg_reg (λ a b. mul64 a b);
}

unfoldable pub mulhu : Instruction
mulhu = record {
  name = "MULHU";
  format = b'R';
  mask_field = 0xfe00707f;
  instruction_matcher = 0x02003033;
  execute = reg_reg (λ a b. mul64 a b);
}

unfoldable pub mulw : Instruction
mulw = record {
  name = "MULW";
  format = b'R';
  mask_field = 0xfe00707f;
  instruction_matcher = 0x0200003b;
  execute = reg_reg (λ a b. mul64 a b);
}

unfoldable pub div : Instruction
div = record {
  name = "DIV";
  format = b'R';
  mask_field = 0xfe00707f;
  instruction_matcher = 0x02004033;
  execute = reg_reg (λ a b. div_int int64 int64_min a b);
}

unfoldable pub divu : Instruction
divu = record {
  name = "DIVU";
  format = b'R';
  mask_field = 0xfe00707f;
  instruction_matcher = 0x02005033;
  execute = reg_reg (λ a b. div_uint a b);
}

unfoldable pub rem : Instruction
rem = record {
  name = "REM";
  format = b'R';
  mask_field = 0xfe00707f;
  instruction_matcher = 0x02006033;
  execute = reg_reg (λ a b. rem_int int64 int64_min a b);
}

unfoldable pub remu : Instruction
remu = record {
  name = "REMU";
  format = b'R';
  mask_field = 0xfe00707f;
  instruction_matcher = 0x02007033;
  execute = reg_reg (λ a b. rem_uint a b);
}

unfoldable pub divw : Instruction
divw = record {
  name = "DIVW";
  format = b'R';
  mask_field = 0xfe00707f;
  instruction_matcher = 0x0200403b;
  execute = reg_reg (λ a b. div_int int32 int32_min a b);
}

unfoldable pub divuw : Instruction
divuw = record {
  name = "DIVUW";
  format = b'R';
  mask_field = 0xfe00707f;
  instruction_matcher = 0x0200503b;
  execute = reg_reg (λ a b. div_uint (u32 a) (u32 b));
}

unfoldable pub remw : Instruction
remw = record {
  name = "REMW";
  format = b'R';
  mask_field = 0xfe00707f;
  instruction_matcher = 0x0200603b;
  execute = reg_reg (λ a b. rem_int int32 int32_min a b);
}

unfoldable pub remuw : Instruction
remuw = record {
  name = "REMUW";
  format = b'R';
  mask_field = 0xfe00707f;
  instruction_matcher = 0x0200703b;
  execute = reg_reg (λ a b. rem_uint (u32 a) (u32 b));
}
