-- ===== src/Isa/Atomic.antt =====
-- source/cpu.cpp, `instructions[]`: the AMO instructions: they work on registers, not on memory.
use rremu.Base.{bit_and, bit_or, bit_xor, min, max, u32, add64}
use rremu.Action.{◌>>=◌, ◌>>◌}
use rremu.Cpu.{get_reg, set_reg}
use rremu.Isa.Fields.{parse_r}
use rremu.Isa.Shapes.{Instruction, Execute, amo_indirect, amo_direct}

unfoldable pub run_amoswap_w : Execute
run_amoswap_w fuel instruction = do
  let fields = parse_r instruction
  value ← get_reg fields.rs1
  b ← get_reg fields.rs2
  set_reg (u32 value) b
  set_reg fields.rd value

unfoldable pub amoswap_w : Instruction
amoswap_w = record {
  name = "AMOSWAP.W";
  format = b'R';
  mask_field = 0xf800707f;
  instruction_matcher = 0x0800202f;
  execute = run_amoswap_w;
}

unfoldable pub amoadd_w : Instruction
amoadd_w = record {
  name = "AMOADD.W";
  format = b'R';
  mask_field = 0xf800707f;
  instruction_matcher = 0x0000202f;
  execute = amo_indirect (λ v b. add64 v b);
}

unfoldable pub amoxor_w : Instruction
amoxor_w = record {
  name = "AMOXOR.W";
  format = b'R';
  mask_field = 0xf800707f;
  instruction_matcher = 0x2000202f;
  execute = amo_indirect (λ v b. bit_xor v b);
}

unfoldable pub amoand_w : Instruction
amoand_w = record {
  name = "AMOAND.W";
  format = b'R';
  mask_field = 0xf800707f;
  instruction_matcher = 0x6000202f;
  execute = amo_indirect (λ v b. bit_and v b);
}

unfoldable pub amoor_w : Instruction
amoor_w = record {
  name = "AMOOR.W";
  format = b'R';
  mask_field = 0xf800707f;
  instruction_matcher = 0x4000202f;
  execute = amo_indirect (λ v b. bit_or v b);
}

unfoldable pub amomin_w : Instruction
amomin_w = record {
  name = "AMOMIN.W";
  format = b'R';
  mask_field = 0xf800707f;
  instruction_matcher = 0x8000202f;
  execute = amo_indirect (λ v b. min v b);
}

unfoldable pub amomax_w : Instruction
amomax_w = record {
  name = "AMOMAX.W";
  format = b'R';
  mask_field = 0xf800707f;
  instruction_matcher = 0xa000202f;
  execute = amo_indirect (λ v b. max v b);
}

unfoldable pub amominu_w : Instruction
amominu_w = record {
  name = "AMOMINU.W";
  format = b'R';
  mask_field = 0xf800707f;
  instruction_matcher = 0xc000202f;
  execute = amo_indirect (λ v b. min v b);
}

unfoldable pub amomaxu_w : Instruction
amomaxu_w = record {
  name = "AMOMAXU.W";
  format = b'R';
  mask_field = 0xf800707f;
  instruction_matcher = 0xe000202f;
  execute = amo_indirect (λ v b. max v b);
}

unfoldable pub amoswap_d : Instruction
amoswap_d = record {
  name = "AMOSWAP.D";
  format = b'R';
  mask_field = 0xf800707f;
  instruction_matcher = 0x0800302f;
  execute = amo_direct (λ v b. b);
}

unfoldable pub amoadd_d : Instruction
amoadd_d = record {
  name = "AMOADD.D";
  format = b'R';
  mask_field = 0xf800707f;
  instruction_matcher = 0x0000302f;
  execute = amo_direct (λ v b. add64 v b);
}

unfoldable pub amoxor_d : Instruction
amoxor_d = record {
  name = "AMOXOR.D";
  format = b'R';
  mask_field = 0xf800707f;
  instruction_matcher = 0x2000302f;
  execute = amo_direct (λ v b. bit_xor v b);
}

unfoldable pub amoand_d : Instruction
amoand_d = record {
  name = "AMOAND.D";
  format = b'R';
  mask_field = 0xf800707f;
  instruction_matcher = 0x6000302f;
  execute = amo_direct (λ v b. bit_and v b);
}

unfoldable pub amoor_d : Instruction
amoor_d = record {
  name = "AMOOR.D";
  format = b'R';
  mask_field = 0xf800707f;
  instruction_matcher = 0x4000302f;
  execute = amo_direct (λ v b. bit_or v b);
}

unfoldable pub amomin_d : Instruction
amomin_d = record {
  name = "AMOMIN.D";
  format = b'R';
  mask_field = 0xf800707f;
  instruction_matcher = 0x8000302f;
  execute = amo_indirect (λ v b. min v b);
}

unfoldable pub amomax_d : Instruction
amomax_d = record {
  name = "AMOMAX.D";
  format = b'R';
  mask_field = 0xf800707f;
  instruction_matcher = 0xa000302f;
  execute = amo_indirect (λ v b. max v b);
}

unfoldable pub amominu_d : Instruction
amominu_d = record {
  name = "AMOMINU.D";
  format = b'R';
  mask_field = 0xf800707f;
  instruction_matcher = 0xc000302f;
  execute = amo_indirect (λ v b. min v b);
}

unfoldable pub amomaxu_d : Instruction
amomaxu_d = record {
  name = "AMOMAXU.D";
  format = b'R';
  mask_field = 0xf800707f;
  instruction_matcher = 0xe000302f;
  execute = amo_indirect (λ v b. max v b);
}
