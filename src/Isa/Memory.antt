-- ===== src/Isa/Memory.antt =====
-- source/cpu.cpp, `instructions[]`: loads and stores, the reserved and conditional ones too.
use rremu.Base.{sext8, sext16, sext32}
use rremu.Isa.Shapes.{Instruction, load_reg, store_reg, load_reserved, store_conditional}

unfoldable pub lb : Instruction
lb = record {
  name = "LB";
  format = b'I';
  mask_field = 0x0000707f;
  instruction_matcher = 0x00000003;
  execute = load_reg 1 sext8;
}

unfoldable pub lh : Instruction
lh = record {
  name = "LH";
  format = b'I';
  mask_field = 0x0000707f;
  instruction_matcher = 0x00001003;
  execute = load_reg 2 sext16;
}

unfoldable pub lw : Instruction
lw = record {
  name = "LW";
  format = b'I';
  mask_field = 0x0000707f;
  instruction_matcher = 0x00002003;
  execute = load_reg 4 sext32;
}

unfoldable pub lbu : Instruction
lbu = record {
  name = "LBU";
  format = b'I';
  mask_field = 0x0000707f;
  instruction_matcher = 0x00004003;
  execute = load_reg 1 (λ v. v);
}

unfoldable pub lhu : Instruction
lhu = record {
  name = "LHU";
  format = b'I';
  mask_field = 0x0000707f;
  instruction_matcher = 0x00005003;
  execute = load_reg 2 (λ v. v);
}

unfoldable pub lwu : Instruction
lwu = record {
  name = "LWU";
  format = b'I';
  mask_field = 0x0000707f;
  instruction_matcher = 0x00006003;
  execute = load_reg 4 (λ v. v);
}

unfoldable pub ld : Instruction
ld = record {
  name = "LD";
  format = b'I';
  mask_field = 0x0000707f;
  instruction_matcher = 0x00003003;
  execute = load_reg 8 (λ v. v);
}

unfoldable pub sb : Instruction
sb = record {
  name = "SB";
  format = b'S';
  mask_field = 0x0000707f;
  instruction_matcher = 0x00000023;
  execute = store_reg 1;
}

unfoldable pub sh : Instruction
sh = record {
  name = "SH";
  format = b'S';
  mask_field = 0x0000707f;
  instruction_matcher = 0x00001023;
  execute = store_reg 2;
}

unfoldable pub sw : Instruction
sw = record {
  name = "SW";
  format = b'S';
  mask_field = 0x0000707f;
  instruction_matcher = 0x00002023;
  execute = store_reg 4;
}

unfoldable pub sd : Instruction
sd = record {
  name = "SD";
  format = b'S';
  mask_field = 0x0000707f;
  instruction_matcher = 0x00003023;
  execute = store_reg 8;
}

unfoldable pub lr_w : Instruction
lr_w = record {
  name = "LR.W";
  format = b'R';
  mask_field = 0xf9f0707f;
  instruction_matcher = 0x1000202f;
  execute = load_reserved 4;
}

unfoldable pub sc_w : Instruction
sc_w = record {
  name = "SC.W";
  format = b'R';
  mask_field = 0xf800707f;
  instruction_matcher = 0x1800202f;
  execute = store_conditional 4;
}

unfoldable pub lr_d : Instruction
lr_d = record {
  name = "LR.D";
  format = b'R';
  mask_field = 0xf9f0707f;
  instruction_matcher = 0x1000302f;
  execute = load_reserved 8;
}

unfoldable pub sc_d : Instruction
sc_d = record {
  name = "SC.D";
  format = b'R';
  mask_field = 0xf800707f;
  instruction_matcher = 0x1800302f;
  execute = store_conditional 8;
}
