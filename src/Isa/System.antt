-- ===== src/Isa/System.antt =====
-- source/cpu.cpp, `instructions[]`: the privileged and system instructions of the table, and the fences, which do nothing.
use rremu.Base.{◌*◌, ◌^◌, if◌then◌else◌, ◌==◌, bit_and, bit_or, ◌>>>◌, not64}
use rremu.Action.{◌>>=◌, ◌>>◌, pure, gets, throw_trap}
use rremu.Trap.{
  TrapValue, environment_call_from_m_mode, environment_call_from_s_mode,
  environment_call_from_u_mode,
}
use rremu.Mmu.{PrivilegeMode, user, supervisor, machine}
use rremu.Cpu.{get_csr, set_csr, set_pc, set_mode, copy_bit, sepc, sstatus, mepc, mstatus}
use rremu.Isa.Shapes.{Instruction, Execute}

-- `execute` of SRET and of MRET.
unfoldable pub run_sret : Execute
run_sret fuel instruction = do
  set_pc (← get_csr sepc)
  status0 ← get_csr sstatus
  set_mode (if bit_and (status0 >>> 8) 1 == 0 then user else supervisor)
  set_csr sstatus (copy_bit 5 1 status0)
  status1 ← get_csr sstatus
  set_csr sstatus (bit_or status1 (2 ^ 5))
  status2 ← get_csr sstatus
  set_csr sstatus (bit_and status2 (not64 (2 ^ 8)))

unfoldable pub run_mret : Execute
run_mret fuel instruction = do
  set_pc (← get_csr mepc)
  status0 ← get_csr mstatus
  let mpp = bit_and (status0 >>> 11) 3
  set_mode (if mpp == 2 then machine else if mpp == 1 then supervisor else user)
  set_csr mstatus (copy_bit 7 3 status0)
  status1 ← get_csr mstatus
  set_csr mstatus (bit_or status1 (2 ^ 7))
  status2 ← get_csr mstatus
  set_csr mstatus (bit_and status2 (not64 (3 * 2 ^ 11)))

-- `execute` of ECALL.
unfoldable pub call_trap : PrivilegeMode → TrapValue
call_trap machine = environment_call_from_m_mode
call_trap supervisor = environment_call_from_s_mode
call_trap user = environment_call_from_u_mode

unfoldable pub run_ecall : Execute
run_ecall fuel instruction = do mode ← gets (λ c. c.priv_mode); throw_trap (call_trap mode)

unfoldable pub sret : Instruction
sret = record {
  name = "SRET";
  format = b'R';
  mask_field = 0xffffffff;
  instruction_matcher = 0x10200073;
  execute = run_sret;
}

unfoldable pub mret : Instruction
mret = record {
  name = "MRET";
  format = b'R';
  mask_field = 0xffffffff;
  instruction_matcher = 0x30200073;
  execute = run_mret;
}

unfoldable pub ecall : Instruction
ecall = record {
  name = "ECALL";
  format = b'I';
  mask_field = 0xffffffff;
  instruction_matcher = 0x00000073;
  execute = run_ecall;
}

unfoldable pub ebreak : Instruction
ebreak = record {
  name = "EBREAK";
  format = b'I';
  mask_field = 0xffffffff;
  instruction_matcher = 0x00100073;
  execute = λ fuel instruction. pure tt;
}

unfoldable pub fence : Instruction
fence = record {
  name = "FENCE";
  format = b'I';
  mask_field = 0xffffffff;
  instruction_matcher = 0x0000000f;
  execute = λ fuel instruction. pure tt;
}

unfoldable pub fence_i : Instruction
fence_i = record {
  name = "FENCE.I";
  format = b'I';
  mask_field = 0x0000007f;
  instruction_matcher = 0x0000000f;
  execute = λ fuel instruction. pure tt;
}
