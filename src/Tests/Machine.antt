-- ===== src/Tests/Machine.antt =====
-- A machine for the tests: memory holds zeros, the UART's registers start at 0.
use rremu.Base.{◌+◌, ◌^◌, if◌then◌else◌, ◌==◌}
use rremu.Bytes.{no_bytes}
use rremu.Config.{kernbase}
use rremu.Uart.{Uart}
use rremu.Ram.{Ram}
use rremu.Mmu.{Mmu, sv39, set_paging_mode, mmu_of, user, supervisor}
use rremu.Cpu.{Cpu, cpu_of, medeleg, sstatus}

abbrev pub blank_uart : Uart
blank_uart = record { buffer = λ _. 0 }

abbrev pub blank_ram : Ram
blank_ram = record { mem = λ _. 0 }

abbrev pub start : Cpu
start = cpu_of 0 blank_uart no_bytes kernbase

abbrev pub paged : Mmu
paged = set_paging_mode sv39 (mmu_of 1 blank_uart no_bytes)

-- In supervisor mode, with no trap delegated.
abbrev pub in_supervisor : Cpu
in_supervisor = record start { priv_mode = supervisor; pc = 0x8000_1006 }

-- In user mode, with the calls from user mode delegated.
abbrev pub delegating : Cpu
delegating = record start {
  priv_mode = user;
  pc = 0x8000_1006;
  csrs = λ k. if k == medeleg then 2 ^ 8 else if k == sstatus then 2 else 0;
}

-- In user mode, with the external and the software interrupts of both modes pending.
abbrev pub interrupted : Cpu
interrupted = record start { priv_mode = user; csrs = λ _. 2 ^ 1 + 2 ^ 3 + 2 ^ 9 + 2 ^ 11 }
