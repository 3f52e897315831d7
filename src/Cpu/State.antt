-- ===== src/Cpu/State.antt =====
-- The members of `class CPU` and their accessors.
use rremu.Base.{ℕ, ◌-◌, ◌^◌, Option, if◌then◌else◌, ◌==◌, ltb, bit_and, ◌>>>◌}
use rremu.Bytes.{Bytes}
use rremu.Action.{on_member, Action, ◌>>◌, pure, gets, modify, defined_if}
use rremu.Config.{n_reg, n_csr}
use rremu.Ram.{update}
use rremu.Uart.{Uart}
use rremu.Mmu.{
  Mmu, PrivilegeMode, machine, bare, sv39, mmu_of, set_paging_mode, set_root_page_table,
}
use rremu.Mmu

pub record Cpu : Type 0 where
  pub pc : ℕ
  pub regs : ℕ → ℕ
  pub csrs : ℕ → ℕ
  pub priv_mode : PrivilegeMode
  pub mmu : Mmu

-- The constructor with an entry point; the one without has `kernbase` for it. The arguments of
-- `mmu_of` that start indeterminate come first.
unfoldable pub cpu_of : ℕ → Uart → Bytes → ℕ → Cpu
cpu_of root uart binary entry_point = record {
  pc = entry_point;
  regs = λ _. 0;
  csrs = λ _. 0;
  priv_mode = machine;
  mmu = mmu_of root uart binary;
}

-- `enum CSR`
abbrev pub sstatus : ℕ
sstatus = 0x100

abbrev pub stvec : ℕ
stvec = 0x105

abbrev pub sepc : ℕ
sepc = 0x141

abbrev pub scause : ℕ
scause = 0x142

abbrev pub stval : ℕ
stval = 0x143

abbrev pub satp : ℕ
satp = 0x180

abbrev pub mstatus : ℕ
mstatus = 0x300

abbrev pub medeleg : ℕ
medeleg = 0x302

abbrev pub mie : ℕ
mie = 0x304

abbrev pub mtvec : ℕ
mtvec = 0x305

abbrev pub mepc : ℕ
mepc = 0x341

abbrev pub mcause : ℕ
mcause = 0x342

abbrev pub mtval : ℕ
mtval = 0x343

abbrev pub mip : ℕ
mip = 0x344

-- A call on the member `mmu`.
abbrev pub on_mmu : {A : Type 0} → Action Mmu A → Action Cpu A
on_mmu = on_member (λ c. c.mmu) (λ c m. record c { mmu = m })

-- `CPU::Load` and `CPU::Store`
unfoldable pub load : ℕ → ℕ → ℕ → Option ℕ → Action Cpu (Option ℕ)
load fuel addr size data' = on_mmu (Mmu.load fuel addr size data')

unfoldable pub store : ℕ → ℕ → ℕ → ℕ → Action Cpu (Unit {0})
store fuel addr size data' = on_mmu (Mmu.store fuel addr size data')

abbrev pub set_pc : ℕ → Action Cpu (Unit {0})
set_pc addr = modify (λ c. record c { pc = addr })

abbrev pub set_mode : PrivilegeMode → Action Cpu (Unit {0})
set_mode mode = modify (λ c. record c { priv_mode = mode })

-- `GetReg` and `SetReg`; an index outside the array is undefined.
unfoldable pub get_reg : ℕ → Action Cpu ℕ
get_reg reg = defined_if (ltb reg n_reg) >> gets (λ c. c.regs reg)

unfoldable pub set_reg : ℕ → ℕ → Action Cpu (Unit {0})
set_reg reg val =
    defined_if (ltb reg n_reg) >> modify (λ c. record c { regs = update c.regs reg val })

abbrev pub xlen : ℕ
xlen = 64

-- `UpdatePagingMode`, with `mask<63, 63>` and `mask<0, 43>`; its other branch, for an `xlen` that
-- is not 64, is never taken.
unfoldable pub update_paging_mode : ℕ → Cpu → Cpu
update_paging_mode satp_val c =
    let mode = if bit_and (satp_val >>> 63) (2 ^ 1 - 1) == 0 then bare else sv39 in
    record c {
      mmu =
          set_root_page_table (bit_and (satp_val >>> 0) (2 ^ 44 - 1)) (set_paging_mode mode c.mmu);
    }

-- `csrs[csr] = val`
abbrev pub write_csr : ℕ → ℕ → Cpu → Cpu
write_csr csr val c = record c { csrs = update c.csrs csr val }

-- `GetCsr` and `SetCsr`
unfoldable pub get_csr : ℕ → Action Cpu ℕ
get_csr csr = defined_if (ltb csr n_csr) >> gets (λ c. c.csrs csr)

unfoldable pub set_csr : ℕ → ℕ → Action Cpu (Unit {0})
unfolding update_paging_mode
set_csr csr val = do
  defined_if (ltb csr n_csr)
  modify (write_csr csr val)
  if csr == satp then modify (update_paging_mode val) else pure tt
