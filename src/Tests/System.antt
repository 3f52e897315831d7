-- ===== src/Tests/System.antt =====
-- The CSRs and paging, and single instructions as source/cpu.cpp runs them for its tests.
use rremu.Base.{ℕ, ◌+◌, ◌^◌, ◌≤◌, ◌≡◌, refl, [], ◌∷◌, Option, some, none, u32, arith}
use rremu.Action.{Outcome, done, trapped, undefined, out_of_fuel, gets}
use rremu.Ram.{update, read_bytes, ram_of}
use rremu.Cpu.{Cpu, cpu_of, satp, write_csr, update_paging_mode, get_reg, set_reg}
use rremu.Isa.{csr_reg, reg_imm, parse_i, instructions, sign_extend_12b}
use rremu.Step.{step, decode, decode_in}
use rremu.Debug.{run_instruction}
use rremu.Bytes.{bytes}
use rremu.Mmu.{bare, mmu_of}
use rremu.Isa.Immediate.{srai}
use rremu.Step.Decoding.{Matches}
use rremu.Step.Execution.{word_at}
use rremu.Semantics.Shifts.{srai-step_undefined}
use rremu.Semantics.Csrs.{with_csr, csr_reg_lem}
use rremu.Invariant.Registers.{IsValid, write_satp-IsValid}
use rremu.Invariant.Paging.{step-diverges}
use rremu.Tests.Machine.{start, blank_uart}
use rremu.Tests.Processor.{start-IsValid, start-AtRam}

-- `csrrw x2, satp, x1`, with bit 63 and the root page 5 in `x1`.
abbrev root_in_x1 : Cpu
root_in_x1 = record start { regs = update start.regs 1 (2 ^ 63 + 5) }

csr_reg_lem_example :
    csr_reg (λ csr a. a) 1 0x18009173 root_in_x1
    ≡ done tt (record (with_csr satp (2 ^ 63 + 5) root_in_x1) {
      regs = update root_in_x1.regs 2 (u32 (root_in_x1.csrs satp));
    })
unfolding parse_i
csr_reg_lem_example = csr_reg_lem (λ csr a. a) 1 0x18009173 root_in_x1 (omega arith)

abbrev paging_on : Cpu
paging_on = update_paging_mode (2 ^ 63) (write_csr satp (2 ^ 63) start)

paging_on-IsValid : IsValid paging_on
paging_on-IsValid = write_satp-IsValid (2 ^ 63) (omega arith) start-IsValid

paging_on-satp : 2 ^ 63 ≤ paging_on.csrs satp
unfolding update_paging_mode
paging_on-satp = omega arith

step-diverges_example : step 100 paging_on ≡ out_of_fuel
step-diverges_example = step-diverges 100 paging_on paging_on-IsValid paging_on-satp

-- A register after a run that returns.
abbrev reg_after : {A : Type 0} → ℕ → Outcome Cpu A → Option ℕ
reg_after r (done a c) = some (c.regs r)
reg_after r (trapped t c) = none
reg_after r undefined = none
reg_after r out_of_fuel = none

-- `addi x1, x0, 4`, as in tests/cpu_test.cpp.
addi_runs : reg_after 1 (run_instruction 1 0x00400093 start) ≡ some 4
unfolding run_instruction decode decode_in instructions gets reg_imm get_reg set_reg parse_i cpu_of
    sign_extend_12b
addi_runs = refl

-- `srai x1, x1, 1` at the start of memory.
abbrev shifting : Cpu
shifting = record start { mmu = mmu_of 0 blank_uart (bytes (0x93 ∷ 0xd0 ∷ 0x10 ∷ 0x40 ∷ [])) }

shifting-bare : shifting.mmu.paging_mode ≡ bare
unfolding mmu_of
shifting-bare = refl

shifting-Matches : Matches (word_at shifting) srai
unfolding srai word_at read_bytes cpu_of mmu_of ram_of
shifting-Matches = refl

srai-step_undefined_example : step 1 shifting ≡ undefined
srai-step_undefined_example =
    srai-step_undefined 0 shifting shifting-bare start-AtRam shifting-Matches
