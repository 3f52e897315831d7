-- ===== src/Cpu/Trap.antt =====
-- `CPU::HandleTrap`: which mode takes the trap, where it goes on, and what the CSRs record.
use rremu.Base.{
  ℕ, ◌*◌, ◌^◌, Bool, true, false, ◌&&◌, not, if◌then◌else◌, ◌==◌, bit_and, bit_or, ◌>>>◌, not64,
  add64, sub64, mul64,
}
use rremu.Trap.{TrapValue, code, interrupt_bit}
use rremu.Mmu.{PrivilegeMode, user, supervisor, machine}
use rremu.Cpu.State.{
  Cpu, write_csr, sstatus, stvec, sepc, scause, stval, mstatus, medeleg, mtvec, mepc, mcause, mtval,
}

-- `mode == SUPERVISOR || mode == USER`
abbrev pub is_below_machine : PrivilegeMode → Bool
is_below_machine user = true
is_below_machine supervisor = true
is_below_machine machine = false

abbrev pub is_interrupt : ℕ → Bool
is_interrupt cause = not (bit_and cause interrupt_bit == 0)

-- `(csrs[medeleg] >> (cause & ~interrupt_bit)) & 1`, for interrupts too
abbrev pub is_delegated : Cpu → ℕ → Bool
is_delegated c cause = not (bit_and (c.csrs medeleg >>> bit_and cause (not64 interrupt_bit)) 1 == 0)

-- The new `pc` from `stvec` or `mtvec`.
unfoldable pub trap_target : ℕ → ℕ → ℕ
trap_target tvec cause =
    if is_interrupt cause
    then (let vec = if bit_and tvec 1 == 0 then 0 else mul64 4 cause in
        add64 (bit_and tvec (not64 1)) vec)
    else bit_and tvec (not64 1)

-- A status register with the bit `to` set to the value of the bit `from`.
abbrev pub copy_bit : ℕ → ℕ → ℕ → ℕ
copy_bit from to status =
    if bit_and (status >>> from) 1 == 0
    then bit_and status (not64 (2 ^ to))
    else bit_or status (2 ^ to)

-- The branch of a delegated trap.
unfoldable pub trap_to_supervisor : ℕ → PrivilegeMode → ℕ → Cpu → Cpu
unfolding trap_target
trap_to_supervisor trap_pc trap_priv_mode cause c0 =
    let c1 = record c0 { priv_mode = supervisor; pc = trap_target (c0.csrs stvec) cause } in
    let c2 = write_csr sepc (bit_and trap_pc (not64 1)) c1 in
    let c3 = write_csr scause cause c2 in
    let c4 = write_csr stval 0 c3 in
    let c5 = write_csr sstatus (copy_bit 1 5 (c4.csrs sstatus)) c4 in
    let c6 = write_csr sstatus (bit_and (c5.csrs sstatus) (not64 (2 ^ 1))) c5 in
    elim trap_priv_mode [
      | user ↦ write_csr sstatus (bit_and (c6.csrs sstatus) (not64 (2 ^ 8))) c6
      | _ ↦ write_csr sstatus (bit_or (c6.csrs sstatus) (2 ^ 8)) c6
    ]

-- The branch of a trap that machine mode takes.
unfoldable pub trap_to_machine : ℕ → ℕ → Cpu → Cpu
unfolding trap_target
trap_to_machine trap_pc cause c0 =
    let c1 = record c0 { priv_mode = machine; pc = trap_target (c0.csrs mtvec) cause } in
    let c2 = write_csr mepc (bit_and trap_pc (not64 1)) c1 in
    let c3 = write_csr mcause cause c2 in
    let c4 = write_csr mtval 0 c3 in
    let c5 = write_csr mstatus (copy_bit 3 7 (c4.csrs mstatus)) c4 in
    let c6 = write_csr mstatus (bit_and (c5.csrs mstatus) (not64 (2 ^ 3))) c5 in
    write_csr mstatus (bit_and (c6.csrs mstatus) (not64 (3 * 2 ^ 11))) c6

-- `CPU::HandleTrap`
unfoldable pub handle_trap : TrapValue → Cpu → Cpu
unfolding trap_to_supervisor trap_to_machine code
handle_trap tval c =
    let trap_pc = sub64 c.pc 4 in
    let cause = code tval in
    if is_below_machine c.priv_mode && is_delegated c cause
    then trap_to_supervisor trap_pc c.priv_mode cause c
    else trap_to_machine trap_pc cause c
