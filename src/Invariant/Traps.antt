-- ===== src/Invariant/Traps.antt =====
-- Traps and interrupts keep the invariant.
use rremu.Base.{ℕ, refl, ◌*◌, ◌^◌, ◌&&◌, bit_and, not64, sub64, List, [], ◌∷◌, ◌==◌, arith}
use rremu.Bits.{bit_or-lt}
use rremu.Trap.{TrapValue, code, instruction_address_misaligned}
use rremu.Mmu.{PrivilegeMode, user, supervisor, machine}
use rremu.Cpu.{
  Cpu, write_csr, mstatus, mtval, mcause, mepc, mtvec, sstatus, stval, scause, sepc, stvec, mip,
  mie, copy_bit, trap_target, trap_to_supervisor, trap_to_machine, handle_trap, is_below_machine,
  is_delegated, run_handler, first_pending, handle_interrupts, is_masked, in_key_order,
  interrupt_handlers,
}
use rremu.Invariant.Logic.{
  both, Ensures, Keeps, Any, if-Keeps, bind-Keeps, pure-Keeps, then-Keeps, modify-Keeps,
}
use rremu.Invariant.Memory.{IsWord}
use rremu.Invariant.Registers.{
  IsValid, write_csr-IsValid, and-IsWord, copy_bit-IsWord, get_csr-Keeps, set_csr-Keeps,
}

code-IsWord : (t : TrapValue) → IsWord (code t)
unfolding code
code-IsWord instruction_address_misaligned = omega arith
code-IsWord _ = omega arith

trap_target-IsWord : (tvec cause : ℕ) → IsWord tvec → IsWord (trap_target tvec cause)
unfolding trap_target
trap_target-IsWord tvec cause h = ground (arith, and-IsWord tvec (not64 1) h)

module _ (pc cause : ℕ) (hp : IsWord pc) (hc : IsWord cause) {c : Cpu} (h : IsValid c) where
  trap_to_machine-IsValid : IsValid (trap_to_machine pc cause c)
  unfolding trap_to_machine
  trap_to_machine-IsValid =
      let s = c.csrs mstatus in
      let s1 = copy_bit 3 7 s in
      let s2 = bit_and s1 (not64 (2 ^ 3)) in
      let w1 : IsWord s1 = copy_bit-IsWord 3 7 s (omega arith) (h.csrs mstatus) in
      let w2 : IsWord s2 = and-IsWord s1 (not64 (2 ^ 3)) w1 in
      write_csr-IsValid mstatus _ refl (and-IsWord s2 (not64 (3 * 2 ^ 11)) w2) (
        write_csr-IsValid mstatus _ refl w2 (
          write_csr-IsValid mstatus _ refl w1 (
            write_csr-IsValid mtval 0 refl (omega arith) (
              write_csr-IsValid mcause cause refl hc (
                write_csr-IsValid mepc _ refl (and-IsWord pc (not64 1) hp) (record {
                  pc = trap_target-IsWord (c.csrs mtvec) cause (h.csrs mtvec);
                  regs = h.regs;
                  csrs = h.csrs;
                  mmu = h.mmu;
                }))))))

  -- Both modes end with a write of `sstatus`.
  supervisor_entered :
      (v : ℕ)
      → IsWord v
      → let s1 = copy_bit 1 5 (c.csrs sstatus) in
        IsValid (
          write_csr sstatus v (
            write_csr sstatus (bit_and s1 (not64 (2 ^ 1))) (
              write_csr sstatus s1 (
                write_csr stval 0 (
                  write_csr scause cause (
                    write_csr sepc (bit_and pc (not64 1)) (record c {
                      priv_mode = supervisor;
                      pc = trap_target (c.csrs stvec) cause;
                    })))))))
  supervisor_entered v hv =
      let s1 = copy_bit 1 5 (c.csrs sstatus) in
      let w1 : IsWord s1 = copy_bit-IsWord 1 5 (c.csrs sstatus) (omega arith) (h.csrs sstatus) in
      write_csr-IsValid sstatus v refl hv (
        write_csr-IsValid sstatus _ refl (and-IsWord s1 (not64 (2 ^ 1)) w1) (
          write_csr-IsValid sstatus _ refl w1 (
            write_csr-IsValid stval 0 refl (omega arith) (
              write_csr-IsValid scause cause refl hc (
                write_csr-IsValid sepc _ refl (and-IsWord pc (not64 1) hp) (record {
                  pc = trap_target-IsWord (c.csrs stvec) cause (h.csrs stvec);
                  regs = h.regs;
                  csrs = h.csrs;
                  mmu = h.mmu;
                }))))))

  supervisor_status : IsWord (bit_and (copy_bit 1 5 (c.csrs sstatus)) (not64 (2 ^ 1)))
  supervisor_status =
      let s1 = copy_bit 1 5 (c.csrs sstatus) in
      and-IsWord s1 (not64 (2 ^ 1))
        (copy_bit-IsWord 1 5 (c.csrs sstatus) (omega arith) (h.csrs sstatus))

  trap_to_supervisor-IsValid : (mode : PrivilegeMode) → IsValid (trap_to_supervisor pc mode cause c)
  unfolding trap_to_supervisor
  trap_to_supervisor-IsValid user =
      supervisor_entered _ (and-IsWord _ (not64 (2 ^ 8)) supervisor_status)
  trap_to_supervisor-IsValid supervisor =
      supervisor_entered _ (bit_or-lt 64 _ (2 ^ 8) supervisor_status (omega arith))
  trap_to_supervisor-IsValid machine =
      supervisor_entered _ (bit_or-lt 64 _ (2 ^ 8) supervisor_status (omega arith))

pub handle_trap-IsValid : (t : TrapValue) (c : Cpu) → IsValid c → IsValid (handle_trap t c)
unfolding handle_trap
handle_trap-IsValid t c h =
    both IsValid (is_below_machine c.priv_mode && is_delegated c (code t))
      (trap_to_supervisor-IsValid (sub64 c.pc 4) (code t) (omega arith) (code-IsWord t) h
        c.priv_mode)
      (trap_to_machine-IsValid (sub64 c.pc 4) (code t) (omega arith) (code-IsWord t) h)

run_handler-Keeps : (e : ℕ × TrapValue) → Keeps IsValid Any (run_handler e)
unfolding run_handler
run_handler-Keeps (key, t) = bind-Keeps (get_csr-Keeps mip) (λ pending hp.
    then-Keeps (set_csr-Keeps mip _ (and-IsWord pending (not64 key) hp))
      (modify-Keeps (λ c h. handle_trap-IsValid t c h)))

first_pending-Keeps :
    (pending : ℕ) (m : List (ℕ × TrapValue)) → Keeps IsValid Any (first_pending pending m)
unfolding first_pending
first_pending-Keeps pending [] = pure-Keeps tt
first_pending-Keeps pending (e ∷ m) =
    if-Keeps (bit_and pending e.0 == 0) (first_pending-Keeps pending m) (run_handler-Keeps e)

pub handle_interrupts-Keeps : Keeps IsValid Any handle_interrupts
unfolding handle_interrupts
handle_interrupts-Keeps = record {
  apply = λ c h.
      both (Ensures IsValid Any) (is_masked c) (h, tt)
        ((first_pending-Keeps (bit_and (c.csrs mie) (c.csrs mip))
            (in_key_order interrupt_handlers)).apply
          c h);
}
