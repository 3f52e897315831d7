-- ===== src/Tests/Traps.antt =====
-- Traps and interrupts.
use rremu.Base.{ℕ, ◌^◌, ◌≤◌, ◌≡◌, ◌⊎◌, refl, bit_and, not64, arith}
use rremu.Action.{done}
use rremu.Bits.{bit}
use rremu.Trap.{
  TrapValue, code, illegal_instruction, environment_call_from_u_mode, machine_timer_interrupt,
}
use rremu.Mmu.{user}
use rremu.Cpu.{
  Cpu, cpu_of, handle_trap, handle_interrupts, trap_target, write_csr, in_key_order,
  interrupt_handlers, mip, mie, mstatus, sstatus,
}
use rremu.Isa.System.{run_mret, run_sret}
use rremu.Traps.Return.{trap-mret, trap-sret, ToMachine, ToSupervisor}
use rremu.Traps.Target.{trap_target_lem, mideleg_ignored}
use rremu.Traps.Priority.{handle_interrupts_least, All, IsHandler, IsPending}
use rremu.Tests.Machine.{in_supervisor, delegating, interrupted}

in_supervisor-ToMachine : ToMachine illegal_instruction in_supervisor
unfolding cpu_of code
in_supervisor-ToMachine = refl

trap-mret_example :
    (c' : Cpu) × (run_mret 1 0x30200073 (handle_trap illegal_instruction in_supervisor)
      ≡ done tt c')
    × (c'.pc ≡ 0x8000_1002)
    × (c'.priv_mode ≡ user)
    × (bit 3 (c'.csrs mstatus) ≡ bit 3 (in_supervisor.csrs mstatus))
    × (c'.regs ≡ in_supervisor.regs)
    × (c'.mmu ≡ in_supervisor.mmu)
trap-mret_example = trap-mret 1 0x30200073 illegal_instruction in_supervisor in_supervisor-ToMachine

delegating-ToSupervisor : ToSupervisor environment_call_from_u_mode delegating
unfolding cpu_of code
delegating-ToSupervisor = (refl, refl)

trap-sret_example :
    (c' : Cpu) × (run_sret 1 0x10200073 (handle_trap environment_call_from_u_mode delegating)
      ≡ done tt c')
    × (c'.pc ≡ 0x8000_1002)
    × (c'.priv_mode ≡ user)
    × (bit 1 (c'.csrs sstatus) ≡ 1)
    × (c'.regs ≡ delegating.regs)
    × (c'.mmu ≡ delegating.mmu)
trap-sret_example =
    trap-sret 1 0x10200073 environment_call_from_u_mode delegating delegating-ToSupervisor

trap_target_lem_example : trap_target 0x8000_2001 (code machine_timer_interrupt) ≡ 0x8000_201c
unfolding code
trap_target_lem_example = trap_target_lem machine_timer_interrupt 0x8000_2001 (omega arith)

mideleg_ignored_example :
    (handle_trap machine_timer_interrupt (write_csr 0x303 (2 ^ 7) in_supervisor)).priv_mode
    ≡ (handle_trap machine_timer_interrupt in_supervisor).priv_mode
mideleg_ignored_example = mideleg_ignored machine_timer_interrupt in_supervisor (2 ^ 7)

handle_interrupts_least_example :
    let c = interrupted in
    let pending = bit_and (c.csrs mie) (c.csrs mip) in
    let handlers = in_key_order interrupt_handlers in
    (All (λ f. ¬ IsPending pending f) handlers × (handle_interrupts c ≡ done tt c))
    ⊎ ((e : ℕ × TrapValue) × IsHandler e handlers
        × IsPending pending e
        × All (λ f. IsPending pending f → e.0 ≤ f.0) handlers
        × (handle_interrupts c
            ≡ done tt (handle_trap e.1 (write_csr mip (bit_and (c.csrs mip) (not64 e.0)) c))))
handle_interrupts_least_example = handle_interrupts_least interrupted refl
