-- ===== src/Cpu/Interrupt.antt =====
-- `interrupt_handlers` and `CPU::HandleInterrupts`.
use rremu.Base.{ℕ, ◌^◌, Bool, false, List, [], ◌∷◌, if◌then◌else◌, ◌==◌, ltb, bit_and, ◌>>>◌, not64}
use rremu.Trap.{
  TrapValue, machine_external_interrupt, machine_software_interrupt, machine_timer_interrupt,
  supervisor_external_interrupt, supervisor_software_interrupt, supervisor_timer_interrupt,
}
use rremu.Action.{Action, done, ◌>>=◌, ◌>>◌, pure, modify}
use rremu.Mmu.{user, supervisor, machine}
use rremu.Cpu.State.{Cpu, get_csr, set_csr, sstatus, mstatus, mie, mip}
use rremu.Cpu.Trap.{handle_trap}

-- `enum MIP`
abbrev pub ssip : ℕ
ssip = 2 ^ 1

abbrev pub msip : ℕ
msip = 2 ^ 3

abbrev pub stip : ℕ
stip = 2 ^ 5

abbrev pub mtip : ℕ
mtip = 2 ^ 7

abbrev pub seip : ℕ
seip = 2 ^ 9

abbrev pub meip : ℕ
meip = 2 ^ 11

-- The initialiser of the map, with the interrupt that each handler raises.
abbrev pub interrupt_handlers : List (ℕ × TrapValue)
interrupt_handlers =
    (meip, machine_external_interrupt)
    ∷ (msip, machine_software_interrupt)
    ∷ (mtip, machine_timer_interrupt)
    ∷ (seip, supervisor_external_interrupt)
    ∷ (ssip, supervisor_software_interrupt)
    ∷ (stip, supervisor_timer_interrupt)
    ∷ []

-- A `std::map` iterates in the order of its keys.
unfoldable pub insert_key : ℕ × TrapValue → List (ℕ × TrapValue) → List (ℕ × TrapValue)
insert_key e [] = e ∷ []
insert_key e (f ∷ m) = if ltb e.0 f.0 then e ∷ f ∷ m else f ∷ insert_key e m

unfoldable pub in_key_order : List (ℕ × TrapValue) → List (ℕ × TrapValue)
unfolding insert_key
in_key_order [] = []
in_key_order (e ∷ m) = insert_key e (in_key_order m)

-- The handlers differ in the bit that they clear and in the interrupt that they raise.
unfoldable pub run_handler : ℕ × TrapValue → Action Cpu (Unit {0})
unfolding get_csr set_csr
run_handler (key, tval) = do
  pending ← get_csr mip
  set_csr mip (bit_and pending (not64 key))
  modify (handle_trap tval)

-- The loop of `HandleInterrupts`, which stops after the first handler that it runs.
unfoldable pub first_pending : ℕ → List (ℕ × TrapValue) → Action Cpu (Unit {0})
first_pending pending [] = pure tt
first_pending pending (e ∷ m) =
    if bit_and pending e.0 == 0 then first_pending pending m else run_handler e

-- The two early returns: interrupts of the current mode are disabled.
abbrev pub is_masked : Cpu → Bool
is_masked c = elim c.priv_mode [
  | machine ↦ bit_and (c.csrs mstatus >>> 3) 1 == 0
  | supervisor ↦ bit_and (c.csrs sstatus >>> 1) 1 == 0
  | user ↦ false
]

-- `CPU::HandleInterrupts`
unfoldable pub handle_interrupts : Action Cpu (Unit {0})
unfolding first_pending in_key_order
handle_interrupts c =
    if is_masked c
    then done tt c
    else first_pending (bit_and (c.csrs mie) (c.csrs mip)) (in_key_order interrupt_handlers) c
