-- ===== src/Traps/Target.antt =====
-- Where a trap goes on, and which register decides who takes it.
use rremu.Base.{
  ℕ, ◌-◌, ◌*◌, ◌/◌, ◌%◌, ◌^◌, ◌<◌, ◌≡◌, if◌then◌else◌, leb, bit_and, not64, sub64, refl, add64,
  arith,
}
use rremu.Bits.{bit_and_step, bit_and_mask}
use rremu.Trap.{TrapValue, code, interrupt_bit, instruction_address_misaligned}
use rremu.Mmu.{PrivilegeMode, user, supervisor, machine}
use rremu.Cpu.{Cpu, trap_target, handle_trap, trap_to_supervisor, trap_to_machine, write_csr}

even_part : (x : ℕ) → x < 2 ^ 64 → bit_and x (not64 1) ≡ x - x % 2
even_part x h = omega (arith, bit_and_step x (not64 1), bit_and_mask 63 (x / 2))

-- The handler of a trap, from a 64-bit `stvec` or `mtvec`: the base address; in vectored mode (bit
-- 0 set) an interrupt goes 4 bytes further for each step of its number.
pub trap_target_lem :
    (t : TrapValue) (tvec : ℕ)
    → tvec < 2 ^ 64
    → trap_target tvec (code t) ≡ (
        if leb interrupt_bit (code t)
        then add64 (tvec - tvec % 2) (tvec % 2 * (4 * (code t - interrupt_bit)))
        else tvec - tvec % 2)
unfolding trap_target code
trap_target_lem instruction_address_misaligned tvec h =
    ground (arith, even_part tvec h, bit_and_mask 1 tvec)
trap_target_lem _ tvec h = ground (arith, even_part tvec h, bit_and_mask 1 tvec)

-- The modes that the two branches end in.
entered :
    (pc : ℕ) (mode : PrivilegeMode) (cause : ℕ) (c : Cpu)
    → ((trap_to_supervisor pc mode cause c).priv_mode ≡ supervisor)
      × ((trap_to_machine pc cause c).priv_mode ≡ machine)
unfolding trap_to_supervisor trap_to_machine
entered pc user cause c = (refl, refl)
entered pc supervisor cause c = (refl, refl)
entered pc machine cause c = (refl, refl)

abbrev mideleg : ℕ
mideleg = 0x303

-- `mideleg` decides nothing: the mode that a trap, an interrupt too, ends in is the same whatever
-- that register holds.
pub mideleg_ignored :
    (t : TrapValue) (c : Cpu) (v : ℕ)
    → (handle_trap t (write_csr mideleg v c)).priv_mode ≡ (handle_trap t c).priv_mode
unfolding handle_trap
mideleg_ignored t c v = ground (
  arith,
  entered (sub64 c.pc 4) c.priv_mode (code t) c,
  entered (sub64 c.pc 4) c.priv_mode (code t) (write_csr mideleg v c),
)
