-- ===== src/Invariant/Steps.antt =====
-- Every step of the processor keeps the invariant.
use rremu.Base.{ℕ, none, List, [], ◌∷◌, ◌==◌, bit_and, arith}
use rremu.Action.{Action, Outcome, done, trapped, undefined, out_of_fuel}
use rremu.Cpu.{Cpu, handle_trap}
use rremu.Isa.{Instruction, instructions}
use rremu.Step.{decode_in, decode, fetch, catch_trap, step}
use rremu.Invariant.Logic.{
  Keeps, Any, Ensures, bind-Keeps, then-Keeps, if-Keeps, pure-Keeps, gets-Keeps, modify-Keeps,
  read-Keeps, throw-Keeps,
}
use rremu.Invariant.Registers.{IsValid, set_pc-Keeps, cpu_load-Keeps, update-words}
use rremu.Invariant.Traps.{handle_trap-IsValid, handle_interrupts-Keeps}
use rremu.Invariant.Shapes.{Preserves}
use rremu.Invariant.Entries.{AllPreserve, instructions-AllPreserve}

decode_in-Keeps :
    (w : ℕ) (is : List Instruction)
    → AllPreserve is
    → Keeps IsValid (λ i. Preserves i.execute) (decode_in is w)
unfolding decode_in
decode_in-Keeps w [] h = throw-Keeps
decode_in-Keeps w (i ∷ is) (p, h) =
    if-Keeps (bit_and w i.mask_field == i.instruction_matcher) (pure-Keeps p)
      (decode_in-Keeps w is h)

decode-Keeps : (w : ℕ) → Keeps IsValid (λ i. Preserves i.execute) (decode w)
unfolding decode
decode-Keeps w = decode_in-Keeps w instructions instructions-AllPreserve

fetch-Keeps : (fuel : ℕ) → Keeps IsValid Any (fetch fuel)
unfolding fetch
fetch-Keeps fuel = bind-Keeps (gets-Keeps _ (λ c h. h.pc)) (λ pc hp.
    bind-Keeps (cpu_load-Keeps fuel pc 4 none tt) (λ loaded hl.
      bind-Keeps (read-Keeps loaded hl)
        (λ inst hi. then-Keeps (set_pc-Keeps (omega arith)) (pure-Keeps tt))))

catch_trap-Keeps :
    {m : Action Cpu (Unit {0})} → Keeps IsValid Any m → Keeps IsValid Any (catch_trap m)
catch_trap-Keeps {m} h = record { apply = λ c hc. go (m c) (h.apply c hc) }
  where
    go :
        (o : Outcome Cpu (Unit {0}))
        → Ensures IsValid Any o
        → Ensures IsValid Any (elim o [
          | done a c' ↦ done a c'
          | trapped t c' ↦ done tt (handle_trap t c')
          | undefined ↦ undefined
          | out_of_fuel ↦ out_of_fuel
        ])
    go (done a c') k = k
    go (trapped t c') k = (handle_trap-IsValid t c' k, tt)
    go undefined k = tt
    go out_of_fuel k = tt

step-Keeps : (fuel : ℕ) → Keeps IsValid Any (step fuel)
unfolding step
step-Keeps fuel =
    then-Keeps
      (modify-Keeps (λ c h. record {
        pc = h.pc;
        regs = update-words c.regs 0 0 h.regs (omega arith);
        csrs = h.csrs;
        mmu = h.mmu;
      }))
      (bind-Keeps (fetch-Keeps fuel) (λ w _.
        bind-Keeps (decode-Keeps w)
          (λ i hi. then-Keeps (catch_trap-Keeps (hi fuel w)) handle_interrupts-Keeps)))

-- From a state in which registers, CSRs and `pc` hold 64-bit words, memory and the UART's registers
-- hold bytes, and the MMU's paging mode and, in Sv39 mode, its root page table are those of `satp`,
-- a step of the processor ends in such a state, whether it returns or throws, whatever instruction
-- it runs and whatever traps and interrupts it takes; where the step is undefined or runs out of
-- fuel nothing is said.
pub step-IsValid : (fuel : ℕ) (c : Cpu) → IsValid c → Ensures IsValid Any (step fuel c)
step-IsValid fuel c h = (step-Keeps fuel).apply c h
