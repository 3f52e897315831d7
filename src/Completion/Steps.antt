-- ===== src/Completion/Steps.antt =====
-- Steps in bare mode that return.
use rremu.Base.{ℕ, suc, ◌≡◌, ◌≢◌, List, [], ◌∷◌, inl, inr, ◌==◌, Bool-cases, bit_and}
use rremu.Trap.{TrapValue}
use rremu.Action.{Action, Outcome, done, trapped, undefined, out_of_fuel, ◌>>◌, gets}
use rremu.Mmu.{bare}
use rremu.Devices.Bare.{AtRam}
use rremu.Cpu.{
  Cpu, handle_trap, handle_interrupts, first_pending, in_key_order, interrupt_handlers, is_masked,
  run_handler, get_csr, set_csr, mie, mip,
}
use rremu.Isa.{Instruction, instructions}
use rremu.Step.{step, catch_trap}
use rremu.Step.Decoding.{IsEntry, Matches, fence_word}
use rremu.Step.Execution.{step-executes, word_at, fetched}
use rremu.Invariant.Logic.{both}
use rremu.Completion.Logic.{ComesBack}
use rremu.Completion.Entries.{total_entries, total-Completes}

-- It returns, and throws nothing.
abbrev pub Returns : Outcome Cpu (Unit {0}) → Type 0
Returns (done a s) = Unit
Returns (trapped t s) = ⊥
Returns undefined = ⊥
Returns out_of_fuel = ⊥

then-Returns :
    (m k : Action Cpu (Unit {0})) (c : Cpu)
    → Returns (m c)
    → ((c' : Cpu) → Returns (k c'))
    → Returns ((m >> k) c)
then-Returns m k c h hk = go (m c) h
  where
    go :
        (o : Outcome Cpu (Unit {0}))
        → Returns o
        → Returns (elim o [
          | done a c' ↦ k c'
          | trapped t c' ↦ trapped t c'
          | undefined ↦ undefined
          | out_of_fuel ↦ out_of_fuel
        ])
    go (done a c') h = hk c'
    go (trapped t c') h = h
    go undefined h = h
    go out_of_fuel h = h

catch_trap-Returns :
    (m : Action Cpu (Unit {0})) (c : Cpu) → ComesBack (m c) → Returns (catch_trap m c)
catch_trap-Returns m c h = go (m c) h
  where
    go :
        (o : Outcome Cpu (Unit {0}))
        → ComesBack o
        → Returns (elim o [
          | done a c' ↦ done a c'
          | trapped t c' ↦ done tt (handle_trap t c')
          | undefined ↦ undefined
          | out_of_fuel ↦ out_of_fuel
        ])
    go (done a c') h = tt
    go (trapped t c') h = tt
    go undefined h = h
    go out_of_fuel h = h

run_handler-Returns : (e : ℕ × TrapValue) (c : Cpu) → Returns (run_handler e c)
unfolding run_handler get_csr set_csr gets
run_handler-Returns e c = tt

first_pending-Returns :
    (pending : ℕ) (m : List (ℕ × TrapValue)) (c : Cpu) → Returns (first_pending pending m c)
unfolding first_pending
first_pending-Returns pending [] c = tt
first_pending-Returns pending (e ∷ m) c = elim (Bool-cases (bit_and pending e.0 == 0)) [
  | inl clear ↦ rw clear (first_pending-Returns pending m c)
  | inr set ↦ rw set (run_handler-Returns e c)
]

handle_interrupts-Returns : (c : Cpu) → Returns (handle_interrupts c)
unfolding handle_interrupts
handle_interrupts-Returns c =
    both Returns (is_masked c) tt (
      first_pending-Returns (bit_and (c.csrs mie) (c.csrs mip)) (in_key_order interrupt_handlers) c)

-- In bare mode, from a `pc` in RAM, with one unit of fuel or more, a step returns, with no
-- exception, no undefined behaviour and fuel left, where the word there matches an entry among the
-- 59 of the table that only use registers, CSRs and `pc`, without a shift whose amount the code
-- does not bound and without an indirect register number. The word is not FENCE's 0x0000000f.
pub step-Returns :
    (fuel : ℕ) (c : Cpu) (i : Instruction)
    → c.mmu.paging_mode ≡ bare
    → AtRam c.pc 4
    → IsEntry i instructions
    → IsEntry i total_entries
    → Matches (word_at c) i
    → word_at c ≢ fence_word
    → Returns (step (suc fuel) c)
step-Returns fuel c i b at e t m other =
    let execute = i.execute (suc fuel) (word_at c) in
    rw (step-executes fuel c i b at e m other) (
      then-Returns (catch_trap execute) handle_interrupts (fetched c)
        (catch_trap-Returns execute (fetched c)
          ((total-Completes i t (suc fuel) (word_at c)).apply (fetched c)))
        handle_interrupts-Returns)
