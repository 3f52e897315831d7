-- ===== src/Step.antt =====
-- source/cpu.cpp: `Decode`, `Fetch`, `Step` and `Run`.
pub mod Decoding
pub mod Execution
use rremu.Base.{ℕ, zero, suc, none, List, [], ◌∷◌, ◌++◌, if◌then◌else◌, ◌==◌, bit_and, u32, add64}
use rremu.Action.{
  Action, done, trapped, undefined, out_of_fuel, ◌>>=◌, ◌>>◌, pure, gets, read, modify, throw_trap,
}
use rremu.Trap.{TrapValue, illegal_instruction}
use rremu.Ram.{update}
use rremu.Cpu.{Cpu, load, set_pc, handle_trap, handle_interrupts}
use rremu.Isa.{Instruction, instructions}

-- The loop of `CPU::Decode` over the table.
unfoldable pub decode_in : List Instruction → ℕ → Action Cpu Instruction
decode_in [] instruction = throw_trap illegal_instruction
decode_in (i ∷ is) instruction =
    if bit_and instruction i.mask_field == i.instruction_matcher
    then pure i
    else decode_in is instruction

-- `CPU::Decode`
unfoldable pub decode : ℕ → Action Cpu Instruction
decode = decode_in instructions

-- `CPU::Fetch`
unfoldable pub fetch : ℕ → Action Cpu ℕ
fetch fuel = do
  pc ← gets (λ c. c.pc)
  loaded ← load fuel pc 4 none
  inst ← read loaded
  set_pc (add64 pc 4)
  pure (u32 inst)

-- `try { m } catch(const CPUTrapException& e) { HandleTrap(e.GetTrap()); }`
abbrev pub catch_trap : Action Cpu (Unit {0}) → Action Cpu (Unit {0})
catch_trap m c = elim (m c) [
  | done a c' ↦ done a c'
  | trapped t c' ↦ done tt (handle_trap t c')
  | undefined ↦ undefined
  | out_of_fuel ↦ out_of_fuel
]

-- `reg_zero = 0`
abbrev pub clear_zero : Cpu → Cpu
clear_zero c = record c { regs = update c.regs 0 0 }

-- `CPU::Step`
unfoldable pub step : ℕ → Action Cpu (Unit {0})
step fuel = do
  modify clear_zero
  instruction ← fetch fuel
  inst ← decode instruction
  catch_trap (inst.execute fuel instruction)
  handle_interrupts

-- `n` rounds of the loop of `CPU::Run`, which writes what `Step` throws to the error stream and
-- goes on: the traps come back in order.
unfoldable pub run : ℕ → ℕ → List TrapValue → Action Cpu (List TrapValue)
run fuel zero unhandled c = done unhandled c
run fuel (suc n) unhandled c = elim (step fuel c) [
  | done _ c' ↦ run fuel n unhandled c'
  | trapped t c' ↦ run fuel n (unhandled ++ t ∷ []) c'
  | undefined ↦ undefined
  | out_of_fuel ↦ out_of_fuel
]
