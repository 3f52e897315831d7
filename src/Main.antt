-- ===== src/Main.antt =====
-- source/main.cpp: the command line, the start of the emulator, and its loop. The files are a
-- parameter; the time that each step takes, which the loop prints too, is left out.
pub mod Start
pub mod Session
pub mod Loading
pub mod FirstStep
use Prim.Native.String.{String}
use text.Mathlib.Text.{◌==◌ as str_eq}
use rremu.Base.{
  ℕ, zero, suc, not, Option, none, some, List, [], ◌∷◌, ◌++◌, if◌then◌else◌, ltb, ◌==◌,
}
use rremu.Base.Int.{ℤ, pos, negsuc, ◌==ℤ◌}
use rremu.Action.{Action, done, trapped, undefined, out_of_fuel}
use rremu.Trap.{what}
use rremu.Bytes.{Bytes, length, get_or}
use rremu.Config.{memory_size}
use rremu.Uart.{Uart}
use rremu.Cpu.{Cpu, cpu_of}
use rremu.Elf.{ElfFormat, load_elf64, LoadResult}
use rremu.Step.{step}

-- `ParseOptions`, on all of `argv`.
unfoldable pub parse_options : List String → ℤ
parse_options argv =
    if not (length argv == 3)
    then negsuc 0
    else if str_eq (get_or argv 1 "") "-xv6"
    then pos 0
    else if str_eq (get_or argv 1 "") "-elf"
    then pos 1
    else negsuc 0

-- How `main` comes to its loop: it returns before, or has made the processor.
pub data Launch : Type 0 where
  exits : ℤ → Launch
  starts : Cpu → Launch
  undefined_launch : Launch

-- The tests on what `LoadELF64` has left.
unfoldable pub start_with : ℕ → Uart → LoadResult → Launch
start_with root uart r =
    if ltb memory_size r.binary.size
    then exits (negsuc 0)
    else if r.binary.size == 0
    then exits (negsuc 0)
    else elim r.entry_point [
      | some entry_point ↦ starts (cpu_of root uart r.binary entry_point)
      | none ↦ undefined_launch
    ]

-- `main` before its loop. The arguments of `cpu_of` that start indeterminate come first.
unfoldable pub main : ElfFormat → (String → Option Bytes) → ℕ → Uart → List String → Launch
unfolding parse_options start_with
main h files root uart argv =
    let option = parse_options argv in
    if option ==ℤ negsuc 0
    then exits (negsuc 0)
    else if option ==ℤ pos 0
    then exits (negsuc 0)
    else elim (load_elf64 h (files (get_or argv 2 ""))) [
      | some r ↦ start_with root uart r
      | none ↦ undefined_launch
    ]

-- The lines `PC: ` and `Trap: `.
pub data Line : Type 0 where
  pc_line : ℕ → Line
  trap_line : String → Line

-- `n` rounds of the loop, with the lines that have been printed: before it, that of `pc`.
unfoldable pub session : ℕ → ℕ → List Line → Action Cpu (List Line)
session fuel zero lines c = done lines c
session fuel (suc n) lines c = elim (step fuel c) [
  | done _ c' ↦ session fuel n (lines ++ pc_line c'.pc ∷ []) c'
  | trapped t c' ↦ session fuel n (lines ++ trap_line (what t) ∷ pc_line c'.pc ∷ []) c'
  | undefined ↦ undefined
  | out_of_fuel ↦ out_of_fuel
]
