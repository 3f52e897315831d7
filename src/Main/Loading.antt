-- ===== src/Main/Loading.antt =====
-- From the command line to a processor that is ready to run the program of an ELF file.
use Prim.Native.String.{String}
use rremu.Base.{
  ℕ, zero, suc, ◌++◌, ◌<◌, ◌≡◌, ◌∙◌, refl, lt→ltb, Option, none, some, List, [], ◌∷◌, arith,
}
use rremu.Bytes.{Bytes}
use rremu.Config.{memory_size}
use rremu.Uart.{Uart}
use rremu.Mmu.{bare, machine, mmu_of}
use rremu.Ram.{ram_of}
use rremu.Cpu.{Cpu, cpu_of}
use rremu.Elf.{ElfFormat, IsLawful, load_elf64, LoadResult}
use rremu.Elf.Image.{IsLoadable, image, pick, segments, load_elf64-image}
use rremu.Step.{step}
use rremu.Action.{Outcome, done, trapped, undefined, out_of_fuel}
use rremu.Trap.{what}
use rremu.Invariant.Logic.{Ensures, Any}
use rremu.Invariant.Steps.{step-IsValid}
use rremu.Invariant.Memory.{AreBytes, UartIsValid}
use rremu.Invariant.Registers.{IsValid}
use rremu.Invariant.Initial.{cpu_of-IsValid}
use rremu.Main.{Line, pc_line, trap_line, starts, parse_options, start_with, main, session}

pick-lt : (binary : Bytes) (o : Option ℕ) → AreBytes binary.get → pick binary 0 o < 256
unfolding pick
pick-lt binary none h = omega arith
pick-lt binary (some j) h = h j

-- The loop of `main` keeps the invariant.
session-IsValid :
    (fuel n : ℕ) (lines : List Line) (c : Cpu)
    → IsValid c
    → Ensures IsValid Any (session fuel n lines c)
unfolding session
session-IsValid fuel zero lines c h = (h, tt)
session-IsValid fuel (suc n) lines c h =
    go (step fuel c) (step-IsValid fuel c h) (λ l c' k. session-IsValid fuel n l c' k)
  where
    go :
        (o : Outcome Cpu (Unit {0}))
        → Ensures IsValid Any o
        → ((l : List Line) (c' : Cpu) → IsValid c' → Ensures IsValid Any (session fuel n l c'))
        → Ensures IsValid Any (elim o [
          | done _ c' ↦ session fuel n (lines ++ pc_line c'.pc ∷ []) c'
          | trapped t c' ↦ session fuel n (lines ++ trap_line (what t) ∷ pc_line c'.pc ∷ []) c'
          | undefined ↦ undefined
          | out_of_fuel ↦ out_of_fuel
        ])
    go (done a c') k next = next (lines ++ pc_line c'.pc ∷ []) c' k.0
    go (trapped t c') k next = next (lines ++ trap_line (what t) ∷ pc_line c'.pc ∷ []) c' k
    go undefined k next = tt
    go out_of_fuel k next = tt

-- What the program finds: the machine that a reset leaves, the entry point of the file, and its
-- segments in memory.
pub record IsReady (h : ElfFormat) (binary : Bytes) (c : Cpu) : Type 0 where
  pub pc : c.pc ≡ (h.ehdr binary.get).e_entry
  pub mode : c.priv_mode ≡ machine
  pub paging : c.mmu.paging_mode ≡ bare
  pub regs : (i : ℕ) → c.regs i ≡ 0
  pub csrs : (i : ℕ) → c.csrs i ≡ 0
  pub ram :
      (i : ℕ) → i < memory_size → c.mmu.ram.mem i ≡ pick binary 0 (image h (segments h binary) i)

module _ (h : ElfFormat) (root : ℕ) (uart : Uart) (binary : Bytes) where
  main-loaded :
      (files : String → Option Bytes) (prog file : String) (r : LoadResult)
      → load_elf64 h (files file) ≡ some r
      → main h files root uart (prog ∷ "-elf" ∷ file ∷ []) ≡ start_with root uart r
  unfolding main parse_options
  main-loaded files prog file r e = rw e refl

  cpu_of-IsReady :
      (mem : Bytes)
      → mem.size ≡ memory_size
      → ((i : ℕ) → mem.get i ≡ pick binary 0 (image h (segments h binary) i))
      → IsReady h binary (cpu_of root uart mem (h.ehdr binary.get).e_entry)
  unfolding cpu_of mmu_of ram_of
  cpu_of-IsReady mem size same = record {
    pc = refl;
    mode = refl;
    paging = refl;
    regs = λ i. refl;
    csrs = λ i. refl;
    ram = λ i p. rw (size, lt→ltb i memory_size p) (same i);
  }

  -- With `-elf` and a file that can be opened, is made of bytes and is well-formed (the header that
  -- the code asks for, a table of segments within the file, and loadable segments that lie in
  -- memory and in the file), `main` starts its loop in the machine that a reset leaves, in machine
  -- and bare mode with registers and CSRs 0, at the file's entry point, with the image of its
  -- segments in RAM; and any number of rounds of the loop then keeps the invariant (64-bit words,
  -- bytes, and an MMU that follows `satp`), where no round is undefined or runs out of fuel.
  -- `e_entry` has 64 bits, and the UART's registers hold bytes.
  pub main-IsReady :
      (files : String → Option Bytes) (prog file : String)
      → IsLawful h
      → files file ≡ some binary
      → IsLoadable h binary
      → AreBytes binary.get
      → UartIsValid uart
      → (c : Cpu) × (main h files root uart (prog ∷ "-elf" ∷ file ∷ []) ≡ starts c)
        × IsReady h binary c
        × ((fuel n : ℕ) → Ensures IsValid Any (session fuel n (pc_line c.pc ∷ []) c))
  main-IsReady files prog file lawful opened loadable bytes buffer =
      let (mem, loaded, size, same) = load_elf64-image h binary loadable in
      let r : LoadResult = record {
        binary = mem;
        entry_point = some (h.ehdr binary.get).e_entry;
        error = none;
      } in
      let opened_and_loaded : load_elf64 h (files file) ≡ some r = rw opened loaded in
      let c = cpu_of root uart mem (h.ehdr binary.get).e_entry in
      let valid : IsValid c =
        cpu_of-IsValid root uart mem (h.ehdr binary.get).e_entry buffer
          (λ i. rw (same i) (pick-lt binary (image h (segments h binary) i) bytes))
          (lawful.e_entry-lt binary.get) in
      (
        c,
        main-loaded files prog file r opened_and_loaded ∙ (unfold start_with in rw size refl),
        cpu_of-IsReady mem size same,
        λ fuel n. session-IsValid fuel n (pc_line c.pc ∷ []) c valid,
      )
