-- ===== src/Tests/Loader.antt =====
-- The loader and `main` on a small ELF file, and what the Dump functions show.
use Prim.Native.String.{String}
use mathlib.Core.Option as Option
use rremu.Base.{
  ℕ, zero, suc, ◌+◌, ◌-◌, ◌*◌, inl, inr, ◌%◌, ◌^◌, ◌<◌, ◌≡◌, refl, ◌⊎◌, ◌↔◌, Bool, true, false,
  ◌&&◌, ltb, Option, none, some, List, [], ◌∷◌, ◌++◌, arith,
}
use rremu.Base.Int.{negsuc}
use rremu.Bytes.{Bytes, bytes, get_or}
use rremu.Config.{memory_size, n_csr}
use rremu.Ram.{read_bytes}
use rremu.Cpu.{Cpu, handle_interrupts}
use rremu.Elf.{Elf64Ehdr, Elf64Phdr, ElfFormat, IsLawful, phdrs_at, load_elf64}
use rremu.Elf.Image.{IsLoadable, image, pick, segments, load_elf64-image}
use rremu.Elf.Bounds.{HasWords, MeetsOverrun}
use rremu.Elf.Undefined.{IsRiscvElf, load_elf64-undefined_iff}
use rremu.Main.{exits, starts, main}
use rremu.Main.Start.{Asks, Launches, main-cases}
use rremu.Main.Loading.{IsReady, main-IsReady}
use rremu.Main.FirstStep.{entry, image_word, main-first_step}
use rremu.Action.{◌>>◌}
use rremu.Devices.Bare.{AtRam}
use rremu.Step.{step, catch_trap}
use rremu.Step.Decoding.{Matches}
use rremu.Step.Execution.{fetched}
use rremu.Isa.Jumps.{lui}
use rremu.Tests.Processor.{lui_first}
use rremu.Main.Session.{Same, session-run_from}
use rremu.Main.{session, pc_line}
use rremu.Step.{run}
use rremu.Debug.{dump_regs, dump_csrs}
use rremu.Debug.Output.{
  render, text, newline, decimal, hexadecimal, register_lines, csr_lines, render-dump,
}
use rremu.Invariant.Logic.{Ensures, Any}
use rremu.Invariant.Memory.{AreBytes}
use rremu.Invariant.Registers.{IsValid}
use rremu.Tests.Machine.{start, blank_uart}

-- The 64-bit little-endian format, with the fields at their offsets.
abbrev ehdr_at : (ℕ → ℕ) → Elf64Ehdr
ehdr_at get = record {
  e_ident = get;
  e_machine = read_bytes get 18 2;
  e_entry = read_bytes get 24 8 % 2 ^ 64;
  e_phoff = read_bytes get 32 8;
  e_phnum = read_bytes get 56 2;
}

abbrev phdr_at : (ℕ → ℕ) → Elf64Phdr
phdr_at get = record {
  p_type = read_bytes get 0 4;
  p_offset = read_bytes get 8 8;
  p_vaddr = read_bytes get 16 8 % 2 ^ 64;
  p_filesz = read_bytes get 32 8;
  p_memsz = read_bytes get 40 8 % 2 ^ 64;
}

abbrev format : ElfFormat
format = record {
  elfmag0 = 0x7f;
  elfmag1 = 0x45;
  elfmag2 = 0x4c;
  elfmag3 = 0x46;
  ei_class = 4;
  elfclass64 = 2;
  em_riscv = 243;
  pt_load = 1;
  sizeof_ehdr = 64;
  sizeof_phdr = 56;
  ehdr = ehdr_at;
  phdr = phdr_at;
}

format-IsLawful : IsLawful format
format-IsLawful = record { e_entry-lt = λ get. omega arith }

-- One segment: `lui x1, 1` at the start of memory.
abbrev header_bytes : List ℕ
header_bytes =
    127 ∷ 69 ∷ 76 ∷ 70 ∷ 2 ∷ 1 ∷ 1 ∷ 0 ∷ 0 ∷ 0 ∷ 0 ∷ 0 ∷ 0 ∷ 0 ∷ 0 ∷ 0 ∷ 2 ∷ 0 ∷ 243 ∷ 0 ∷ 1 ∷ 0 ∷ 0
    ∷ 0 ∷ 0 ∷ 0 ∷ 0 ∷ 128 ∷ 0 ∷ 0 ∷ 0 ∷ 0 ∷ 64 ∷ 0 ∷ 0 ∷ 0 ∷ 0 ∷ 0 ∷ 0 ∷ 0 ∷ 0 ∷ 0 ∷ 0 ∷ 0 ∷ 0 ∷ 0
    ∷ 0 ∷ 0 ∷ 0 ∷ 0 ∷ 0 ∷ 0 ∷ 64 ∷ 0 ∷ 56 ∷ 0 ∷ 1 ∷ 0 ∷ 0 ∷ 0 ∷ 0 ∷ 0 ∷ 0 ∷ 0 ∷ []

abbrev phdr_bytes : List ℕ
phdr_bytes =
    1 ∷ 0 ∷ 0 ∷ 0 ∷ 5 ∷ 0 ∷ 0 ∷ 0 ∷ 120 ∷ 0 ∷ 0 ∷ 0 ∷ 0 ∷ 0 ∷ 0 ∷ 0 ∷ 0 ∷ 0 ∷ 0 ∷ 128 ∷ 0 ∷ 0 ∷ 0
    ∷ 0 ∷ 0 ∷ 0 ∷ 0 ∷ 128 ∷ 0 ∷ 0 ∷ 0 ∷ 0 ∷ 4 ∷ 0 ∷ 0 ∷ 0 ∷ 0 ∷ 0 ∷ 0 ∷ 0 ∷ 8 ∷ 0 ∷ 0 ∷ 0 ∷ 0 ∷ 0
    ∷ 0 ∷ 0 ∷ 0 ∷ 16 ∷ 0 ∷ 0 ∷ 0 ∷ 0 ∷ 0 ∷ 0 ∷ []

abbrev program : Bytes
program = bytes (header_bytes ++ phdr_bytes ++ 183 ∷ 16 ∷ 0 ∷ 0 ∷ [])

program-IsLoadable : IsLoadable format program
unfolding read_bytes phdrs_at
program-IsLoadable = record {
  whole_header = omega arith;
  mag0 = refl;
  mag1 = refl;
  mag2 = refl;
  mag3 = refl;
  class64 = refl;
  machine = refl;
  table = omega arith;
  whole_table = omega arith;
  fit = (
    (λ _. record {
      from = omega arith;
      to = omega arith;
      nonempty = omega arith;
      shorter = omega arith;
      offset = omega arith;
      in_file = omega arith;
    }),
    tt,
  );
}

abbrev all_bytes : List ℕ → Bool
all_bytes [] = true
all_bytes (x ∷ xs) = ltb x 256 && all_bytes xs

get_or-AreBytes : (xs : List ℕ) → all_bytes xs ≡ true → AreBytes (λ i. get_or xs i 0)
get_or-AreBytes [] h i = omega arith
get_or-AreBytes (x ∷ xs) h zero = ground (arith, h)
get_or-AreBytes (x ∷ xs) h (suc i) = get_or-AreBytes xs (ground (arith, h)) i

program-AreBytes : AreBytes program.get
program-AreBytes = get_or-AreBytes (header_bytes ++ phdr_bytes ++ 183 ∷ 16 ∷ 0 ∷ 0 ∷ []) refl

load_elf64-image_example :
    (mem : Bytes) × (load_elf64 format (some program)
      ≡ some
          (record { binary = mem; entry_point = some (ehdr_at program.get).e_entry; error = none }))
    × (mem.size ≡ memory_size)
    × ((i : ℕ) → mem.get i ≡ pick program 0 (image format (segments format program) i))
load_elf64-image_example = load_elf64-image format program program-IsLoadable

-- The file system of the tests.
abbrev files : String → Option Bytes
files name = some program

main-IsReady_example :
    (c : Cpu) × (main format files 0 blank_uart ("rremu" ∷ "-elf" ∷ "program" ∷ []) ≡ starts c)
    × IsReady format program c
    × ((fuel n : ℕ) → Ensures IsValid Any (session fuel n (pc_line c.pc ∷ []) c))
main-IsReady_example =
    main-IsReady format 0 blank_uart program files "rremu" "program" format-IsLawful refl
      program-IsLoadable program-AreBytes (λ i. omega arith)

entry_word : image_word format program (entry format program) ≡ 0x000010b7
unfolding read_bytes phdrs_at image pick
entry_word = refl

entry-AtRam : AtRam (entry format program) 4
unfolding read_bytes
entry-AtRam = record { kind = refl; from = omega arith; to = omega arith; fits = omega arith }

entry-Matches : Matches (image_word format program (entry format program)) lui
unfolding lui
entry-Matches = rw entry_word refl

main-first_step_example :
    (c : Cpu) × (main format files 0 blank_uart ("rremu" ∷ "-elf" ∷ "program" ∷ []) ≡ starts c)
    × (c.pc ≡ entry format program)
    × (step 1 c
        ≡ (catch_trap (lui.execute 1 (image_word format program (entry format program)))
              >> handle_interrupts)
            (fetched c))
main-first_step_example =
    main-first_step format program 0 blank_uart files "rremu" "program" lui 0 format-IsLawful refl
      program-IsLoadable program-AreBytes (λ i. omega arith) entry-AtRam lui_first entry-Matches
      (omega (arith, entry_word))

main-cases_example :
    (main format files 0 blank_uart ("rremu" ∷ "-xv6" ∷ "kernel" ∷ []) ≡ exits (negsuc 0))
    ⊎ ((file : String) × Asks ("rremu" ∷ "-xv6" ∷ "kernel" ∷ []) file
        × Launches 0 blank_uart
            (load_elf64 format (files file))
            (main format files 0 blank_uart ("rremu" ∷ "-xv6" ∷ "kernel" ∷ [])))
main-cases_example = main-cases format files 0 blank_uart ("rremu" ∷ "-xv6" ∷ "kernel" ∷ [])

session-run_from_example : Same (run 1 3 [] start) (session 1 3 [] start)
session-run_from_example = session-run_from 1 3 [] [] start refl

-- The same file with a segment of 8 bytes in memory and of 2 ^ 30 in the file.
abbrev overlong_phdr : List ℕ
overlong_phdr =
    1 ∷ 0 ∷ 0 ∷ 0 ∷ 5 ∷ 0 ∷ 0 ∷ 0 ∷ 120 ∷ 0 ∷ 0 ∷ 0 ∷ 0 ∷ 0 ∷ 0 ∷ 0 ∷ 0 ∷ 0 ∷ 0 ∷ 128 ∷ 0 ∷ 0 ∷ 0
    ∷ 0 ∷ 0 ∷ 0 ∷ 0 ∷ 128 ∷ 0 ∷ 0 ∷ 0 ∷ 0 ∷ 0 ∷ 0 ∷ 0 ∷ 64 ∷ 0 ∷ 0 ∷ 0 ∷ 0 ∷ 8 ∷ 0 ∷ 0 ∷ 0 ∷ 0 ∷ 0
    ∷ 0 ∷ 0 ∷ 0 ∷ 16 ∷ 0 ∷ 0 ∷ 0 ∷ 0 ∷ 0 ∷ 0 ∷ []

abbrev overlong : Bytes
overlong = bytes (header_bytes ++ overlong_phdr ++ 183 ∷ 16 ∷ 0 ∷ 0 ∷ [])

phdr_at-HasWords : (get : ℕ → ℕ) → HasWords (phdr_at get)
phdr_at-HasWords get = (omega arith, omega arith)

load_elf64-undefined_iff_example : (load_elf64 format (some overlong) ≡ none) ↔ (
    let header = ehdr_at overlong.get in
    IsRiscvElf format overlong
    × (header.e_phoff < overlong.size)
    × ((overlong.size < header.e_phoff + header.e_phnum * 56)
        ⊎ MeetsOverrun format overlong.size
            (phdrs_at format overlong.get header.e_phoff header.e_phnum)))
load_elf64-undefined_iff_example = load_elf64-undefined_iff format phdr_at-HasWords overlong

overlong_undefined : load_elf64 format (some overlong) ≡ none
unfolding read_bytes phdrs_at
overlong_undefined = (load_elf64-undefined_iff format phdr_at-HasWords overlong).1 (
  (omega arith, refl, refl, refl, refl, refl, refl),
  omega arith,
  inr (inl (refl, (omega arith, omega arith, omega arith, omega arith), inl (omega arith))),
)

render-dump_example :
    (Option.map (render false) (dump_regs start)
      ≡ some (text "--- REGISTERS ---" ∷ newline ∷ register_lines start.regs 0 32))
    × (render false (dump_csrs start)
        ≡ text "csr"
          ∷ decimal 0
          ∷ text ": "
          ∷ hexadecimal (start.csrs 0)
          ∷ newline
          ∷ csr_lines start.csrs 1 (n_csr - 1))
render-dump_example = render-dump start false
