-- ===== src/Main/Start.antt =====
-- When the emulator starts, and with which machine.
use Prim.Native.String.{String}
use text.Mathlib.Text.{◌==◌ as str_eq}
use text.Mathlib.TextEquality.{eq_iff}
use rremu.Base.{
  ℕ, ◌<◌, ◌≤◌, ◌≡◌, ◌⊎◌, inl, inr, refl, Option, none, some, List, [], ◌∷◌, ltb, ◌==◌, Bool-cases,
  ne→==_false, suc, ap, arith,
}
use rremu.Base.Int.{negsuc}
use rremu.Bytes.{Bytes, no_bytes, length}
use rremu.Config.{memory_size}
use rremu.Uart.{Uart}
use rremu.Cpu.{cpu_of}
use rremu.Elf.{
  Attempt, returns, throws, undefined, LoadError, Elf64Ehdr, ElfFormat, LoadResult, after_segments,
  after_header, after_file, load_segments, get_header, read_into_vector, load_elf64,
}
use rremu.Main.{Launch, exits, starts, undefined_launch, parse_options, start_with, main}

-- Where an exception is reported the vector is empty; elsewhere the entry point has been assigned.
abbrev Coherent : Option LoadResult → Type 0
Coherent none = Unit
Coherent (some r) =
    ((e : LoadError) × (r.error ≡ some e) × (r.binary ≡ no_bytes))
    ⊎ ((p : ℕ) × (r.entry_point ≡ some p) × (r.error ≡ none))

module _ (h : ElfFormat) where
  after_segments-Coherent :
      (header : Elf64Ehdr) (a : Attempt Bytes) → Coherent (after_segments h header a)
  unfolding after_segments
  after_segments-Coherent header (returns mem) = inr (header.e_entry, refl, refl)
  after_segments-Coherent header (throws e) = inl (e, refl, refl)
  after_segments-Coherent header undefined = tt

  after_header-Coherent :
      (binary : Bytes) (a : Attempt Elf64Ehdr) → Coherent (after_header h binary a)
  unfolding after_header
  after_header-Coherent binary (returns header) =
      after_segments-Coherent header (load_segments h binary header)
  after_header-Coherent binary (throws e) = inl (e, refl, refl)
  after_header-Coherent binary undefined = tt

  after_file-Coherent : (a : Attempt Bytes) → Coherent (after_file h a)
  unfolding after_file
  after_file-Coherent (returns binary) = after_header-Coherent binary (get_header h binary)
  after_file-Coherent (throws e) = inl (e, refl, refl)
  after_file-Coherent undefined = tt

  load_elf64-Coherent : (file : Option Bytes) → Coherent (load_elf64 h file)
  unfolding load_elf64
  load_elf64-Coherent file = after_file-Coherent (read_into_vector file)

-- What `main` comes to after the option `-elf`, by what the loader leaves.
abbrev pub Launches : ℕ → Uart → Option LoadResult → Launch → Type 0
Launches root uart none l = l ≡ undefined_launch
Launches root uart (some r) l =
    (l ≡ exits (negsuc 0))
    ⊎ ((p : ℕ) × (r.error ≡ none)
        × (r.entry_point ≡ some p)
        × (0 < r.binary.size)
        × (r.binary.size ≤ memory_size)
        × (l ≡ starts (cpu_of root uart r.binary p)))

start_with-Launches :
    (root : ℕ) (uart : Uart) (r : LoadResult)
    → Coherent (some r)
    → Launches root uart (some r) (start_with root uart r)
unfolding start_with
start_with-Launches root uart r (inl (e, failed, empty)) = inl (rw empty refl)
start_with-Launches root uart r (inr (p, entry, loaded)) =
    elim (Bool-cases (ltb memory_size r.binary.size)) [
      | inl big ↦ inl (rw big refl)
      | inr small ↦ elim (Bool-cases (r.binary.size == 0)) [
        | inl empty ↦ inl (rw (small, empty) refl)
        | inr filled ↦ inr (
          p,
          loaded,
          entry,
          ground (arith, filled),
          ground (arith, small),
          rw (small, filled, entry) refl,
        )
      ]
    ]

-- The command line asks for the ELF file that it names.
abbrev pub Asks : List String → String → Type 0
Asks argv file = (prog : String) × (argv ≡ prog ∷ "-elf" ∷ file ∷ [])

-- For every command line and every file, `main` either returns -1, or the command line has the
-- three words of `-elf` and `main` does what the loader's outcome wants: undefined if the loader
-- is; else -1, or the loop, with the loader's entry point and contents, and this only where the
-- loader reported no exception, assigned the entry point, and left contents that are not empty and
-- not larger than memory.
pub main-cases :
    (h : ElfFormat) (files : String → Option Bytes) (root : ℕ) (uart : Uart) (argv : List String)
    → (main h files root uart argv ≡ exits (negsuc 0))
      ⊎ ((file : String) × Asks argv file
          × Launches root uart (load_elf64 h (files file)) (main h files root uart argv))
unfolding main parse_options
main-cases h files root uart [] = inl refl
main-cases h files root uart (_ ∷ []) = inl refl
main-cases h files root uart (_ ∷ _ ∷ []) = inl refl
main-cases h files root uart (prog ∷ option ∷ file ∷ []) =
    elim (Bool-cases (str_eq option "-xv6")) [
      | inl xv6 ↦ inl (rw xv6 refl)
      | inr other ↦ elim (Bool-cases (str_eq option "-elf")) [
        | inl elf ↦ inr (
          file,
          (prog, ap (λ o. prog ∷ o ∷ file ∷ []) ((eq_iff option "-elf").0 elf)),
          rw (other, elf) (go (load_elf64 h (files file)) (load_elf64-Coherent h (files file))),
        )
        | inr neither ↦ inl (rw (other, neither) refl)
      ]
    ]
  where
    go :
        (o : Option LoadResult)
        → Coherent o
        → Launches root uart o
            (elim o [ some r ↦ start_with root uart r | none ↦ undefined_launch ])
    go none c = refl
    go (some r) c = start_with-Launches root uart r c
main-cases h files root uart (_ ∷ _ ∷ _ ∷ _ ∷ more) =
    inl (rw (ne→==_false (suc (suc (suc (suc (length more))))) 3 (λ e. omega (arith, e))) refl)
