-- ===== src/Elf.antt =====
-- source/elf_parser.cpp: from the bytes of an ELF file to the contents of memory. What <elf.h>
-- declares is a parameter, and so are the files.
pub mod Image
pub mod Bounds
pub mod Undefined
mod Exceptions
mod Format
pub use Exceptions.*
pub use Format.*
use rremu.Base.{
  ℕ, zero, suc, ◌+◌, ◌*◌, ◌-◌, ◌&&◌, ◌||◌, not, Option, none, some, List, [], ◌∷◌, if◌then◌else◌,
  ltb, leb, ◌==◌, add64, sub64,
}
use rremu.Bytes.{Bytes, no_bytes}
use rremu.Config.{kernbase, memory_size}

-- `ReadIntoVector`, on the contents of the file, `none` if it cannot be opened.
unfoldable pub read_into_vector : Option Bytes → Attempt Bytes
read_into_vector none = throws could_not_open
read_into_vector (some binary) = returns binary

-- `v.at(i)`, for its test.
abbrev pub at : Bytes → ℕ → Attempt (Unit {0})
at v i = if ltb i v.size then returns tt else throws out_of_range

-- `memcpy(&to[i], &from[j], n)`
abbrev pub copy : Bytes → ℕ → Bytes → ℕ → ℕ → Bytes
copy to i from j n = record {
  size = to.size;
  get = λ k. if leb i k && ltb k (i + n) then from.get (j + (k - i)) else to.get k;
}

-- `std::vector<uint8_t> mem(MEMORY_SIZE, 0)`
abbrev pub zeros : Bytes
zeros = record { size = memory_size; get = λ _. 0 }

-- What `LoadELF64` returns, what it leaves in `entry_point`, and the exception that it reports.
pub record LoadResult : Type 0 where
  pub binary : Bytes
  pub entry_point : Option ℕ
  pub error : Option LoadError

-- The handler of `LoadELF64`.
abbrev report : Option ℕ → LoadError → Option LoadResult
report entry_point e =
    some (record { binary = no_bytes; entry_point = entry_point; error = some e })

module _ (h : ElfFormat) where
  -- `GetHeader`
  unfoldable pub get_header : Bytes → Attempt Elf64Ehdr
  get_header binary =
      let header = h.ehdr binary.get in
      if ltb binary.size h.sizeof_ehdr
        || not (binary.get 0 == h.elfmag0)
        || not (binary.get 1 == h.elfmag1)
        || not (binary.get 2 == h.elfmag2)
        || not (binary.get 3 == h.elfmag3)
      then throws not_elf
      else if not (header.e_ident h.ei_class == h.elfclass64)
          || not (header.e_machine == h.em_riscv)
      then throws not_riscv
      else returns header

  -- `n` entries of the program header table, from the byte `i` on.
  unfoldable pub phdrs_at : (ℕ → ℕ) → ℕ → ℕ → List Elf64Phdr
  phdrs_at get i zero = []
  phdrs_at get i (suc n) = h.phdr (λ k. get (i + k)) ∷ phdrs_at get (i + h.sizeof_phdr) n

  -- `phdrs` after its `memcpy`, which is undefined past the end of the file.
  unfoldable pub read_phdrs : Bytes → Elf64Ehdr → Attempt (List Elf64Phdr)
  unfolding phdrs_at
  read_phdrs binary header = do
    at binary header.e_phoff
    defined_if (leb (header.e_phoff + header.e_phnum * h.sizeof_phdr) binary.size)
    returns (phdrs_at binary.get header.e_phoff header.e_phnum)

  -- The body of the loop of `LoadSegments`. The copy is undefined past the end of either vector.
  unfoldable pub load_segment : Bytes → Elf64Phdr → Bytes → Attempt Bytes
  load_segment binary segment mem =
      let segment_offset = sub64 segment.p_vaddr kernbase in
      if not (segment.p_type == h.pt_load)
      then returns mem
      else if ltb mem.size (add64 segment_offset segment.p_memsz)
      then throws segment_too_large
      else do
        at mem segment_offset
        at binary segment.p_offset
        defined_if (
            leb (segment_offset + segment.p_filesz) mem.size
            && leb (segment.p_offset + segment.p_filesz) binary.size)
        returns (copy mem segment_offset binary segment.p_offset segment.p_filesz)

  unfoldable pub load_all : Bytes → List Elf64Phdr → Bytes → Attempt Bytes
  load_all binary [] mem = returns mem
  load_all binary (segment ∷ phdrs) mem = load_segment binary segment mem >>= load_all binary phdrs

  -- `LoadSegments`
  unfoldable pub load_segments : Bytes → Elf64Ehdr → Attempt Bytes
  load_segments binary header = do phdrs ← read_phdrs binary header; load_all binary phdrs zeros

  -- The rest of `LoadELF64` after each of its calls, with its handler; `none` where it is undefined.
  unfoldable pub after_segments : Elf64Ehdr → Attempt Bytes → Option LoadResult
  after_segments header (returns mem) =
      some (record { binary = mem; entry_point = some header.e_entry; error = none })
  after_segments header (throws e) = report (some header.e_entry) e
  after_segments header undefined = none

  unfoldable pub after_header : Bytes → Attempt Elf64Ehdr → Option LoadResult
  after_header binary (returns header) = after_segments header (load_segments binary header)
  after_header binary (throws e) = report none e
  after_header binary undefined = none

  unfoldable pub after_file : Attempt Bytes → Option LoadResult
  after_file (returns binary) = after_header binary (get_header binary)
  after_file (throws e) = report none e
  after_file undefined = none

  -- `LoadELF64`
  unfoldable pub load_elf64 : Option Bytes → Option LoadResult
  unfolding read_into_vector after_file after_header after_segments
  load_elf64 file = after_file (read_into_vector file)
