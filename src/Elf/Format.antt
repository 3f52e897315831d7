-- ===== src/Elf/Format.antt =====
-- What source/elf_parser.cpp uses of <elf.h>: constants, the sizes of the two structs, and the
-- structs that stand at given bytes.
use rremu.Base.{ℕ, ◌^◌, ◌<◌}

-- The fields of `Elf64_Ehdr` and of `Elf64_Phdr` that the code reads.
pub record Elf64Ehdr : Type 0 where
  pub e_ident : ℕ → ℕ
  pub e_machine : ℕ
  pub e_entry : ℕ
  pub e_phoff : ℕ
  pub e_phnum : ℕ

pub record Elf64Phdr : Type 0 where
  pub p_type : ℕ
  pub p_offset : ℕ
  pub p_vaddr : ℕ
  pub p_filesz : ℕ
  pub p_memsz : ℕ

pub record ElfFormat : Type 0 where
  pub elfmag0 : ℕ
  pub elfmag1 : ℕ
  pub elfmag2 : ℕ
  pub elfmag3 : ℕ
  pub ei_class : ℕ
  pub elfclass64 : ℕ
  pub em_riscv : ℕ
  pub pt_load : ℕ
  pub sizeof_ehdr : ℕ
  pub sizeof_phdr : ℕ
  pub ehdr : (ℕ → ℕ) → Elf64Ehdr
  pub phdr : (ℕ → ℕ) → Elf64Phdr

-- `e_entry` is an `Elf64_Addr`, of 64 bits.
pub record IsLawful (h : ElfFormat) : Type 0 where
  pub e_entry-lt : (get : ℕ → ℕ) → (h.ehdr get).e_entry < 2 ^ 64
