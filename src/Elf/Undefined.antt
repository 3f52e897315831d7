-- ===== src/Elf/Undefined.antt =====
-- When `LoadELF64` is undefined.
use rremu.Base.{
  ℕ, ◌+◌, ◌*◌, ◌<◌, ◌≤◌, ◌≡◌, ◌⊎◌, inl, inr, ◌↔◌, refl, Bool, not, ◌||◌, ◌==◌, ltb, Bool-cases,
  some, none, arith,
}
use rremu.Elf.Bounds.{HasWords, MeetsOverrun, load_segments-undefined_iff}
use rremu.Bytes.{Bytes}
use rremu.Elf.{
  Attempt, returns, throws, undefined, LoadError, Elf64Ehdr, ElfFormat, phdrs_at, load_segments,
  load_elf64, get_header, after_header, after_segments, not_elf, not_riscv,
}

module _ (h : ElfFormat) where
  -- The header that `GetHeader` wants.
  abbrev pub IsRiscvElf : Bytes → Type 0
  IsRiscvElf binary =
      (h.sizeof_ehdr ≤ binary.size)
      × (binary.get 0 ≡ h.elfmag0)
      × (binary.get 1 ≡ h.elfmag1)
      × (binary.get 2 ≡ h.elfmag2)
      × (binary.get 3 ≡ h.elfmag3)
      × ((h.ehdr binary.get).e_ident h.ei_class ≡ h.elfclass64)
      × ((h.ehdr binary.get).e_machine ≡ h.em_riscv)

  get_header-returns :
      (binary : Bytes) → IsRiscvElf binary → get_header h binary ≡ returns (h.ehdr binary.get)
  unfolding get_header
  get_header-returns binary i = ground (arith, i)

  abbrev is_not_elf : Bytes → Bool
  is_not_elf binary =
      ltb binary.size h.sizeof_ehdr
      || not (binary.get 0 == h.elfmag0)
      || not (binary.get 1 == h.elfmag1)
      || not (binary.get 2 == h.elfmag2)
      || not (binary.get 3 == h.elfmag3)

  abbrev is_not_riscv : Bytes → Bool
  is_not_riscv binary =
      not ((h.ehdr binary.get).e_ident h.ei_class == h.elfclass64)
      || not ((h.ehdr binary.get).e_machine == h.em_riscv)

  get_header-other :
      (binary : Bytes)
      → IsRiscvElf binary
        ⊎ ((¬ IsRiscvElf binary) × ((x : LoadError) × (get_header h binary ≡ throws x)))
  unfolding get_header
  get_header-other binary = elim (Bool-cases (is_not_elf binary)) [
    | inl b ↦ inr ((λ i. ground (arith, b, i)), (not_elf, rw b refl))
    | inr b ↦ elim (Bool-cases (is_not_riscv binary)) [
      | inl c ↦ inr ((λ i. ground (arith, c, i)), (not_riscv, rw (b, c) refl))
      | inr c ↦ inl (ground (arith, b, c))
    ]
  ]

  after_segments-none_iff :
      (header : Elf64Ehdr) (a : Attempt Bytes)
      → (after_segments h header a ≡ none) ↔ (a ≡ undefined)
  unfolding after_segments
  after_segments-none_iff header (returns mem) = ((λ u. absurd (cc u)), (λ u. absurd (cc u)))
  after_segments-none_iff header (throws x) = ((λ u. absurd (cc u)), (λ u. absurd (cc u)))
  after_segments-none_iff header undefined = ((λ u. refl), (λ u. refl))

  -- Where `p_vaddr` and `p_memsz` have 64 bits, `LoadELF64` is undefined for a file that can be
  -- opened exactly in these cases: the file has the header that `GetHeader` wants and its table of
  -- segments starts in the file, and either the table runs past the end of the file, or after
  -- segments that are not to be loaded or that are copied within memory and the file there is one
  -- to be loaded that starts in memory and in the file, whose start in memory plus `p_memsz`,
  -- modulo 2 ^ 64, is within memory, and whose `p_filesz` bytes run past the end of memory or of
  -- the file.
  pub load_elf64-undefined_iff :
      ((get : ℕ → ℕ) → HasWords (h.phdr get))
      → (binary : Bytes)
      → (load_elf64 h (some binary) ≡ none) ↔ (
          let header = h.ehdr binary.get in
          IsRiscvElf binary
          × (header.e_phoff < binary.size)
          × ((binary.size < header.e_phoff + header.e_phnum * h.sizeof_phdr)
              ⊎ MeetsOverrun h binary.size (phdrs_at h binary.get header.e_phoff header.e_phnum)))
  unfolding load_elf64 after_header
  load_elf64-undefined_iff words binary =
      let header = h.ehdr binary.get in
      let segments = load_segments-undefined_iff h words binary header in
      let after = after_segments-none_iff header (load_segments h binary header) in
      elim (get_header-other binary) [
        | inl i ↦ rw (get_header-returns binary i) (
          (λ u. (i, (segments.0 (after.0 u)).0, (segments.0 (after.0 u)).1)),
          (λ p. after.1 (segments.1 (p.1, p.2))),
        )
        | inr (n, (x, e)) ↦ rw e ((λ u. absurd (cc u)), (λ p. absurd (n p.0)))
      ]
