-- ===== src/Elf/Bounds.antt =====
-- When `LoadSegments` is undefined: which sizes it checks, and which it does not.
use rremu.Base.{
  ℕ, zero, suc, ◌+◌, ◌*◌, ◌-◌, ◌%◌, ◌^◌, ◌<◌, ◌≤◌, ◌≡◌, ap, ◌≢◌, ◌⊎◌, inl, inr, ◌↔◌, refl, sym, ◌∙◌,
  leb, ltb, Bool-cases, List, [], ◌∷◌, arith,
}
use rremu.Bytes.{Bytes}
use rremu.Config.{kernbase, memory_size}
use rremu.Elf.{
  Attempt, returns, throws, undefined, LoadError, ◌>>=◌, Elf64Ehdr, Elf64Phdr, ElfFormat, zeros,
  phdrs_at, read_phdrs, load_segment, load_all, load_segments,
}

-- `p_vaddr` and `p_memsz` have 64 bits.
abbrev pub HasWords : Elf64Phdr → Type 0
HasWords s = (s.p_vaddr < 2 ^ 64) × (s.p_memsz < 2 ^ 64)

-- In a file of `size` bytes the segment starts in memory and in the file, and the sum that the code
-- computes of its start in memory and `p_memsz`, modulo 2 ^ 64, is within memory.
abbrev pub IsAccepted : ℕ → Elf64Phdr → Type 0
IsAccepted size s =
    (kernbase ≤ s.p_vaddr)
    × (s.p_vaddr < kernbase + memory_size)
    × (s.p_offset < size)
    × ((s.p_vaddr - kernbase + s.p_memsz) % 2 ^ 64 ≤ memory_size)

-- Its `p_filesz` bytes run past the end of memory or of the file.
abbrev pub Overruns : ℕ → Elf64Phdr → Type 0
Overruns size s =
    (kernbase + memory_size < s.p_vaddr + s.p_filesz) ⊎ (size < s.p_offset + s.p_filesz)

-- The size of the vector that is returned, if there is one.
abbrev size_of : Attempt Bytes → ℕ
size_of (returns v) = v.size
size_of (throws x) = memory_size
size_of undefined = memory_size

module _ (h : ElfFormat) where
  -- It is not to be loaded, or it is accepted and its bytes stay within memory and the file.
  abbrev pub IsHarmless : ℕ → Elf64Phdr → Type 0
  IsHarmless size s =
      (s.p_type ≢ h.pt_load)
      ⊎ (IsAccepted size s
          × (s.p_vaddr + s.p_filesz ≤ kernbase + memory_size)
          × (s.p_offset + s.p_filesz ≤ size))

  -- After harmless segments alone there is one to be loaded that is accepted and overruns.
  abbrev pub MeetsOverrun : ℕ → List Elf64Phdr → Type 0
  MeetsOverrun size [] = ⊥
  MeetsOverrun size (s ∷ ss) =
      ((s.p_type ≡ h.pt_load) × IsAccepted size s × Overruns size s)
      ⊎ (IsHarmless size s × MeetsOverrun size ss)

  module _ (binary mem : Bytes) (s : Elf64Phdr) (words : HasWords s)
      (e : mem.size ≡ memory_size) where
    segment-undefined_iff :
        (load_segment h binary s mem ≡ undefined)
        ↔ ((s.p_type ≡ h.pt_load) × IsAccepted binary.size s × Overruns binary.size s)
    unfolding load_segment
    segment-undefined_iff = rw e (ground (arith, words))

    segment-size : size_of (load_segment h binary s mem) ≡ memory_size
    unfolding load_segment
    segment-size = ground (arith, e)

    segment-returns :
        (mem' : Bytes)
        → load_segment h binary s mem ≡ returns mem'
        → IsHarmless binary.size s × (mem'.size ≡ memory_size)
    unfolding load_segment
    segment-returns mem' r = (ground (arith, words, e, r), sym (ap size_of r) ∙ segment-size)

    segment-throws :
        (x : LoadError) → load_segment h binary s mem ≡ throws x → ¬ IsHarmless binary.size s
    unfolding load_segment
    segment-throws x r i = ground (arith, words, e, r, i)

  abbrev pub AllWords : List Elf64Phdr → Type 0
  AllWords [] = Unit
  AllWords (s ∷ ss) = HasWords s × AllWords ss

  load_all-undefined_iff :
      (binary : Bytes) (ss : List Elf64Phdr) (mem : Bytes)
      → AllWords ss
      → mem.size ≡ memory_size
      → (load_all h binary ss mem ≡ undefined) ↔ MeetsOverrun binary.size ss
  unfolding load_all
  load_all-undefined_iff binary [] mem words e = (λ u. absurd (cc u), λ x. absurd x)
  load_all-undefined_iff binary (s ∷ ss) mem (w, ws) e =
      go (load_segment h binary s mem) refl (λ mem' p. load_all-undefined_iff binary ss mem' ws p)
    where
      go :
          (o : Attempt Bytes)
          → load_segment h binary s mem ≡ o
          → ((mem' : Bytes)
              → mem'.size ≡ memory_size
              → (load_all h binary ss mem' ≡ undefined) ↔ MeetsOverrun binary.size ss)
          → ((o >>= load_all h binary ss) ≡ undefined) ↔ MeetsOverrun binary.size (s ∷ ss)
      go (returns mem') r next =
          let (harmless, size) = segment-returns binary mem s w e mem' r in
          (
            λ u. inr (harmless, (next mem' size).0 u),
            λ m. elim m [
              | inl over ↦ absurd (cc ((segment-undefined_iff binary mem s w e).1 over, r))
              | inr (_, rest) ↦ (next mem' size).1 rest
            ],
          )
      go (throws x) r next = (
        λ u. absurd (cc u),
        λ m. elim m [
          | inl over ↦ absurd (cc ((segment-undefined_iff binary mem s w e).1 over, r))
          | inr (harmless, _) ↦ absurd (segment-throws binary mem s w e x r harmless)
        ],
      )
      go undefined r next = (λ u. inl ((segment-undefined_iff binary mem s w e).0 r), λ m. refl)

  -- The two fields of an entry are `Elf64_Addr` and `Elf64_Xword`.
  phdrs_at-AllWords :
      ((get : ℕ → ℕ) → HasWords (h.phdr get))
      → (get : ℕ → ℕ) (i n : ℕ) → AllWords (phdrs_at h get i n)
  unfolding phdrs_at
  phdrs_at-AllWords words get i zero = tt
  phdrs_at-AllWords words get i (suc n) =
      (words (λ k. get (i + k)), phdrs_at-AllWords words get (i + h.sizeof_phdr) n)

  pub load_segments-undefined_iff :
      ((get : ℕ → ℕ) → HasWords (h.phdr get))
      → (binary : Bytes) (header : Elf64Ehdr)
      → (load_segments h binary header ≡ undefined) ↔ (
          (header.e_phoff < binary.size)
          × ((binary.size < header.e_phoff + header.e_phnum * h.sizeof_phdr)
              ⊎ MeetsOverrun binary.size (phdrs_at h binary.get header.e_phoff header.e_phnum)))
  unfolding load_segments read_phdrs
  load_segments-undefined_iff words binary header =
      let phdrs = phdrs_at h binary.get header.e_phoff header.e_phnum in
      let all =
        load_all-undefined_iff binary phdrs zeros
          (phdrs_at-AllWords words binary.get header.e_phoff header.e_phnum) refl in
      elim (Bool-cases (ltb header.e_phoff binary.size)) [
        | inl inside ↦
            elim (Bool-cases (leb (header.e_phoff + header.e_phnum * h.sizeof_phdr) binary.size)) [
              | inl whole ↦
                  rw (inside, whole)
                    (
                      (λ u. (ground (arith, inside), inr (all.0 u))),
                      (λ p. elim (p.1) [
                        | inl over ↦ absurd (ground (arith, over, whole))
                        | inr meets ↦ all.1 meets
                      ]),
                    )
              | inr over ↦
                  rw (inside, over)
                    ((λ u. (ground (arith, inside), inl (ground (arith, over)))), (λ p. refl))
            ]
        | inr outside ↦
            rw outside ((λ u. absurd (cc u)), (λ p. absurd (ground (arith, p.0, outside))))
      ]
