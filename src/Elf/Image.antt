-- ===== src/Elf/Image.antt =====
-- What a well-formed ELF file becomes: each byte of memory is the byte of the last loadable segment
-- that covers it, and 0 where none does.
use rremu.Base.{
  ℕ, ◌+◌, ◌*◌, ◌-◌, ◌<◌, ◌≤◌, ◌≡◌, refl, sym, ◌∙◌, inl, inr, false, ◌&&◌, Bool-cases, ==_iff,
  Option, none, some, List, [], ◌∷◌, if◌then◌else◌, ltb, leb, ◌==◌, sub64, arith,
}
use rremu.Bytes.{Bytes}
use rremu.Config.{kernbase, memory_size}
use rremu.Elf.{
  returns, ◌>>=◌, Elf64Phdr, ElfFormat, copy, zeros, get_header, phdrs_at, read_phdrs, load_segment,
  load_all, load_segments, load_elf64,
}

-- A loadable segment lies in memory and in a file of the given size, and its part in the file is no
-- longer than its part in memory.
pub record SegmentFits (size : ℕ) (s : Elf64Phdr) : Type 0 where
  pub from : kernbase ≤ s.p_vaddr
  pub to : s.p_vaddr + s.p_memsz ≤ kernbase + memory_size
  pub nonempty : 0 < s.p_memsz
  pub shorter : s.p_filesz ≤ s.p_memsz
  pub offset : s.p_offset < size
  pub in_file : s.p_offset + s.p_filesz ≤ size

unfoldable pub pick : Bytes → ℕ → Option ℕ → ℕ
pick binary default none = default
pick binary default (some j) = binary.get j

module _ (h : ElfFormat) where
  -- All segments that are loaded fit.
  abbrev pub AllFit : ℕ → List Elf64Phdr → Type 0
  AllFit size [] = Unit
  AllFit size (s ∷ ss) = (s.p_type ≡ h.pt_load → SegmentFits size s) × AllFit size ss

  -- The place in the file of the byte that stands at the offset `i` of memory.
  unfoldable pub image : List Elf64Phdr → ℕ → Option ℕ
  image [] i = none
  image (s ∷ ss) i = elim (image ss i) [
    | some j ↦ some j
    | none ↦
        let start = s.p_vaddr - kernbase in
        if s.p_type == h.pt_load && leb start i && ltb i (start + s.p_filesz)
        then some (s.p_offset + (i - start))
        else none
  ]

  load_segment-fits :
      (binary mem : Bytes) (s : Elf64Phdr)
      → mem.size ≡ memory_size
      → s.p_type ≡ h.pt_load
      → SegmentFits binary.size s
      → load_segment h binary s mem
        ≡ returns (copy mem (s.p_vaddr - kernbase) binary s.p_offset s.p_filesz)
  unfolding load_segment
  load_segment-fits binary mem s e t f =
      let offset : sub64 s.p_vaddr kernbase ≡ s.p_vaddr - kernbase = omega (arith, f.from, f.to) in
      rw (offset, e, t) (ground (arith, f.from, f.to, f.nonempty, f.shorter, f.offset, f.in_file))

  load_segment-other :
      (binary mem : Bytes) (s : Elf64Phdr)
      → (s.p_type == h.pt_load) ≡ false
      → load_segment h binary s mem ≡ returns mem
  unfolding load_segment
  load_segment-other binary mem s e = rw e

  -- One more segment in front.
  pick-image :
      (binary mem : Bytes) (s : Elf64Phdr) (ss : List Elf64Phdr) (i : ℕ)
      → pick binary (mem.get i) (image (s ∷ ss) i)
        ≡ pick binary
            (if s.p_type == h.pt_load
              then (copy mem (s.p_vaddr - kernbase) binary s.p_offset s.p_filesz).get i
              else mem.get i)
            (image ss i)
  unfolding pick image
  pick-image binary mem s ss i = ground arith

  load_all-image :
      (binary : Bytes) (ss : List Elf64Phdr) (mem : Bytes)
      → mem.size ≡ memory_size
      → AllFit binary.size ss
      → (mem' : Bytes) × (load_all h binary ss mem ≡ returns mem')
        × (mem'.size ≡ memory_size)
        × ((i : ℕ) → mem'.get i ≡ pick binary (mem.get i) (image ss i))
  unfolding load_all
  load_all-image binary [] mem e f = (mem, refl, e, (λ i. unfold pick image in refl))
  load_all-image binary (s ∷ ss) mem e (f, fs) = elim (Bool-cases (s.p_type == h.pt_load)) [
    | inl t ↦
        let mem1 = copy mem (s.p_vaddr - kernbase) binary s.p_offset s.p_filesz in
        let kind = (==_iff s.p_type h.pt_load).0 t in
        let (mem', r, size, same) = load_all-image binary ss mem1 e fs in
        (
          mem',
          rw (load_segment-fits binary mem s e kind (f kind), ◌>>=◌) r,
          size,
          (λ i. same i ∙ sym (rw t at (pick-image binary mem s ss i))),
        )
    | inr t ↦
        let (mem', r, size, same) = load_all-image binary ss mem e fs in
        (
          mem',
          rw (load_segment-other binary mem s t, ◌>>=◌) r,
          size,
          (λ i. same i ∙ sym (rw t at (pick-image binary mem s ss i))),
        )
  ]

  -- The file has the header that the code asks for, its table of segments lies in it, and the
  -- segments that are loaded fit.
  pub record IsLoadable (binary : Bytes) : Type 0 where
    pub whole_header : h.sizeof_ehdr ≤ binary.size
    pub mag0 : binary.get 0 ≡ h.elfmag0
    pub mag1 : binary.get 1 ≡ h.elfmag1
    pub mag2 : binary.get 2 ≡ h.elfmag2
    pub mag3 : binary.get 3 ≡ h.elfmag3
    pub class64 : (h.ehdr binary.get).e_ident h.ei_class ≡ h.elfclass64
    pub machine : (h.ehdr binary.get).e_machine ≡ h.em_riscv
    pub table : (h.ehdr binary.get).e_phoff < binary.size
    pub whole_table :
        (h.ehdr binary.get).e_phoff + (h.ehdr binary.get).e_phnum * h.sizeof_phdr ≤ binary.size
    pub fit :
        AllFit binary.size
          (phdrs_at h binary.get (h.ehdr binary.get).e_phoff (h.ehdr binary.get).e_phnum)

  get_header-IsLoadable :
      {binary : Bytes} → IsLoadable binary → get_header h binary ≡ returns (h.ehdr binary.get)
  unfolding get_header
  get_header-IsLoadable {binary} l =
      ground (arith, l.whole_header, l.mag0, l.mag1, l.mag2, l.mag3, l.class64, l.machine)

  read_phdrs-IsLoadable :
      {binary : Bytes}
      → IsLoadable binary
      → let header = h.ehdr binary.get in
        read_phdrs h binary header ≡ returns (phdrs_at h binary.get header.e_phoff header.e_phnum)
  unfolding read_phdrs
  read_phdrs-IsLoadable {binary} l = ground (arith, l.table, l.whole_table)

  -- The segments of a file.
  abbrev pub segments : Bytes → List Elf64Phdr
  segments binary =
      let header = h.ehdr binary.get in phdrs_at h binary.get header.e_phoff header.e_phnum

  -- A well-formed ELF file is loaded, with no exception, into a memory of the full size: each byte
  -- is the byte of the last loadable segment whose part in the file covers it, and 0 where there is
  -- none; the entry point is that of the header.
  pub load_elf64-image :
      (binary : Bytes)
      → IsLoadable binary
      → (mem : Bytes) × (load_elf64 h (some binary)
          ≡ some (record {
            binary = mem;
            entry_point = some (h.ehdr binary.get).e_entry;
            error = none;
          }))
        × (mem.size ≡ memory_size)
        × ((i : ℕ) → mem.get i ≡ pick binary 0 (image (segments binary) i))
  unfolding load_elf64
  load_elf64-image binary l =
      let (mem, r, size, same) = load_all-image binary (segments binary) zeros refl l.fit in
      let whole : load_segments h binary (h.ehdr binary.get) ≡ returns mem =
        unfold load_segments in rw (read_phdrs-IsLoadable l, ◌>>=◌) r in
      (mem, rw (load_elf64, get_header-IsLoadable l, whole), size, same)
