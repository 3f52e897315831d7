-- ===== src/Mmu/Walk.antt =====
-- `ParsePageTableEntry` and `Translate`, over the `Load` that reads a page table entry.
-- The fields of an entry are bit-fields that promote to `int`: `<<` on them wraps at 2 ^ 32, a
-- product of 2 ^ 31 or more is undefined, and the result is sign-extended to `uint64_t`.
use rremu.Base.{
  ℕ, zero, suc, ◌+◌, ◌*◌, ◌^◌, Bool, ◌&&◌, ◌||◌, Option, some, if◌then◌else◌, ◌==◌, ltb, bit_and,
  bit_or, ◌>>>◌, shl32, add64, mul64, sext32,
}
use rremu.Action.{Action, ◌>>=◌, ◌>>◌, pure, gets, read, defined_if, throw_trap}
use rremu.Trap.{instruction_page_fault}
use rremu.Mmu.State.{Mmu, PagingMode, bare, sv32, sv39, sv48, sv57, Sv39PageTableEntry}

unfoldable pub parse_page_table_entry : ℕ → Sv39PageTableEntry
parse_page_table_entry pte = record {
  v = bit_and (pte >>> 0) 0x1;
  r = bit_and (pte >>> 1) 0x1;
  w = bit_and (pte >>> 2) 0x1;
  x = bit_and (pte >>> 3) 0x1;
  u = bit_and (pte >>> 4) 0x1;
  g = bit_and (pte >>> 5) 0x1;
  a = bit_and (pte >>> 6) 0x1;
  d = bit_and (pte >>> 7) 0x1;
  rsw = bit_and (pte >>> 8) 0x3;
  ppn0 = bit_and (pte >>> 10) 0x1FF;
  ppn1 = bit_and (pte >>> 19) 0x1FF;
  ppn2 = bit_and (pte >>> 28) 0x3FFFFFF;
  reserved = bit_and (pte >>> 54) 0x3FF;
}

-- `mmu.Load` with the value of `data` before and after the call, `none` if it has none.
abbrev pub Loader : Type 0
Loader = ℕ → ℕ → Option ℕ → Action Mmu (Option ℕ)

-- `vpn[i]`
abbrev pub vpn : ℕ → ℕ → ℕ
vpn virtual_addr i = bit_and (virtual_addr >>> (12 + 9 * i)) 0x1FF

abbrev pub is_invalid : Sv39PageTableEntry → Bool
is_invalid pte = pte.v == 0 || pte.r == 0 && pte.w == 1

abbrev pub is_leaf : Sv39PageTableEntry → Bool
is_leaf pte = pte.r == 1 || pte.x == 1

-- `a = (pte.ppn2 << 30) | (pte.ppn1 << 21) | (pte.ppn0 << 12) * page_size`
unfoldable pub next_table : Sv39PageTableEntry → Action Mmu ℕ
next_table pte = do
  page_size ← gets (λ m. m.page_size)
  let low = shl32 pte.ppn0 12 * page_size
  defined_if (ltb low (2 ^ 31))
  pure (sext32 (bit_or (bit_or (shl32 pte.ppn2 30) (shl32 pte.ppn1 21)) low))

-- The pages that the `switch(i)` after the loop returns.
unfoldable pub page_address : ℕ → ℕ → Sv39PageTableEntry → Action Mmu ℕ
page_address virtual_addr zero pte = pure (bit_or (shl32 pte.ppn0 12) (bit_and virtual_addr 0xFFF))
page_address virtual_addr (suc zero) pte = pure (
    bit_or
      (bit_or (sext32 (bit_or (shl32 pte.ppn2 30) (shl32 pte.ppn1 21)))
        (vpn virtual_addr 0 * 2 ^ 12))
      (bit_and virtual_addr 0xFFF))
page_address virtual_addr (suc (suc zero)) pte = pure (
    bit_or
      (bit_or (bit_or (sext32 (shl32 pte.ppn2 30)) (vpn virtual_addr 1 * 2 ^ 21))
        (vpn virtual_addr 0 * 2 ^ 12))
      (bit_and virtual_addr 0xFFF))
page_address virtual_addr (suc (suc (suc i))) pte = throw_trap instruction_page_fault

module _ (load : Loader) (virtual_addr : ℕ) where
  -- The loop over the levels, from level `i` at the table `a`; it stops at a leaf.
  unfoldable pub walk : ℕ → ℕ → Option ℕ → Action Mmu (ℕ × Sv39PageTableEntry)
  walk zero a pte_raw = do
    raw ← load (add64 a (vpn virtual_addr zero * 8)) 8 pte_raw
    value ← read raw
    let pte = parse_page_table_entry value
    if is_invalid pte
        then throw_trap instruction_page_fault
        else if is_leaf pte
        then pure (zero, pte)
        else throw_trap instruction_page_fault
  walk (suc i) a pte_raw = do
    raw ← load (add64 a (vpn virtual_addr (suc i) * 8)) 8 pte_raw
    value ← read raw
    let pte = parse_page_table_entry value
    if is_invalid pte
        then throw_trap instruction_page_fault
        else if is_leaf pte
        then pure (suc i, pte)
        else next_table pte >>= λ a'. walk i a' raw

  unfoldable pub walk_from_root : Action Mmu ℕ
  unfolding walk page_address
  walk_from_root = do
    root ← gets (λ m. mul64 m.root_page_table m.page_size)
    found ← walk 2 root (some 0)
    page_address virtual_addr found.0 found.1

  -- `Translate` in a paging mode: all privilege modes take the same branch.
  unfoldable pub translate_in : PagingMode → Action Mmu ℕ
  unfolding walk_from_root
  translate_in bare = pure virtual_addr
  translate_in sv39 = walk_from_root
  translate_in sv32 = throw_trap instruction_page_fault
  translate_in sv48 = throw_trap instruction_page_fault
  translate_in sv57 = throw_trap instruction_page_fault

  unfoldable pub translate : Action Mmu ℕ
  unfolding translate_in
  translate = gets (λ m. m.paging_mode) >>= translate_in
