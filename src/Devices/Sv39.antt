-- ===== src/Devices/Sv39.antt =====
-- The physical addresses that Sv39 mode gives, over any `Load` that reads the page table entries.
use rremu.Base.{
  refl, sym, ℕ, zero, suc, ◌+◌, ◌*◌, ◌/◌, ◌%◌, ◌^◌, ◌<◌, ◌≡◌, ◌≤◌, ◌⊎◌, inl, ◌∙◌, ap, ◌↔◌, ◌-◌,
  bit_or, bit_and, shl32, sext32, arith,
}
use native.Mathlib.Omega.{div_any}
use rremu.Action.{done}
use rremu.Bits.{bit_and_mask, bit_or_sum}
use rremu.Config.{kernbase, memory_size}
use rremu.Mmu.{Mmu, Sv39PageTableEntry, parse_page_table_entry, page_address, vpn}

-- The widths of the page number's fields.
pub record InRange (pte : Sv39PageTableEntry) : Type 0 where
  pub ppn0 : pte.ppn0 < 2 ^ 9
  pub ppn1 : pte.ppn1 < 2 ^ 9
  pub ppn2 : pte.ppn2 < 2 ^ 26

pub parse_page_table_entry-InRange : (raw : ℕ) → InRange (parse_page_table_entry raw)
unfolding parse_page_table_entry
parse_page_table_entry-InRange raw = record {
  ppn0 = omega (arith, bit_and_mask 9 (raw / 2 ^ 10));
  ppn1 = omega (arith, bit_and_mask 9 (raw / 2 ^ 19));
  ppn2 = omega (arith, bit_and_mask 26 (raw / 2 ^ 28));
}

bit_or_aligned : (k a r : ℕ) → a % 2 ^ k ≡ 0 → r < 2 ^ k → bit_or a r ≡ a + r
bit_or_aligned k a r h p =
    let e : a ≡ a / 2 ^ k * 2 ^ k = omega (arith, h, div_any a (2 ^ k)) in
    ap (λ (t : ℕ). bit_or t r) e ∙ bit_or_sum k (a / 2 ^ k) r p ∙ omega (arith, e)

-- The offset in a page of 2 MiB, from its parts.
or_megapage :
    (base virtual_addr : ℕ)
    → base % 2 ^ 21 ≡ 0
    → bit_or (bit_or base (virtual_addr / 2 ^ 12 % 2 ^ 9 * 2 ^ 12)) (virtual_addr % 2 ^ 12)
      ≡ base + virtual_addr % 2 ^ 21
or_megapage base v h =
    let high = bit_or_aligned 21 base (v / 2 ^ 12 % 2 ^ 9 * 2 ^ 12) h (omega arith) in
    rw high (
      bit_or_aligned 12 (base + v / 2 ^ 12 % 2 ^ 9 * 2 ^ 12) (v % 2 ^ 12) (omega (arith, h))
        (omega arith)
      ∙ omega arith)

-- The offset in a page of 1 GiB.
or_gigapage :
    (base virtual_addr : ℕ)
    → base % 2 ^ 30 ≡ 0
    → bit_or
        (bit_or
          (bit_or base (virtual_addr / 2 ^ 21 % 2 ^ 9 * 2 ^ 21))
          (virtual_addr / 2 ^ 12 % 2 ^ 9 * 2 ^ 12))
        (virtual_addr % 2 ^ 12)
      ≡ base + virtual_addr % 2 ^ 30
or_gigapage base v h =
    let high = bit_or_aligned 30 base (v / 2 ^ 21 % 2 ^ 9 * 2 ^ 21) h (omega arith) in
    rw high (or_megapage (base + v / 2 ^ 21 % 2 ^ 9 * 2 ^ 21) v (omega (arith, h)) ∙ omega arith)

-- The address as a sum, with the base of the page sign-extended from 32 bits.
abbrev pub address_sum : ℕ → ℕ → Sv39PageTableEntry → ℕ
address_sum virtual_addr zero pte = pte.ppn0 * 2 ^ 12 + virtual_addr % 2 ^ 12
address_sum virtual_addr (suc zero) pte =
    sext32 (pte.ppn2 % 4 * 2 ^ 30 + pte.ppn1 * 2 ^ 21) + virtual_addr % 2 ^ 21
address_sum virtual_addr (suc (suc i)) pte = sext32 (pte.ppn2 % 4 * 2 ^ 30) + virtual_addr % 2 ^ 30

module _ (virtual_addr : ℕ) (pte : Sv39PageTableEntry) (r : InRange pte) where
  shl32-ppn0 : shl32 pte.ppn0 12 ≡ pte.ppn0 * 2 ^ 12
  shl32-ppn0 = omega (arith, r.ppn0)

  shl32-ppn1 : shl32 pte.ppn1 21 ≡ pte.ppn1 * 2 ^ 21
  shl32-ppn1 = omega (arith, r.ppn1)

  shl32-ppn2 : shl32 pte.ppn2 30 ≡ pte.ppn2 % 4 * 2 ^ 30
  shl32-ppn2 = omega arith

  pages_sum :
      sext32 (bit_or (shl32 pte.ppn2 30) (shl32 pte.ppn1 21))
      ≡ sext32 (pte.ppn2 % 4 * 2 ^ 30 + pte.ppn1 * 2 ^ 21)
  pages_sum =
      rw
        (
          shl32-ppn2,
          shl32-ppn1,
          bit_or_sum 30 (pte.ppn2 % 4) (pte.ppn1 * 2 ^ 21) (omega (arith, r.ppn1)),
        )
        refl

  offset_sum : bit_and virtual_addr 0xFFF ≡ virtual_addr % 2 ^ 12
  offset_sum = bit_and_mask 12 virtual_addr

  vpn_sum : (i : ℕ) → vpn virtual_addr i ≡ virtual_addr / 2 ^ (12 + 9 * i) % 2 ^ 9
  vpn_sum i = bit_and_mask 9 (virtual_addr / 2 ^ (12 + 9 * i))

  pub page_address-sum :
      (i : ℕ) (m : Mmu)
      → i < 3
      → page_address virtual_addr i pte m ≡ done (address_sum virtual_addr i pte) m
  unfolding page_address
  page_address-sum zero m h =
      ap (λ (t : ℕ). done t m)
        (rw (shl32-ppn0, offset_sum)
          (bit_or_aligned 12 (pte.ppn0 * 2 ^ 12) (virtual_addr % 2 ^ 12) (omega arith)
            (omega arith)))
  page_address-sum (suc zero) m h =
      ap (λ (t : ℕ). done t m)
        (rw (pages_sum, offset_sum, vpn_sum 0)
          (or_megapage (sext32 (pte.ppn2 % 4 * 2 ^ 30 + pte.ppn1 * 2 ^ 21)) virtual_addr
            (ground (arith, r.ppn1))))
  page_address-sum (suc (suc zero)) m h =
      ap (λ (t : ℕ). done t m)
        (rw (shl32-ppn2, offset_sum, vpn_sum 0, vpn_sum 1)
          (or_gigapage (sext32 (pte.ppn2 % 4 * 2 ^ 30)) virtual_addr (ground arith)))
  page_address-sum (suc (suc (suc i))) m h = absurd (omega (arith, h))

-- The base of the page, by the privileged architecture: the page number without the `9 * i` bits
-- that the virtual address gives.
abbrev pub page_base : ℕ → ℕ → ℕ
page_base i raw = raw / 2 ^ (10 + 9 * i) % 2 ^ (44 - 9 * i) * 2 ^ (12 + 9 * i)

abbrev pub standard_address : ℕ → ℕ → ℕ → ℕ
standard_address virtual_addr i raw = page_base i raw + virtual_addr % 2 ^ (12 + 9 * i)

-- Up to where the code finds the page.
abbrev pub reach : ℕ → ℕ
reach zero = 2 ^ 21
reach (suc i) = 2 ^ 31

address_sum-standard :
    (virtual_addr i raw : ℕ)
    → i < 3
    → (address_sum virtual_addr i (parse_page_table_entry raw)
        ≡ standard_address virtual_addr i raw)
      ↔ (page_base i raw < reach i)
unfolding parse_page_table_entry
address_sum-standard v zero raw h =
    rw (bit_and_mask 9 (raw / 2 ^ 10)) (λ e. omega (arith, e), λ l. omega (arith, l))
address_sum-standard v (suc zero) raw h =
    rw (bit_and_mask 9 (raw / 2 ^ 19), bit_and_mask 26 (raw / 2 ^ 28))
      (λ e. ground (arith, e), λ l. ground (arith, l))
address_sum-standard v (suc (suc zero)) raw h =
    rw (bit_and_mask 26 (raw / 2 ^ 28)) (λ e. ground (arith, e), λ l. ground (arith, l))
address_sum-standard v (suc (suc (suc i))) raw h = absurd (omega (arith, h))

address-injective : {m : Mmu} {a b : ℕ} → done a m ≡ done b m → a ≡ b
address-injective e = cc e

-- For each of the three levels of Sv39, the code's physical address of a leaf is the one that the
-- privileged architecture gives exactly when the page starts below 2 MiB (level 0) or below 2 GiB
-- (levels 1 and 2).
pub page_address-standard_iff :
    (virtual_addr i raw : ℕ) (m : Mmu)
    → i < 3
    → (page_address virtual_addr i (parse_page_table_entry raw) m
        ≡ done (standard_address virtual_addr i raw) m)
      ↔ (page_base i raw < reach i)
page_address-standard_iff v i raw m h =
    let sum =
      page_address-sum v (parse_page_table_entry raw) (parse_page_table_entry-InRange raw) i m h in
    let agree = address_sum-standard v i raw h in
    (
      λ e. agree.0 (address-injective (sym sum ∙ e)),
      λ l. sum ∙ ap (λ (t : ℕ). done t m) (agree.1 l),
    )

-- Where a physical address is not in RAM.
abbrev pub IsOutsideRam : ℕ → Type 0
IsOutsideRam a = (a < kernbase) ⊎ (kernbase + memory_size ≤ a)

address_sum-IsOutsideRam :
    (virtual_addr i : ℕ) (pte : Sv39PageTableEntry)
    → InRange pte
    → IsOutsideRam (address_sum virtual_addr i pte)
address_sum-IsOutsideRam v zero pte r = inl (omega (arith, r.ppn0))
address_sum-IsOutsideRam v (suc zero) pte r = ground (arith, r.ppn1)
address_sum-IsOutsideRam v (suc (suc i)) pte r = ground arith

-- For each of the three levels of Sv39, every page table entry and every virtual address, the end
-- of `Translate` returns a physical address, and that address is not in RAM.
pub page_address-IsOutsideRam :
    (virtual_addr i raw : ℕ) (m : Mmu)
    → i < 3
    → (a : ℕ) × (page_address virtual_addr i (parse_page_table_entry raw) m ≡ done a m)
      × IsOutsideRam a
page_address-IsOutsideRam v i raw m h =
    let pte = parse_page_table_entry raw in
    let r = parse_page_table_entry-InRange raw in
    (address_sum v i pte, page_address-sum v pte r i m h, address_sum-IsOutsideRam v i pte r)
