-- ===== src/Devices/Paged.antt =====
-- Sv39 mode: the page walk reads its entries through `MMU::Load`, which translates again.
use rremu.Base.{ℕ, zero, suc, ◌+◌, ◌*◌, ◌/◌, ◌^◌, ◌<◌, ◌≡◌, refl, Option, some, add64, mul64, arith}
use rremu.Action.{gets, out_of_fuel, ◌>>=◌}
use rremu.Bits.{bit_and_mask}
use rremu.Mmu.{
  Mmu, sv39, load, store, translate, translate_in, walk_from_root, walk, Loader, vpn,
  parse_page_table_entry,
}

-- Where the loader of the entries never returns in a state, no walk from that state returns.
walk_stuck :
    (loader : Loader) (addr : ℕ) (m : Mmu)
    → m.paging_mode ≡ sv39
    → ((a size : ℕ) (before : Option ℕ) → loader a size before m ≡ out_of_fuel)
    → translate loader addr m ≡ out_of_fuel
unfolding translate translate_in walk_from_root walk gets
walk_stuck loader addr m e h =
    ground (arith, h (add64 (mul64 m.root_page_table m.page_size) (vpn addr 2 * 8)) 8 (some 0))

load_stuck :
    (fuel addr size : ℕ) (before : Option ℕ) (m : Mmu)
    → m.paging_mode ≡ sv39
    → load fuel addr size before m ≡ out_of_fuel
unfolding load
load_stuck zero addr size before m e = refl
load_stuck (suc fuel) addr size before m e =
    rw (◌>>=◌, walk_stuck (load fuel) addr m e (λ a n b. load_stuck fuel a n b m e))

-- In Sv39 mode no load and no store ever returns: however much fuel there is, `Translate` calls
-- `Load` for the first page table entry, which calls `Translate` again.
pub paged_diverges :
    (fuel addr size v : ℕ) (before : Option ℕ) (m : Mmu)
    → m.paging_mode ≡ sv39
    → (load fuel addr size before m ≡ out_of_fuel) × (store fuel addr size v m ≡ out_of_fuel)
unfolding store
paged_diverges fuel addr size v before m e = (
  load_stuck fuel addr size before m e,
  rw (◌>>=◌, walk_stuck (load fuel) addr m e (λ a n b. load_stuck fuel a n b m e)),
)

-- The fields of a 64-bit page table entry are the entry's bits, in the order of the struct:
-- together they give the entry back.
pub parse_page_table_entry_fields :
    (pte : ℕ)
    → pte < 2 ^ 64
    → let e = parse_page_table_entry pte in
      e.v
        + 2 * e.r
        + 4 * e.w
        + 8 * e.x
        + 16 * e.u
        + 32 * e.g
        + 64 * e.a
        + 128 * e.d
        + 256 * e.rsw
        + 2 ^ 10 * e.ppn0
        + 2 ^ 19 * e.ppn1
        + 2 ^ 28 * e.ppn2
        + 2 ^ 54 * e.reserved
      ≡ pte
unfolding parse_page_table_entry
parse_page_table_entry_fields pte h = omega (
  arith,
  bit_and_mask 1 (pte / 2 ^ 0),
  bit_and_mask 1 (pte / 2 ^ 1),
  bit_and_mask 1 (pte / 2 ^ 2),
  bit_and_mask 1 (pte / 2 ^ 3),
  bit_and_mask 1 (pte / 2 ^ 4),
  bit_and_mask 1 (pte / 2 ^ 5),
  bit_and_mask 1 (pte / 2 ^ 6),
  bit_and_mask 1 (pte / 2 ^ 7),
  bit_and_mask 2 (pte / 2 ^ 8),
  bit_and_mask 9 (pte / 2 ^ 10),
  bit_and_mask 9 (pte / 2 ^ 19),
  bit_and_mask 26 (pte / 2 ^ 28),
  bit_and_mask 10 (pte / 2 ^ 54),
)
