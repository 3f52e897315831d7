-- ===== src/Ram/Access.antt =====
-- What a load reads after a store, byte for byte, and what an access of a wrong size does.
use native.Mathlib.Nat.{pow-succ', one-le-pow}
use rremu.Base.{
  ℕ, zero, suc, ◌+◌, ◌-◌, ◌*◌, ◌/◌, ◌%◌, ◌^◌, ◌≤◌, ◌<◌, ◌≡◌, ◌⊎◌, refl, ap, ◌∙◌, true, false,
  le→leb, sub64, arith,
}
use rremu.Action.{done, trapped, gets}
use rremu.Trap.{load_access_fault, store_amo_access_fault}
use rremu.Ram.{Ram, read_bytes, write_bytes, is_access_size, load, store}

-- Bytes that lie outside the written range keep their values.
write_bytes_outside :
    (mem : ℕ → ℕ) (i n v k : ℕ) → (k < i) ⊎ (i + n ≤ k) → write_bytes mem i n v k ≡ mem k
unfolding write_bytes
write_bytes_outside mem i zero v k h = refl
write_bytes_outside mem i (suc n) v k h =
    ground (arith, write_bytes_outside mem (i + 1) n (v / 256) k)

-- A range is read from its bytes alone.
read_bytes_cong :
    (f g : ℕ → ℕ) (i n : ℕ)
    → ((k : ℕ) → i ≤ k → k < i + n → f k ≡ g k)
    → read_bytes f i n ≡ read_bytes g i n
unfolding read_bytes
read_bytes_cong f g i zero h = refl
read_bytes_cong f g i (suc n) h = omega (
  arith,
  h i (omega arith) (omega arith),
  read_bytes_cong f g (i + 1) n (λ k p q. h k (omega arith) (omega arith)),
)

mod_split : (v m : ℕ) → 0 < m → v % (256 * m) ≡ v % 256 + 256 * (v / 256 % m)
mod_split v m h = grind arith

-- Reading what was written gives its low bytes.
read-write_bytes : (mem : ℕ → ℕ) (i n v : ℕ) → read_bytes (write_bytes mem i n v) i n ≡ v % 256 ^ n
unfolding read_bytes write_bytes
read-write_bytes mem i zero v = omega arith
read-write_bytes mem i (suc n) v = omega (
  arith,
  head,
  tail,
  read-write_bytes mem (i + 1) n (v / 256),
  mod_split v (256 ^ n) (one-le-pow n 256 (omega arith)),
  ap (λ (t : ℕ). v % t) (pow-succ' 256 n),
)
  where
    head : write_bytes mem i (suc n) v i ≡ v % 256
    head = ground arith

    tail :
        read_bytes (write_bytes mem i (suc n) v) (i + 1) n
        ≡ read_bytes (write_bytes mem (i + 1) n (v / 256)) (i + 1) n
    tail = read_bytes_cong _ _ (i + 1) n (λ k p q. ground arith)

-- The access lies in the array of a RAM that ends within the address space.
pub record InRam (base_addr mem_size addr size : ℕ) : Type 0 where
  pub kind : is_access_size size ≡ true
  pub from : base_addr ≤ addr
  pub to : addr + size ≤ base_addr + mem_size
  pub fits : base_addr + mem_size < 2 ^ 64

module _ (base_addr mem_size : ℕ) where
  pub load-in :
      {addr size : ℕ} (r : Ram)
      → InRam base_addr mem_size addr size
      → load base_addr mem_size addr size r ≡ done (read_bytes r.mem (addr - base_addr) size) r
  unfolding load gets
  load-in {addr} {size} r h =
      let index : sub64 addr base_addr ≡ addr - base_addr = omega arith in
      rw (h.kind, index, le→leb (addr - base_addr + size) mem_size (omega arith))

  pub store-in :
      {addr size : ℕ} (v : ℕ) (r : Ram)
      → InRam base_addr mem_size addr size
      → store base_addr mem_size addr size v r
        ≡ done tt (record { mem = write_bytes r.mem (addr - base_addr) size v })
  unfolding store
  store-in {addr} {size} v r h =
      let index : sub64 addr base_addr ≡ addr - base_addr = omega arith in
      rw (h.kind, index, le→leb (addr - base_addr + size) mem_size (omega arith))

  -- A store inside the array returns, and a load of the same bytes then gives the low `size` bytes
  -- of what was stored.
  pub load-store :
      (addr size v : ℕ) (r : Ram)
      → InRam base_addr mem_size addr size
      → (r' : Ram) × (store base_addr mem_size addr size v r ≡ done tt r')
        × (load base_addr mem_size addr size r' ≡ done (v % 256 ^ size) r')
  load-store addr size v r h =
      let r' : Ram = record { mem = write_bytes r.mem (addr - base_addr) size v } in
      (
        r',
        store-in v r h,
        load-in r' h ∙ ap (λ x. done x r') (read-write_bytes r.mem (addr - base_addr) size v),
      )

  -- For accesses inside the array, a store leaves what any disjoint load reads as it was.
  pub load-store_disjoint :
      (addr size v addr' size' : ℕ) (r : Ram)
      → InRam base_addr mem_size addr size
      → InRam base_addr mem_size addr' size'
      → (addr + size ≤ addr') ⊎ (addr' + size' ≤ addr)
      → (x : ℕ) × (r' : Ram) × (store base_addr mem_size addr size v r ≡ done tt r')
        × (load base_addr mem_size addr' size' r ≡ done x r)
        × (load base_addr mem_size addr' size' r' ≡ done x r')
  load-store_disjoint addr size v addr' size' r h h' apart =
      let r' : Ram = record { mem = write_bytes r.mem (addr - base_addr) size v } in
      (
        read_bytes r.mem (addr' - base_addr) size',
        r',
        store-in v r h,
        load-in r h',
        load-in r' h' ∙ ap (λ x. done x r') same,
      )
    where
      same :
          read_bytes (write_bytes r.mem (addr - base_addr) size v) (addr' - base_addr) size'
          ≡ read_bytes r.mem (addr' - base_addr) size'
      same = read_bytes_cong _ _ _ _ (λ k p q.
          write_bytes_outside r.mem (addr - base_addr) size v k (omega (arith, h.from, h'.from)))

  -- A load or a store of RAM with a size other than 1, 2, 4 and 8 throws its access fault, with the
  -- memory as it was.
  pub wrong_size :
      (addr size v : ℕ) (r : Ram)
      → is_access_size size ≡ false
      → (load base_addr mem_size addr size r ≡ trapped load_access_fault r)
        × (store base_addr mem_size addr size v r ≡ trapped store_amo_access_fault r)
  unfolding load store gets
  wrong_size addr size v r h = (rw h, rw h)
