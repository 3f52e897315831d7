-- ===== src/Devices/Bare.antt =====
-- Bare mode: addresses are physical, and each belongs to one device at most.
use rremu.Base.{
  ◌-◌, ℕ, zero, suc, ◌+◌, ◌^◌, ◌%◌, ◌≤◌, ◌<◌, ◌≡◌, ◌∙◌, true, Option, some, ltb, arith,
  if◌then◌else◌,
}
use rremu.Action.{gets, on_member, Action, done, ◌>>=◌, pure, throw_trap}
use rremu.Config.{kernbase, memory_size}
use rremu.Trap.{load_access_fault, store_amo_access_fault}
use rremu.Ram.{is_access_size, read_bytes}
use rremu.Ram
use rremu.Uart
use rremu.Ram.Access.{InRam, load-in, load-store}
use rremu.Mmu.{Mmu, bare, load, store, translate, load_physical, store_physical, on_ram, on_uart}

-- With translation off, one unit of fuel is enough: a load is the load of the device at the
-- address itself.
pub load_bare :
    (fuel addr size : ℕ) (before : Option ℕ) (m : Mmu)
    → m.paging_mode ≡ bare
    → load (suc fuel) addr size before m ≡ load_physical addr size before m
unfolding load translate gets
load_bare fuel addr size before m e = rw e

pub store_bare :
    (fuel addr size v : ℕ) (m : Mmu)
    → m.paging_mode ≡ bare
    → store fuel addr size v m ≡ store_physical addr size v m
unfolding store translate gets
store_bare fuel addr size v m e = rw e

-- The memory map, by ascending addresses.
pub data Region : Type 0 where
  clint plic uart virtio ram nothing : Region

pub region : ℕ → Region
region addr =
    if ltb addr 0x200_0000
    then nothing
    else if ltb addr 0x201_0000
    then clint
    else if ltb addr 0xc00_0000
    then nothing
    else if ltb addr 0x1000_0000
    then plic
    else if ltb addr 0x1000_1000
    then uart
    else if ltb addr 0x1000_2000
    then virtio
    else if ltb addr 0x8000_0000
    then nothing
    else if ltb addr 0x8800_0000
    then ram
    else nothing

-- What each part of the map does with an access.
pub load_at : Region → ℕ → ℕ → Option ℕ → Action Mmu (Option ℕ)
load_at ram addr size before =
    on_ram (Ram.load kernbase memory_size addr size) >>= (λ v. pure (some v))
load_at uart addr size before = on_uart (Uart.load addr size) >>= (λ v. pure (some v))
load_at nothing addr size before = throw_trap load_access_fault
load_at _ addr size before = pure before

pub store_at : Region → ℕ → ℕ → ℕ → Action Mmu (Unit {0})
store_at ram addr size v = on_ram (Ram.store kernbase memory_size addr size v)
store_at uart addr size v = on_uart (Uart.store addr size v)
store_at nothing addr size v = throw_trap store_amo_access_fault
store_at _ addr size v = pure tt

-- In bare mode a load through the bus implements the memory map: the order in which it asks the
-- devices does not matter, an access outside all devices throws an access fault, and accesses to
-- the virtio, CLINT and PLIC windows do nothing.
pub load-region :
    (fuel addr size : ℕ) (before : Option ℕ) (m : Mmu)
    → m.paging_mode ≡ bare
    → load (suc fuel) addr size before m ≡ load_at (region addr) addr size before m
unfolding load_physical region load_at
load-region fuel addr size before m e = load_bare fuel addr size before m e ∙ ground arith

-- In bare mode a store through the bus implements the memory map in the same way.
pub store-region :
    (fuel addr size v : ℕ) (m : Mmu)
    → m.paging_mode ≡ bare
    → store fuel addr size v m ≡ store_at (region addr) addr size v m
unfolding store_physical region store_at
store-region fuel addr size v m e = store_bare fuel addr size v m e ∙ ground arith

region_ram : (addr : ℕ) → kernbase ≤ addr → addr < kernbase + memory_size → region addr ≡ ram
unfolding region
region_ram addr p q = ground arith

-- An access of one of the sizes that RAM takes, inside RAM.
abbrev pub AtRam : ℕ → ℕ → Type 0
AtRam = InRam kernbase memory_size

is_access_size-pos : (size : ℕ) → is_access_size size ≡ true → 0 < size
is_access_size-pos zero h = cc
is_access_size-pos (suc n) h = omega arith

at_ram : {addr size : ℕ} → AtRam addr size → region addr ≡ ram
at_ram {addr} {size} h =
    region_ram addr h.from (omega (arith, h.to, is_access_size-pos size h.kind))

-- In bare mode a load inside RAM gives the bytes there, little-endian.
pub load_at-ram :
    (fuel addr size : ℕ) (before : Option ℕ) (m : Mmu)
    → m.paging_mode ≡ bare
    → AtRam addr size
    → load (suc fuel) addr size before m
      ≡ done (some (read_bytes m.ram.mem (addr - kernbase) size)) m
load_at-ram fuel addr size before m e h =
    load-region fuel addr size before m e
    ∙ unfold load_at in
      rw (at_ram h, load_at, ◌>>=◌, on_ram, on_member, load-in kernbase memory_size m.ram h)

-- In bare mode a value stored in RAM through the bus, at an address inside RAM with a size of 1, 2,
-- 4 or 8 bytes, is read back through the bus, cut to its size.
pub load-store_bare :
    (fuel addr size v : ℕ) (before : Option ℕ) (m : Mmu)
    → m.paging_mode ≡ bare
    → AtRam addr size
    → (m' : Mmu) × (store (suc fuel) addr size v m ≡ done tt m')
      × (load (suc fuel) addr size before m' ≡ done (some (v % 256 ^ size)) m')
load-store_bare fuel addr size v before m e h =
    let (r', stored, loaded) = load-store kernbase memory_size addr size v m.ram h in
    let m' : Mmu = record m { ram = r' } in
    (
      m',
      store-region (suc fuel) addr size v m e
          ∙ unfold store_at in rw (at_ram h, store_at, on_ram, on_member, stored),
      load-region fuel addr size before m' e
          ∙ unfold load_at in rw (at_ram h, load_at, ◌>>=◌, on_ram, on_member, loaded),
    )
