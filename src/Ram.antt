-- ===== src/Ram.antt =====
-- include/ram.h: the byte array behind `RAM<base_addr_mem, size_mem>`. Little-endian `memcpy` to
-- and from a `uint64_t`, as on the hosts that the emulator is built for.

pub mod Access
use rremu.Base.{
  ℕ, zero, suc, ◌+◌, ◌*◌, ◌/◌, ◌%◌, Bool, ◌||◌, List, [], ◌∷◌, if◌then◌else◌, leb, ltb, ◌==◌, sub64,
}
use rremu.Bytes.{Bytes}
use rremu.Action.{Action, ◌>>◌, gets, modify, defined_if, throw_trap}
use rremu.Trap.{load_access_fault, store_amo_access_fault}

-- `mem`, from an index to its byte.
pub record Ram : Type 0 where
  pub mem : ℕ → ℕ

abbrev pub update : (ℕ → ℕ) → ℕ → ℕ → ℕ → ℕ
update f k v j = if k == j then v else f j

-- `memcpy(&data, &mem[index], n)` into a `data` of 0.
unfoldable pub read_bytes : (ℕ → ℕ) → ℕ → ℕ → ℕ
read_bytes mem index zero = 0
read_bytes mem index (suc n) = mem index + 256 * read_bytes mem (index + 1) n

-- `memcpy(&mem[index], &data, n)`
unfoldable pub write_bytes : (ℕ → ℕ) → ℕ → ℕ → ℕ → ℕ → ℕ
write_bytes mem index zero data' = mem
write_bytes mem index (suc n) data' =
    update (write_bytes mem (index + 1) n (data' / 256)) index (data' % 256)

-- The cases of both `switch(size)`.
abbrev pub is_access_size : ℕ → Bool
is_access_size size = size == 1 || size == 2 || size == 4 || size == 8

-- The constructor: the program from the first byte on, the rest 0. `main` has checked that it fits.
unfoldable pub ram_of : Bytes → Ram
ram_of binary = record { mem = λ i. if ltb i binary.size then binary.get i else 0 }

-- The template's arguments.
module _ (base_addr mem_size : ℕ) where
  -- `RAM::Load`; past the end of the array `memcpy` is undefined.
  unfoldable pub load : ℕ → ℕ → Action Ram ℕ
  load addr size =
      let index = sub64 addr base_addr in
      if is_access_size size
      then (do defined_if (leb (index + size) mem_size); gets (λ r. read_bytes r.mem index size))
      else throw_trap load_access_fault

  -- `RAM::Store`
  unfoldable pub store : ℕ → ℕ → ℕ → Action Ram (Unit {0})
  store addr size data' =
      let index = sub64 addr base_addr in
      if is_access_size size
      then (do
        defined_if (leb (index + size) mem_size)
        modify (λ r. record { mem = write_bytes r.mem index size data' }))
      else throw_trap store_amo_access_fault
