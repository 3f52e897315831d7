-- ===== src/Config.antt =====
-- include/config.h, and the address test that each device of include/ repeats.
use rremu.Base.{ℕ, ◌+◌, ◌*◌, Bool, ◌&&◌, leb, ltb}

abbrev pub n_reg : ℕ
n_reg = 32

abbrev pub n_csr : ℕ
n_csr = 4096

abbrev pub kernbase : ℕ
kernbase = 0x8000_0000

abbrev pub memory_size : ℕ
memory_size = 1024 * 1024 * 128

abbrev pub page_size : ℕ
page_size = 4096

abbrev pub uart_base : ℕ
uart_base = 0x1000_0000

abbrev pub uart_size : ℕ
uart_size = 0x1000

abbrev pub virtio_base : ℕ
virtio_base = 0x1000_1000

abbrev pub virtio_size : ℕ
virtio_size = 0x1000

abbrev pub clint_base : ℕ
clint_base = 0x200_0000

abbrev pub clint_size : ℕ
clint_size = 0x1_0000

abbrev pub plic_base : ℕ
plic_base = 0xc00_0000

abbrev pub plic_size : ℕ
plic_size = 0x400_0000

-- `IsValidAddr` of a device at `base_addr` with `size` bytes; no sum here wraps.
abbrev pub is_valid_addr : ℕ → ℕ → ℕ → Bool
is_valid_addr base_addr size addr = leb base_addr addr && ltb addr (base_addr + size)
