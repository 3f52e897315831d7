-- ===== src/Tests/Devices.antt =====
-- Memory, the UART and the bus.
use rremu.Base.{ℕ, ◌+◌, ◌*◌, ◌^◌, ◌<◌, ◌≡◌, ◌≢◌, ◌⊎◌, ◌↔◌, inl, refl, some, none, max, arith}
use rremu.Action.{done, trapped, undefined, out_of_fuel}
use rremu.Bits.{bit}
use rremu.Bytes.{no_bytes}
use rremu.Config.{kernbase, memory_size, uart_base}
use rremu.Trap.{load_access_fault, store_amo_access_fault}
use rremu.Ram.{Ram}
use rremu.Ram
use rremu.Ram.Access.{InRam, load-store, load-store_disjoint, wrong_size}
use rremu.Uart.{Uart, thr}
use rremu.Uart
use rremu.Mmu.{Mmu, bare, mmu_of, load, store, parse_page_table_entry, page_address}
use rremu.Devices.Bare.{load-region, store-region, load-store_bare, region, load_at, store_at}
use rremu.Devices.Paged.{paged_diverges, parse_page_table_entry_fields}
use rremu.Devices.Sv39.{
  standard_address, page_base, reach, page_address-standard_iff, IsOutsideRam,
  page_address-IsOutsideRam,
}
use rremu.Devices.Serial.{serial_load, serial_store}
use rremu.Tests.Machine.{blank_ram, blank_uart, paged}

abbrev unpaged : Mmu
unpaged = mmu_of 0 blank_uart no_bytes

aligned-InRam : InRam kernbase memory_size 0x8000_0010 8
aligned-InRam = record { kind = refl; from = omega arith; to = omega arith; fits = omega arith }

after-InRam : InRam kernbase memory_size 0x8000_0018 4
after-InRam = record { kind = refl; from = omega arith; to = omega arith; fits = omega arith }

store_then_load :
    (r' : Ram) × (Ram.store kernbase memory_size 0x8000_0010 8 0x1234 blank_ram ≡ done tt r')
    × (Ram.load kernbase memory_size 0x8000_0010 8 r' ≡ done 0x1234 r')
store_then_load = load-store kernbase memory_size 0x8000_0010 8 0x1234 blank_ram aligned-InRam

load-store_disjoint_example :
    (x : ℕ) × (r' : Ram) × (Ram.store kernbase memory_size 0x8000_0010 8 0x1234 blank_ram
      ≡ done tt r')
    × (Ram.load kernbase memory_size 0x8000_0018 4 blank_ram ≡ done x blank_ram)
    × (Ram.load kernbase memory_size 0x8000_0018 4 r' ≡ done x r')
load-store_disjoint_example =
    load-store_disjoint kernbase memory_size 0x8000_0010 8 0x1234 0x8000_0018 4 blank_ram
      aligned-InRam after-InRam (inl (omega arith))

three_bytes_trap :
    (Ram.load kernbase memory_size kernbase 3 blank_ram ≡ trapped load_access_fault blank_ram)
    × (Ram.store kernbase memory_size kernbase 3 7 blank_ram
        ≡ trapped store_amo_access_fault blank_ram)
three_bytes_trap = wrong_size kernbase memory_size kernbase 3 7 blank_ram refl

unpaged_bare : unpaged.paging_mode ≡ bare
unfolding mmu_of
unpaged_bare = refl

load-region_example :
    load 1 uart_base 1 none unpaged ≡ load_at (region uart_base) uart_base 1 none unpaged
load-region_example = load-region 0 uart_base 1 none unpaged unpaged_bare

store-region_example :
    store 1 uart_base 1 65 unpaged ≡ store_at (region uart_base) uart_base 1 65 unpaged
store-region_example = store-region 1 uart_base 1 65 unpaged unpaged_bare

load-store_bare_example :
    (m' : Mmu) × (store 1 0x8000_0010 8 0x1234 unpaged ≡ done tt m')
    × (load 1 0x8000_0010 8 none m' ≡ done (some 0x1234) m')
load-store_bare_example =
    load-store_bare 0 0x8000_0010 8 0x1234 none unpaged unpaged_bare aligned-InRam

paged_diverges_example :
    (load 9 kernbase 8 none paged ≡ out_of_fuel) × (store 9 kernbase 8 7 paged ≡ out_of_fuel)
paged_diverges_example = paged_diverges 9 kernbase 8 7 none paged refl

fields_of_entry :
    let e = parse_page_table_entry 0x2000_00cf in
    e.v
      + 2 * e.r
      + 4 * e.w
      + 8 * e.x
      + 16 * e.u
      + 32 * e.g
      + 64 * e.a
      + 128 * e.d
      + 256 * e.rsw
      + 2 ^ 10 * e.ppn0
      + 2 ^ 19 * e.ppn1
      + 2 ^ 28 * e.ppn2
      + 2 ^ 54 * e.reserved
    ≡ 0x2000_00cf
fields_of_entry = parse_page_table_entry_fields 0x2000_00cf (omega arith)

serial_load_example :
    ((uart_base + 5 ≡ uart_base)
      × ((u' : Uart) × (Uart.load (uart_base + 5) 1 blank_uart ≡ done 0 u')))
    ⊎ ((uart_base + 5 ≢ uart_base) × (Uart.load (uart_base + 5) 1 blank_uart ≡ undefined))
serial_load_example = serial_load (uart_base + 5) blank_uart (omega arith) (omega arith)

serial_store_example :
    (u' : Uart) × (Uart.store thr 1 65 blank_uart ≡ done tt u')
    × ((k : ℕ) → bit k (u'.buffer 5) ≡ max (bit k (blank_uart.buffer 5)) (bit k 0x20))
    × ((i : ℕ) → i ≢ 5 → u'.buffer i ≡ blank_uart.buffer i)
serial_store_example = serial_store 65 blank_uart

-- A leaf of 1 GiB at level 2: readable and valid, at the physical address 1 << 30.
page_address-standard_iff_example :
    (page_address 0x1234 2 (parse_page_table_entry (2 ^ 28 + 3)) paged
      ≡ done (standard_address 0x1234 2 (2 ^ 28 + 3)) paged)
    ↔ (page_base 2 (2 ^ 28 + 3) < reach 2)
page_address-standard_iff_example =
    page_address-standard_iff 0x1234 2 (2 ^ 28 + 3) paged (omega arith)

-- A leaf of 1 GiB whose page the architecture puts at the start of RAM.
page_address-IsOutsideRam_example :
    (a : ℕ) × (page_address 0x1234 2 (parse_page_table_entry (2 ^ 29 + 3)) paged ≡ done a paged)
    × IsOutsideRam a
page_address-IsOutsideRam_example =
    page_address-IsOutsideRam 0x1234 2 (2 ^ 29 + 3) paged (omega arith)
