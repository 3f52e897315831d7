-- ===== src/Mmu/Bus.antt =====
-- `MMU::Load` and `MMU::Store`: translation, then the device at the physical address.
use rremu.Base.{ℕ, zero, suc, Option, some, if◌then◌else◌}
use rremu.Action.{on_member, Action, out_of_fuel, ◌>>=◌, pure, throw_trap}
use rremu.Config.{
  is_valid_addr, kernbase, memory_size, uart_base, uart_size, virtio_base, virtio_size, clint_base,
  clint_size, plic_base, plic_size,
}
use rremu.Trap.{load_access_fault, store_amo_access_fault}
use rremu.Ram.{Ram}
use rremu.Ram
use rremu.Uart.{Uart}
use rremu.Uart
use rremu.Virtio
use rremu.Clint
use rremu.Plic
use rremu.Mmu.State.{Mmu}
use rremu.Mmu.Walk.{Loader, translate}

-- A call on a member of the MMU.
abbrev pub on_ram : {A : Type 0} → Action Ram A → Action Mmu A
on_ram = on_member (λ m. m.ram) (λ m r. record m { ram = r })

abbrev pub on_uart : {A : Type 0} → Action Uart A → Action Mmu A
on_uart = on_member (λ m. m.uart) (λ m u. record m { uart = u })

-- `MMU::Load` after the translation. The virtio, CLINT and PLIC devices leave `data` as it was.
unfoldable pub load_physical : ℕ → ℕ → Option ℕ → Action Mmu (Option ℕ)
load_physical addr size data' =
    if is_valid_addr kernbase memory_size addr
    then on_ram (Ram.load kernbase memory_size addr size) >>= (λ v. pure (some v))
    else if is_valid_addr uart_base uart_size addr
    then on_uart (Uart.load addr size) >>= (λ v. pure (some v))
    else if is_valid_addr virtio_base virtio_size addr
    then Virtio.load addr size data'
    else if is_valid_addr clint_base clint_size addr
    then Clint.load addr size data'
    else if is_valid_addr plic_base plic_size addr
    then Plic.load addr size data'
    else if is_valid_addr virtio_base virtio_size addr
    then Virtio.load addr size data'
    else throw_trap load_access_fault

-- `MMU::Store` after the translation.
unfoldable pub store_physical : ℕ → ℕ → ℕ → Action Mmu (Unit {0})
store_physical addr size data' =
    if is_valid_addr kernbase memory_size addr
    then on_ram (Ram.store kernbase memory_size addr size data')
    else if is_valid_addr uart_base uart_size addr
    then on_uart (Uart.store addr size data')
    else if is_valid_addr virtio_base virtio_size addr
    then Virtio.store addr size data'
    else if is_valid_addr clint_base clint_size addr
    then Clint.store addr size data'
    else if is_valid_addr plic_base plic_size addr
    then Plic.store addr size data'
    else if is_valid_addr virtio_base virtio_size addr
    then Virtio.store addr size data'
    else throw_trap store_amo_access_fault

-- `MMU::Load`; the fuel bounds how deep `Load` and `Translate` call each other.
unfoldable pub load : ℕ → Loader
load zero addr size data' = λ m. out_of_fuel
load (suc fuel) addr size data' =
    translate (load fuel) addr >>= λ physical_addr. load_physical physical_addr size data'

-- `MMU::Store`
unfoldable pub store : ℕ → ℕ → ℕ → ℕ → Action Mmu (Unit {0})
store fuel addr size data' =
    translate (load fuel) addr >>= λ physical_addr. store_physical physical_addr size data'
