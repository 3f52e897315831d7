-- ===== src/Devices/Serial.antt =====
-- The UART: which reads are defined, and what a write to the transmit register leaves.
use native.Mathlib.Decide.{ℕ_discrete}
use rremu.Base.{
  ℕ, ◌+◌, ◌-◌, ◌^◌, ◌≤◌, ◌<◌, ◌≡◌, ◌≢◌, ◌⊎◌, inl, inr, refl, max, bit_and, bit_or, sub64, arith,
}
use rremu.Bits.{bit, bit-bit_or}
use rremu.Action.{done, undefined}
use rremu.Config.{uart_base, uart_size}
use rremu.Ram.{update}
use rremu.Uart.{Uart, load, store, thr}

-- The registers after a read at the base address: the ready bit and the byte that was read are 0.
abbrev base_read : Uart → Uart
base_read u = record { buffer = update (update u.buffer 5 (bit_and (u.buffer 5) 0xfe)) 0 0 }

-- A one-byte read inside the UART's window is defined at its base address alone, where it gives 0
-- whatever the registers hold; elsewhere the index `base_addr - addr` wraps and leaves `buffer`.
pub serial_load :
    (addr : ℕ) (u : Uart)
    → uart_base ≤ addr
    → addr < uart_base + uart_size
    → ((addr ≡ uart_base) × ((u' : Uart) × (load addr 1 u ≡ done 0 u')))
      ⊎ ((addr ≢ uart_base) × (load addr 1 u ≡ undefined))
unfolding load
serial_load addr u p q = elim (ℕ_discrete addr uart_base) [
  | yes e ↦ inl (e, (base_read u, rw e))
  | no ne ↦
      let wraps : sub64 uart_base addr ≡ uart_base + 2 ^ 64 - addr = omega arith in
      inr (ne, ground (arith, wraps))
]

-- A one-byte write to the transmit register sets the idle bit of the line status register and
-- changes no other register and no other bit of it; what is written is not kept.
pub serial_store :
    (v : ℕ) (u : Uart)
    → (u' : Uart) × (store thr 1 v u ≡ done tt u')
      × ((k : ℕ) → bit k (u'.buffer 5) ≡ max (bit k (u.buffer 5)) (bit k 0x20))
      × ((i : ℕ) → i ≢ 5 → u'.buffer i ≡ u.buffer i)
unfolding store
serial_store v u = (
  record { buffer = update u.buffer 5 (bit_or (u.buffer 5) 0x20) },
  refl,
  (λ k. bit-bit_or k (u.buffer 5) 0x20),
  (λ i ne. ground arith),
)
