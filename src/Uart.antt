-- ===== src/Uart.antt =====
-- include/uart.h: the UART's registers as the code keeps them in `buffer`.
use rremu.Base.{ℕ, ◌+◌, ◌-◌, bit_and, bit_or, if◌then◌else◌, ltb, ◌==◌, not, sub64}
use rremu.Action.{Action, ◌>>◌, pure, modify, defined_if, throw_trap}
use rremu.Config.{uart_base}
use rremu.Ram.{update}
use rremu.Trap.{load_access_fault, store_amo_access_fault}

-- `std::array<char, 128> buffer`, each element as its byte. It starts indeterminate.
pub record Uart : Type 0 where
  pub buffer : ℕ → ℕ

-- `UART_REG` and `UART_BITS`, as far as the code uses them.
abbrev pub rhr : ℕ
rhr = uart_base + 0x0

abbrev pub thr : ℕ
thr = uart_base + 0x0

abbrev pub lsr : ℕ
lsr = uart_base + 0x5

abbrev pub lsr_rx_ready : ℕ
lsr_rx_ready = 1

abbrev pub lsr_tx_idle : ℕ
lsr_tx_idle = 0x20

abbrev set_buffer : ℕ → ℕ → Action Uart (Unit {0})
set_buffer i v = modify (λ u. record { buffer = update u.buffer i v })

-- `buffer[i] &= ~lsr_rx_ready` and `buffer[i] |= lsr_tx_idle`
abbrev clear_rx_ready : Action Uart (Unit {0})
clear_rx_ready u =
    set_buffer (lsr - uart_base) (bit_and (u.buffer (lsr - uart_base)) (0xff - lsr_rx_ready)) u

abbrev set_tx_idle : Action Uart (Unit {0})
set_tx_idle u = set_buffer (lsr - uart_base) (bit_or (u.buffer (lsr - uart_base)) lsr_tx_idle) u

-- `UART::Load`: the index is `base_addr - addr`, and the copy goes from `data` into `buffer`.
unfoldable pub load : ℕ → ℕ → Action Uart ℕ
load addr size =
    let index = sub64 uart_base addr in
    if not (size == 1) then throw_trap load_access_fault else do
      if addr == rhr then clear_rx_ready else pure tt
      defined_if (ltb index 128)
      set_buffer index 0
      pure 0

-- `UART::Store`: `data` is not looked at.
unfoldable pub store : ℕ → ℕ → ℕ → Action Uart (Unit {0})
store addr size data' =
    if not (size == 1)
    then throw_trap store_amo_access_fault
    else if addr == thr
    then set_tx_idle
    else pure tt
