-- ===== src/Cpu.antt =====
-- include/cpu.h and the state handling of source/cpu.cpp: registers, CSRs, traps and interrupts.
mod State
mod Trap
mod Interrupt
unfoldable pub use State.*
unfoldable pub use Trap.*
unfoldable pub use Interrupt.*
