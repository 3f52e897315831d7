-- ===== src/Invariant.antt =====
-- The invariant of the emulator: registers, CSRs and `pc` hold 64-bit words, memory holds
-- bytes, the MMU follows `satp`. Logic has the rules; then memory, the page walk, registers, the
-- initial state, traps, instructions, steps, runs, and what follows for paging.
pub mod Logic
pub mod Memory
pub mod Walk
pub mod Registers
pub mod Initial
pub mod Traps
pub mod Shapes
pub mod Operations
pub mod Bodies
pub mod Entries
pub mod Steps
pub mod Runs
pub mod Paging
