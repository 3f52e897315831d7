-- ===== src/Traps.antt =====
-- Theorems about `HandleTrap`, SRET, MRET and `HandleInterrupts` of source/cpu.cpp.
pub mod Status
pub mod Return
pub mod Target
pub mod Priority
