-- ===== src/Encoding.antt =====
-- The immediates of the instruction formats in source/cpu.cpp, as the words encode them.
pub mod Immediates
pub mod Offsets
