-- ===== src/Tests.antt =====
-- The theorems at concrete inputs, and runs of the code.
mod Machine
mod Decoding
mod Devices
mod Traps
mod Processor
mod Loader
mod System
