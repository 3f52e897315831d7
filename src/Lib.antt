-- ===== src/Lib.antt =====
-- RREMU is a RISC-V emulator in C++: a processor (source/cpu.cpp, include/cpu.h) that steps over
-- instructions, a memory management unit that is also the bus (source/mmu.cpp, include/mmu.h),
-- the devices behind it (include/ram.h, include/uart.h, include/virtio.h, include/clint.h,
-- include/plic.h), a loader of ELF files (source/elf_parser.cpp), and the program around them
-- (source/main.cpp). This library models them and states what they do.
--
-- How the parts interact. `main` reads the command line, `LoadELF64` makes the contents of memory
-- and the entry point from a file, `CPU` is made from them, and the loop of `main` calls
-- `CPU::Step`, reporting the traps that it throws. `CPU::Step` clears register 0, fetches a word
-- through `CPU::Load`, which is `MMU::Load`; that translates the address and asks the devices in
-- turn. `CPU::Decode` finds the first entry of the table `instructions[]` that matches, the
-- entry's `execute` runs on the processor, a trap that it throws goes to `CPU::HandleTrap`, and
-- `CPU::HandleInterrupts` follows.
--
-- Which file models which part:
--   Base, Bits: numbers, machine words with their wrap-around, C++ signed integers, and the bits of
--     a number under and, or, xor and masks.
--   Trap: `trap_value` and `CPUTrapException::what` of include/trap.h.
--   Action: what code does to a state. It returns, throws a trap with the state as it is at the
--     throw, is undefined (an index outside an array, a shift by 64 or more, a variable that was
--     never assigned), or runs out of fuel.
--   Config: include/config.h, and the address test of the devices.
--   Bytes: `std::vector<uint8_t>`, as its size and its bytes.
--   Ram: `RAM` of include/ram.h; memory is a function from an index to a byte.
--   Uart: `UART` of include/uart.h; the buffer is a function from an index to a byte.
--   Virtio, Clint, Plic: the devices of include/virtio.h, include/clint.h and include/plic.h, whose
--     accesses do nothing.
--   Mmu/State, Mmu/Walk, Mmu/Bus: the data of include/mmu.h, `ParsePageTableEntry` and
--     `Translate`, `Load` and `Store` of source/mmu.cpp.
--   Cpu/State: the members of `CPU` and its accessors, `SetCsr` with `UpdatePagingMode`.
--   Cpu/Trap, Cpu/Interrupt: `HandleTrap`, `interrupt_handlers` and `HandleInterrupts`.
--   Isa/Fields: `mask`, the sign extensions and `parse_instruction` for each format.
--   Isa/Shapes: the struct `Instruction`, and the bodies of `execute` that groups of entries share.
--   Isa/System, Jumps, Memory, Immediate, Arithmetic, Multiply, Csrs, Atomic: the entries of
--     `instructions[]`; Isa/Table: the table in its order.
--   Step: `Fetch`, `Decode`, `Step` and `Run`.
--   Elf, with Elf/Exceptions and Elf/Format: `ReadIntoVector`, `GetHeader`, `LoadSegments` and
--     `LoadELF64`, where the code returns, throws or is undefined.
--   Main: `ParseOptions`, and `main` up to its loop and in it.
--   Debug: `RegisterNames` and the Dump functions, as the operands of `<<`, and `RunInstruction`.
-- The theorems stand in Ram/Access, Devices, Traps, Encoding, Step/Decoding, Step/Execution,
-- Semantics, Invariant, Completion, Elf/Image, Elf/Bounds, Elf/Undefined, Main/Start,
-- Main/Session, Main/Loading, Main/FirstStep, Debug/Names and Debug/Output; Tests has them at
-- concrete inputs. Invariant/Logic is a small program logic: what an action keeps of the state,
-- with one rule for each construct of Action; Completion/Logic is another, for what always comes
-- back.
--
-- Conventions. An N-bit integer is a number below 2 ^ N with the wrap-around written out; an
-- `int32_t` stands as its bit pattern, extended where C++ extends it. The language is C++20, so
-- that a left shift of an `int` wraps. Members that the constructors leave indeterminate (the root
-- page table, the UART's buffer) are arguments of `mmu_of` and `cpu_of`. What is not in the
-- repository is a parameter: the record `ElfFormat` holds the constants and structs of <elf.h>, with
-- the one law that an entry point has 64 bits, and a function from a name gives the files. The
-- theorem on undefined images takes besides that `p_vaddr` and `p_memsz` have 64 bits.
--
-- Fuel. `MMU::Load` and `MMU::Translate` call each other; the fuel of `load` and `store` bounds the
-- depth. In bare mode `Translate` makes no call, and one unit is enough. All other loops are
-- structural: over the table, the levels of the walk, the handlers and the segments; `run` and
-- `session` take the number of rounds of the endless loops of `Run` and of `main`.
--
-- Not modelled: errors while an open file is read, the usage messages, the wait for a key and the
-- measured time (source/main.cpp), the two threads of the UART, which the code never starts, the
-- tests and the build files.
pub mod Base
pub mod Bits
pub mod Trap
pub mod Action
pub mod Config
pub mod Bytes
pub mod Ram
pub mod Uart
pub mod Virtio
pub mod Clint
pub mod Plic
pub mod Mmu
pub mod Cpu
pub mod Isa
pub mod Elf
pub mod Debug
pub mod Step
pub mod Main
pub mod Devices
pub mod Traps
pub mod Encoding
pub mod Semantics
pub mod Invariant
pub mod Completion
pub mod Tests
