-- ===== src/Invariant/Initial.antt =====
-- The state that the constructor of `CPU` makes.
use rremu.Base.{ℕ, refl, arith}
use rremu.Bytes.{Bytes}
use rremu.Uart.{Uart}
use rremu.Cpu.{cpu_of}
use rremu.Mmu.{mmu_of}
use rremu.Ram.{ram_of}
use rremu.Invariant.Memory.{IsWord, AreBytes, UartIsValid}
use rremu.Invariant.Registers.{IsValid}

ram_of-AreBytes : (binary : Bytes) → AreBytes binary.get → AreBytes (ram_of binary).mem
unfolding ram_of
ram_of-AreBytes binary h i = ground (arith, h i)

pub cpu_of-IsValid :
    (root : ℕ) (uart : Uart) (binary : Bytes) (entry_point : ℕ)
    → UartIsValid uart
    → AreBytes binary.get
    → IsWord entry_point
    → IsValid (cpu_of root uart binary entry_point)
unfolding cpu_of mmu_of
cpu_of-IsValid root uart binary entry_point hu hb hp = record {
  pc = hp;
  regs = λ i. omega arith;
  csrs = λ i. omega arith;
  mmu = (ram_of-AreBytes binary hb, hu, ((λ _. refl), (λ h. absurd (omega (arith, h)))));
}
