-- ===== src/Main/FirstStep.antt =====
-- The first round of the loop of `main` runs the instruction that the file has at its entry point.
use Prim.Native.String.{String}
use rremu.Base.{
  ℕ, zero, suc, ◌+◌, ◌*◌, ◌-◌, ◌%◌, ◌^◌, ◌<◌, ◌≡◌, ◌≢◌, refl, sym, ap, ap₂, ◌∙◌, Option, some, [],
  ◌∷◌, arith,
}
use rremu.Action.{◌>>◌}
use rremu.Bytes.{Bytes}
use rremu.Config.{kernbase}
use rremu.Uart.{Uart}
use rremu.Ram.{read_bytes}
use rremu.Cpu.{Cpu, handle_interrupts}
use rremu.Devices.Bare.{AtRam}
use rremu.Elf.{ElfFormat, IsLawful}
use rremu.Elf.Image.{IsLoadable, image, pick, segments}
use rremu.Isa.{Instruction, instructions}
use rremu.Step.{step, catch_trap}
use rremu.Step.Decoding.{IsEntry, Matches, fence_word}
use rremu.Step.Execution.{word_at, fetched, step-executes}
use rremu.Invariant.Memory.{AreBytes, UartIsValid}
use rremu.Main.{starts, main}
use rremu.Main.Loading.{IsReady, main-IsReady}

-- Bytes that agree in the range that is read.
read_bytes-agree :
    (f g : ℕ → ℕ) (i n : ℕ)
    → ((j : ℕ) → j < i + n → f j ≡ g j)
    → read_bytes f i n ≡ read_bytes g i n
unfolding read_bytes
read_bytes-agree f g i zero h = refl
read_bytes-agree f g i (suc n) h =
    ap₂ (λ (a b : ℕ). a + 256 * b) (h i (omega arith))
      (read_bytes-agree f g (i + 1) n (λ j p. h j (omega (arith, p))))

module _ (h : ElfFormat) (binary : Bytes) where
  abbrev pub entry : ℕ
  entry = (h.ehdr binary.get).e_entry

  -- The word that the segments of the file put at an address of memory.
  abbrev pub image_word : ℕ → ℕ
  image_word addr =
      read_bytes (λ i. pick binary 0 (image h (segments h binary) i)) (addr - kernbase) 4 % 2 ^ 32

  word_at-image : (c : Cpu) → IsReady h binary c → AtRam c.pc 4 → word_at c ≡ image_word c.pc
  unfolding word_at
  word_at-image c r at =
      ap (λ (w : ℕ). w % 2 ^ 32)
        (read_bytes-agree c.mmu.ram.mem (λ i. pick binary 0 (image h (segments h binary) i))
          (c.pc - kernbase) 4 (λ j p. r.ram j (omega (arith, p, at.from, at.to))))

  -- With `-elf` and a file that can be opened, is made of bytes and is well-formed (as `IsLoadable`
  -- says), and whose entry point is the address of a word in RAM: `main` starts its loop there, and
  -- the first step runs the entry of the table that matches the word that the file's segments put
  -- at the entry point, on the state after the fetch; a trap that it throws is taken, and the
  -- interrupts follow. The word is not FENCE's 0x0000000f, and there is one unit of fuel or more.
  pub main-first_step :
      (root : ℕ) (uart : Uart) (files : String → Option Bytes) (prog file : String)
      (i : Instruction) (fuel : ℕ)
      → IsLawful h
      → files file ≡ some binary
      → IsLoadable h binary
      → AreBytes binary.get
      → UartIsValid uart
      → AtRam entry 4
      → IsEntry i instructions
      → Matches (image_word entry) i
      → image_word entry ≢ fence_word
      → (c : Cpu) × (main h files root uart (prog ∷ "-elf" ∷ file ∷ []) ≡ starts c)
        × (c.pc ≡ entry)
        × (step (suc fuel) c
            ≡ (catch_trap (i.execute (suc fuel) (image_word entry)) >> handle_interrupts)
                (fetched c))
  main-first_step root uart files prog file i fuel lawful opened loadable bytes buffer at e m
        other =
      let (c, started, ready, _) =
        main-IsReady h root uart binary files prog file lawful opened loadable bytes buffer in
      let at_pc : AtRam c.pc 4 = rw ready.pc at in
      let same : word_at c ≡ image_word entry =
        word_at-image c ready at_pc ∙ ap (image_word) ready.pc in
      (
        c,
        started,
        ready.pc,
        rw same at
            (step-executes fuel c i ready.paging at_pc e (rw same m) (λ f. other (sym same ∙ f))),
      )
