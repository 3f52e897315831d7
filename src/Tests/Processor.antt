-- ===== src/Tests/Processor.antt =====
-- Steps of the processor, and what they keep.
use rremu.Base.{
  ℕ, ◌-◌, ◌^◌, ◌<◌, ◌≡◌, ◌⊎◌, inl, inr, refl, Bool, false, ◌||◌, ◌==◌, ==_iff, if◌then◌else◌, List,
  [], ◌∷◌, bit_and, not64, add64, mul64, arith,
}
use rremu.Bytes.{bytes, no_bytes}
use rremu.Config.{kernbase}
use rremu.Action.{done, trapped, ◌>>◌}
use rremu.Trap.{illegal_instruction}
use rremu.Ram.{update, read_bytes, ram_of}
use rremu.Mmu.{Mmu, bare, mmu_of}
use rremu.Cpu.{Cpu, cpu_of, handle_interrupts}
use rremu.Isa.{
  Instruction, instructions, InstructionFields, branch, parse_i, parse_r, parse_s, reg_reg,
  store_reg, load_reg,
}
use rremu.Isa.Jumps.{lui, run_jal, run_jalr}
use rremu.Isa.Multiply.{div_uint, rem_uint, div_int, rem_int, int64_min}
use rremu.Devices.Bare.{AtRam}
use rremu.Encoding.Offsets.{Fits, encode_b, encode_j, signed_value}
use rremu.Step.{step, run, catch_trap}
use rremu.Step.Decoding.{IsEntry, NoneMatches, Matches}
use rremu.Step.Execution.{word_at, fetched, step-executes, step-illegal}
use rremu.Completion.Entries.{total_entries}
use rremu.Completion.Steps.{Returns, step-Returns}
use rremu.Invariant.Initial.{cpu_of-IsValid}
use rremu.Invariant.Logic.{Ensures, Any}
use rremu.Invariant.Registers.{IsValid}
use rremu.Invariant.Runs.{Explains, run-Explains}
use rremu.Invariant.Steps.{step-IsValid}
use rremu.Semantics.Registers.{reg_reg_lem}
use rremu.Semantics.Jumps.{target, branch-encode_b, jal-encode_j, jalr_lem}
use rremu.Base.Int.{int64}
use rremu.Semantics.Memory.{store_reg-load_reg, offset_i, offset_s}
use rremu.Semantics.Signed.{div_int-rem_int}
use rremu.Semantics.Division.{div_uint-rem_uint}
use rremu.Tests.Machine.{start, blank_uart}

pub start-IsValid : IsValid start
start-IsValid =
    cpu_of-IsValid 0 blank_uart no_bytes kernbase (λ i. omega arith) (λ i. omega arith)
      (omega arith)

step-IsValid_example : Ensures IsValid Any (step 1 start)
step-IsValid_example = step-IsValid 1 start start-IsValid

run-Explains_example : Explains 1 20 [] start (run 1 20 [] start)
run-Explains_example = run-Explains 1 20 [] start start-IsValid

-- `lui x1, 1` at the start of memory.
abbrev loaded : Cpu
loaded = record start { mmu = mmu_of 0 blank_uart (bytes (0xb7 ∷ 0x10 ∷ 0 ∷ 0 ∷ [])) }

loaded-bare : loaded.mmu.paging_mode ≡ bare
unfolding mmu_of
loaded-bare = refl

start-bare : start.mmu.paging_mode ≡ bare
unfolding cpu_of mmu_of
start-bare = refl

pub start-AtRam : AtRam start.pc 4
unfolding cpu_of
start-AtRam = record { kind = refl; from = omega arith; to = omega arith; fits = omega arith }

loaded-word : word_at loaded ≡ 0x000010b7
unfolding word_at read_bytes cpu_of mmu_of ram_of
loaded-word = refl

pub lui_first : IsEntry lui instructions
unfolding instructions
lui_first = inr (inr (inl refl))

lui-Matches : Matches (word_at loaded) lui
unfolding lui
lui-Matches = rw loaded-word refl

step-executes_example :
    step 1 loaded
    ≡ (catch_trap (lui.execute 1 (word_at loaded)) >> handle_interrupts) (fetched loaded)
step-executes_example =
    step-executes 0 loaded lui loaded-bare start-AtRam lui_first lui-Matches
      (omega (arith, loaded-word))

abbrev any_matches : ℕ → List Instruction → Bool
any_matches w [] = false
any_matches w (i ∷ is) = bit_and w i.mask_field == i.instruction_matcher || any_matches w is

none_matches : (w : ℕ) (is : List Instruction) → any_matches w is ≡ false → NoneMatches w is
none_matches w [] h = tt
none_matches w (i ∷ is) h = (
  (λ m. let hit = (==_iff (bit_and w i.mask_field) i.instruction_matcher).1 m in ground arith),
  none_matches w is (ground arith),
)

start-word : word_at start ≡ 0
unfolding word_at read_bytes cpu_of mmu_of ram_of
start-word = refl

zero_unmatched : any_matches 0 instructions ≡ false
unfolding instructions
zero_unmatched = refl

start-NoneMatches : NoneMatches (word_at start) instructions
start-NoneMatches = rw start-word (none_matches 0 instructions zero_unmatched)

step-illegal_example : step 1 start ≡ trapped illegal_instruction (fetched start)
step-illegal_example = step-illegal 0 start start-bare start-AtRam start-NoneMatches

lui_total : IsEntry lui total_entries
lui_total = inr (inr (inr (inr (inr (inr (inl refl))))))

step-Returns_example : Returns (step 1 loaded)
step-Returns_example =
    step-Returns 0 loaded lui loaded-bare start-AtRam lui_first lui_total lui-Matches
      (omega (arith, loaded-word))

-- `add x3, x1, x2`
add_sums :
    reg_reg (λ a b. add64 a b) 1 0x002081b3 start
    ≡ done tt (record start { regs = update start.regs 3 (add64 (start.regs 1) (start.regs 2)) })
unfolding parse_r
add_sums = reg_reg_lem (λ a b. add64 a b) 1 0x002081b3 start

-- `bne x5, x6, -4`
abbrev back : InstructionFields
back = record { opcode = 0x63; rd = 0; funct3 = 1; rs1 = 5; rs2 = 6; funct7 = 0; imm = 0x1ffc }

back-Fits : Fits back 13 2
back-Fits = record {
  opcode = omega arith;
  rd = omega arith;
  funct3 = omega arith;
  rs1 = omega arith;
  rs2 = omega arith;
  imm = omega arith;
  aligned = refl;
}

branch-encode_b_example :
    branch (λ a b. a == b) 1 (encode_b back) start
    ≡ done tt (record start {
      pc =
          if start.regs 5 == start.regs 6
          then target start.pc (signed_value 13 0x1ffc)
          else start.pc;
    })
branch-encode_b_example = branch-encode_b (λ a b. a == b) 1 back start back-Fits

-- `jal x1, 2048`
abbrev call : InstructionFields
call = record { opcode = 0x6f; rd = 1; funct3 = 0; rs1 = 0; rs2 = 0; funct7 = 0; imm = 2048 }

call-Fits : Fits call 21 2
call-Fits = record {
  opcode = omega arith;
  rd = omega arith;
  funct3 = omega arith;
  rs1 = omega arith;
  rs2 = omega arith;
  imm = omega arith;
  aligned = refl;
}

jal-encode_j_example :
    run_jal 1 (encode_j call) start
    ≡ done tt (record start {
      regs = update start.regs 1 start.pc;
      pc = target start.pc (signed_value 21 2048);
    })
jal-encode_j_example = jal-encode_j 1 call start call-Fits refl

-- `jalr x1, 4(x1)`
jalr_lem_example :
    run_jalr 1 0x004080e7 start
    ≡ done tt (record start {
      regs = update start.regs 1 start.pc;
      pc = bit_and (add64 start.pc (signed_value 12 4)) (not64 1);
    })
unfolding parse_i
jalr_lem_example = jalr_lem 1 0x004080e7 start

div_uint-rem_uint_example :
    (add64 (mul64 (div_uint 17 5) 5) (rem_uint 17 5) ≡ 17)
    × (((◌≡◌ {A = ℕ} 5 0) × (div_uint 17 5 ≡ 2 ^ 64 - 1)) ⊎ (rem_uint 17 5 < 5))
div_uint-rem_uint_example = div_uint-rem_uint 17 5 (omega arith)

-- -7 and 2.
div_int-rem_int_example :
    add64
      (mul64 (div_int int64 int64_min (2 ^ 64 - 7) 2) 2)
      (rem_int int64 int64_min (2 ^ 64 - 7) 2)
    ≡ 2 ^ 64 - 7
div_int-rem_int_example = div_int-rem_int (2 ^ 64 - 7) 2 (omega arith) (omega arith)

abbrev based : Cpu
based = record start { regs = λ i. 0x8000_0000 }

based-AtRam : AtRam (add64 (based.regs (parse_s 0x0062b423).rs1) (offset_s 0x0062b423)) 8
based-AtRam = record { kind = refl; from = omega arith; to = omega arith; fits = omega arith }

same_base : (parse_i 0x0082b383).rs1 ≡ (parse_s 0x0062b423).rs1
unfolding parse_i parse_s
same_base = refl

same_offset : offset_i 0x0082b383 ≡ offset_s 0x0062b423
same_offset = refl

-- `sd x6, 8(x5)` and `ld x7, 8(x5)`
store_reg-load_reg_example :
    (m : Mmu) × (store_reg 8 1 0x0062b423 based ≡ done tt (record based { mmu = m }))
    × (load_reg 8 (λ v. v) 1 0x0082b383 (record based { mmu = m })
        ≡ done tt (record based { mmu = m; regs = update based.regs 7 0x8000_0000 }))
unfolding parse_i
store_reg-load_reg_example =
    store_reg-load_reg 0 8 0x0062b423 0x0082b383 (λ v. v) based start-bare based-AtRam same_base
      same_offset
