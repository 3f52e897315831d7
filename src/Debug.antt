-- ===== src/Debug.antt =====
-- source/cpu.cpp: `RegisterNames` and the Dump functions, as what they pass to `std::cout`, and
-- `RunInstruction`, which calls them.
pub mod Names
pub mod Output
use Prim.Native.String.{String}
use rremu.Base.{
  ℕ, zero, suc, ◌+◌, add64, Option, none, some, List, [], ◌∷◌, ◌++◌, if◌then◌else◌, ◌==◌,
}
use rremu.Action.{Action, ◌>>=◌, ◌>>◌, pure, gets}
use rremu.Step.{decode}
use rremu.Config.{n_reg, n_csr}
use rremu.Cpu.{Cpu, set_pc}
use rremu.Isa.{Instruction, InstructionFields}

-- An operand of `<<`.
pub data Piece : Type 0 where
  string : String → Piece
  character : ℕ → Piece
  number : ℕ → Piece
  hex : Piece
  endl : Piece

abbrev pub register_names : List (ℕ × String)
register_names =
    (0, "zero")
    ∷ (1, "ra")
    ∷ (2, "sp")
    ∷ (3, "gp")
    ∷ (4, "tp")
    ∷ (5, "t0")
    ∷ (6, "t1")
    ∷ (7, "t2")
    ∷ (8, "s0")
    ∷ (9, "s1")
    ∷ (10, "a0")
    ∷ (11, "a1")
    ∷ (12, "a2")
    ∷ (13, "a3")
    ∷ (14, "a4")
    ∷ (15, "a5")
    ∷ (16, "a6")
    ∷ (17, "a7")
    ∷ (18, "s2")
    ∷ (19, "s3")
    ∷ (20, "s4")
    ∷ (21, "s5")
    ∷ (22, "s6")
    ∷ (23, "s7")
    ∷ (24, "s8")
    ∷ (25, "s9")
    ∷ (26, "s10")
    ∷ (27, "s11")
    ∷ (28, "t3")
    ∷ (29, "t4")
    ∷ (30, "t5")
    ∷ (31, "t6")
    ∷ []

-- `at` of a `std::map`, which throws `std::out_of_range` on a key that it has not.
unfoldable pub at_key : List (ℕ × String) → ℕ → Option String
at_key [] key = none
at_key (e ∷ m) key = if e.0 == key then some e.1 else at_key m key

-- A line with a number in hexadecimal.
abbrev pub hex_line : String → ℕ → List Piece
hex_line label value = string label ∷ hex ∷ number value ∷ endl ∷ []

-- The loop of `DumpRegs`, `n` rounds from `i` on; `none` if an exception leaves it.
unfoldable pub dump_regs_from : (ℕ → ℕ) → ℕ → ℕ → Option (List Piece)
dump_regs_from regs i zero = some []
dump_regs_from regs i (suc n) =
    let rest = dump_regs_from regs (i + 1) n in
    elim (at_key register_names i) [
      | none ↦ none
      | some name ↦ elim rest [
        | none ↦ none
        | some pieces ↦ some (string name ∷ string ": " ∷ hex ∷ number (regs i) ∷ endl ∷ pieces)
      ]
    ]

-- `DumpRegs`
unfoldable pub dump_regs : Cpu → Option (List Piece)
dump_regs c = elim (dump_regs_from c.regs 0 n_reg) [
  | none ↦ none
  | some pieces ↦ some (string "--- REGISTERS ---" ∷ endl ∷ pieces)
]

-- The loop of `DumpCsrs`, `n` rounds from `i` on.
unfoldable pub dump_csrs_from : (ℕ → ℕ) → ℕ → ℕ → List Piece
dump_csrs_from csrs i zero = []
dump_csrs_from csrs i (suc n) =
    string "csr"
    ∷ number i
    ∷ string ": "
    ∷ hex
    ∷ number (csrs i)
    ∷ endl
    ∷ dump_csrs_from csrs (i + 1) n

-- `DumpCsrs`
unfoldable pub dump_csrs : Cpu → List Piece
unfolding dump_csrs_from
dump_csrs c = dump_csrs_from c.csrs 0 n_csr

-- `DumpInstruction`
unfoldable pub dump_instruction : Instruction → Cpu → List Piece
dump_instruction inst c =
    (string "--- INSTRUCTION ---" ∷ endl ∷ string "name: " ∷ string inst.name ∷ endl ∷ [])
    ++ (string "format: " ∷ character inst.format ∷ endl ∷ [])
    ++ hex_line "mask_field: " inst.mask_field
    ++ hex_line "instruction_matcher: " inst.instruction_matcher
    ++ hex_line "pc: " c.pc

-- `DumpInstructionFields`
unfoldable pub dump_instruction_fields : InstructionFields → List Piece
dump_instruction_fields inst =
    (string "--- INSTRUCTION FIELDS ---" ∷ endl ∷ [])
    ++ hex_line "opcode: " inst.opcode
    ++ hex_line "rd: " inst.rd
    ++ hex_line "funct3: " inst.funct3
    ++ hex_line "rs1: " inst.rs1
    ++ hex_line "rs2: " inst.rs2
    ++ hex_line "funct7: " inst.funct7
    ++ hex_line "imm: " inst.imm

-- `RunInstruction`, with what it prints where it returns; `none` if `DumpRegs` throws.
unfoldable pub run_instruction : ℕ → ℕ → Action Cpu (Option (List Piece))
unfolding dump_instruction dump_regs dump_regs_from at_key
run_instruction fuel instruction = do
  inst ← decode instruction
  shown ← gets (dump_instruction inst)
  inst.execute fuel instruction
  regs ← gets dump_regs
  elim regs [
    | none ↦ pure none
    | some pieces ↦ do pc ← gets (λ c. c.pc); set_pc (add64 pc 4); pure (some (shown ++ pieces))
  ]
