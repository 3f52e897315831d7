-- ===== src/Isa/Shapes.antt =====
-- `struct Instruction`, and the shapes that the bodies of `execute` share: each takes what differs
-- between the instructions of a group.
use Prim.Native.String.{String}
use rremu.Base.{ℕ, Bool, none, if◌then◌else◌, ltb, u32, add64, sub64, sext32}
use rremu.Action.{Action, ◌>>=◌, ◌>>◌, pure, gets, read, defined_if}
use rremu.Cpu.{Cpu, load, store, set_pc, get_reg, set_reg, get_csr, set_csr}
use rremu.Isa.Fields.{InstructionFields, parse_r, parse_i, parse_s, parse_b, sign_extend_13b}

-- A body of `execute`: the fuel of `load`, then the instruction word.
abbrev pub Execute : Type 0
Execute = ℕ → ℕ → Action Cpu (Unit {0})

pub record Instruction : Type 0 where
  pub name : String
  pub format : ℕ
  pub mask_field : ℕ
  pub instruction_matcher : ℕ
  pub execute : Execute

-- `cpu.SetReg(fields.rd, op(cpu.GetReg(fields.rs1), fields.imm))`
unfoldable pub reg_imm : (ℕ → ℕ → ℕ) → Execute
reg_imm op fuel instruction = do
  let fields = parse_i instruction
  a ← get_reg fields.rs1
  set_reg fields.rd (op a fields.imm)

-- The same for a shift of a `uint64_t`, which is undefined from 64 bits on. The parse differs.
unfoldable pub shift_imm : (ℕ → InstructionFields) → (ℕ → ℕ → ℕ) → Execute
shift_imm parse op fuel instruction = do
  let fields = parse instruction
  a ← get_reg fields.rs1
  defined_if (ltb fields.imm 64)
  set_reg fields.rd (op a fields.imm)

-- `cpu.SetReg(fields.rd, op(cpu.GetReg(fields.rs1), cpu.GetReg(fields.rs2)))`
unfoldable pub reg_reg : (ℕ → ℕ → ℕ) → Execute
reg_reg op fuel instruction = do
  let fields = parse_r instruction
  a ← get_reg fields.rs1
  b ← get_reg fields.rs2
  set_reg fields.rd (op a b)

unfoldable pub shift_reg : (ℕ → ℕ → ℕ) → Execute
shift_reg op fuel instruction = do
  let fields = parse_r instruction
  a ← get_reg fields.rs1
  b ← get_reg fields.rs2
  defined_if (ltb b 64)
  set_reg fields.rd (op a b)

-- `if(test) cpu.SetPc(cpu.GetPc() + sign_extend_13b(fields.imm) - 4)`
unfoldable pub branch : (ℕ → ℕ → Bool) → Execute
branch test fuel instruction = do
  let fields = parse_b instruction
  a ← get_reg fields.rs1
  b ← get_reg fields.rs2
  pc ← gets (λ c. c.pc)
  if test a b then set_pc (sub64 (add64 pc (sext32 (sign_extend_13b fields.imm))) 4) else pure tt

-- A load of `size` bytes from `GetReg(rs1) + imm`, whose result goes through a cast. `data` has no
-- value before the call.
unfoldable pub load_reg : ℕ → (ℕ → ℕ) → Execute
load_reg size cast fuel instruction = do
  let fields = parse_i instruction
  base ← get_reg fields.rs1
  loaded ← load fuel (add64 base fields.imm) size none
  value ← read loaded
  set_reg fields.rd (cast value)

unfoldable pub store_reg : ℕ → Execute
store_reg size fuel instruction = do
  let fields = parse_s instruction
  base ← get_reg fields.rs1
  value ← get_reg fields.rs2
  store fuel (add64 base fields.imm) size value

-- `uint32_t csr = GetCsr(imm); SetCsr(imm, op(csr, GetReg(rs1))); SetReg(rd, csr)`
unfoldable pub csr_reg : (ℕ → ℕ → ℕ) → Execute
csr_reg op fuel instruction = do
  let fields = parse_i instruction
  old ← get_csr fields.imm
  let csr = u32 old
  a ← get_reg fields.rs1
  set_csr fields.imm (op csr a)
  set_reg fields.rd csr

-- The same with the number `rs1` for the register.
unfoldable pub csr_imm : (ℕ → ℕ → ℕ) → Execute
csr_imm op fuel instruction = do
  let fields = parse_i instruction
  old ← get_csr fields.imm
  let csr = u32 old
  set_csr fields.imm (op csr fields.rs1)
  set_reg fields.rd csr

-- `data = GetReg(rs1); SetReg(GetReg(rs1), op(data, GetReg(rs2)))`: the register that is written has
-- the number that `rs1` holds, as an `int`; a negative one is out of range as its pattern is.
unfoldable pub amo_indirect : (ℕ → ℕ → ℕ) → Execute
amo_indirect op fuel instruction = do
  let fields = parse_r instruction
  value ← get_reg fields.rs1
  b ← get_reg fields.rs2
  set_reg (u32 value) (op value b)

-- `data = GetReg(rs1); SetReg(rd, data); SetReg(rs1, op(data, GetReg(rs2)))`
unfoldable pub amo_direct : (ℕ → ℕ → ℕ) → Execute
amo_direct op fuel instruction = do
  let fields = parse_r instruction
  value ← get_reg fields.rs1
  set_reg fields.rd value
  b ← get_reg fields.rs2
  set_reg fields.rs1 (op value b)

-- `cpu.Load(fields.rs1, size, data); cpu.SetReg(fields.rd, data)`
unfoldable pub load_reserved : ℕ → Execute
load_reserved size fuel instruction = do
  let fields = parse_r instruction
  loaded ← load fuel fields.rs1 size none
  value ← read loaded
  set_reg fields.rd value

-- `data = GetReg(rs2); cpu.Store(fields.rs1, size, data); cpu.SetReg(fields.rd, 0)`
unfoldable pub store_conditional : ℕ → Execute
store_conditional size fuel instruction = do
  let fields = parse_r instruction
  value ← get_reg fields.rs2
  store fuel fields.rs1 size value
  set_reg fields.rd 0
