-- ===== src/Semantics/Registers.antt =====
-- The register numbers of an instruction word are in range, so that an access to one is defined.
use rremu.Base.{ℕ, ◌/◌, ◌^◌, ◌<◌, ◌≡◌, lt→ltb, arith}
use rremu.Action.{done, gets, ◌>>=◌}
use rremu.Bits.{bit_and_mask}
use rremu.Ram.{update}
use rremu.Cpu.{Cpu, get_reg, set_reg}
use rremu.Isa.{parse_r, parse_i, reg_reg}

pub get_reg_lem : (r : ℕ) (c : Cpu) → r < 32 → get_reg r c ≡ done (c.regs r) c
unfolding get_reg gets
get_reg_lem r c h = rw (lt→ltb r 32 h)

pub set_reg_lem :
    (r v : ℕ) (c : Cpu) → r < 32 → set_reg r v c ≡ done tt (record c { regs = update c.regs r v })
unfolding set_reg
set_reg_lem r v c h = rw (lt→ltb r 32 h)

pub parse_r-range :
    (w : ℕ) → ((parse_r w).rd < 32) × ((parse_r w).rs1 < 32) × ((parse_r w).rs2 < 32)
unfolding parse_r
parse_r-range w = (
  omega (arith, bit_and_mask 5 (w / 2 ^ 7)),
  omega (arith, bit_and_mask 5 (w / 2 ^ 15)),
  omega (arith, bit_and_mask 5 (w / 2 ^ 20)),
)

pub parse_i-range : (w : ℕ) → ((parse_i w).rd < 32) × ((parse_i w).rs1 < 32)
unfolding parse_i
parse_i-range w =
    (omega (arith, bit_and_mask 5 (w / 2 ^ 7)), omega (arith, bit_and_mask 5 (w / 2 ^ 15)))

-- An operation on two registers returns on every word and in every state: it sets the destination
-- to the result and changes nothing else.
pub reg_reg_lem :
    (op : ℕ → ℕ → ℕ) (fuel w : ℕ) (c : Cpu)
    → let f = parse_r w in
      reg_reg op fuel w c
      ≡ done tt (record c { regs = update c.regs f.rd (op (c.regs f.rs1) (c.regs f.rs2)) })
unfolding reg_reg
reg_reg_lem op fuel w c =
    let f = parse_r w in
    let (rd, rs1, rs2) = parse_r-range w in
    rw (
      ◌>>=◌,
      get_reg_lem f.rs1 c rs1,
      get_reg_lem f.rs2 c rs2,
      set_reg_lem f.rd (op (c.regs f.rs1) (c.regs f.rs2)) c rd,
    )
