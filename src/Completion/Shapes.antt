-- ===== src/Completion/Shapes.antt =====
-- The bodies of `execute` that always come back: those that only use registers, CSRs and `pc`.
use rremu.Base.{ℕ, Bool, ◌/◌, ◌-◌, bit_and, bit_or, ◌^◌, ◌<◌, refl, arith}
use rremu.Bits.{bit_and_mask}
use rremu.Config.{n_csr}
use rremu.Cpu.{sepc, sstatus, mepc, mstatus}
use rremu.Isa.{
  Execute, parse_r, parse_i, parse_b, parse_u, parse_j, reg_imm, shift_imm, reg_reg, branch,
  csr_reg, csr_imm, amo_direct,
}
use rremu.Isa.System.{run_sret, run_mret, run_ecall}
use rremu.Isa.Jumps.{run_lui, run_auipc, run_jal, run_jalr}
use rremu.Semantics.Registers.{parse_i-range}
use rremu.Completion.Logic.{
  IsTotal, bind-IsTotal, then-IsTotal, if-IsTotal, pure-IsTotal, throw-IsTotal, gets-IsTotal,
  modify-IsTotal, get_reg-IsTotal, set_reg-IsTotal, get_csr-IsTotal, set_csr-IsTotal,
  update_csr-IsTotal, defined_if-IsTotal,
}

-- Whatever the word and the fuel are, running it comes back from every state.
abbrev pub Completes : Execute → Type 0
Completes execute = (fuel instruction : ℕ) → IsTotal (execute fuel instruction)

-- A register's number has 5 bits, a CSR's has 12.
register-lt : (k w : ℕ) → bit_and (w / 2 ^ k) (2 ^ 5 - 1) < 32
register-lt k w = omega (arith, bit_and_mask 5 (w / 2 ^ k))

parse_i_imm-lt : (w : ℕ) → (parse_i w).imm < n_csr
unfolding parse_i
parse_i_imm-lt w = omega (arith, bit_and_mask 12 (w / 2 ^ 20))

pub reg_imm-Completes : (op : ℕ → ℕ → ℕ) → Completes (reg_imm op)
unfolding reg_imm parse_i
reg_imm-Completes op fuel w =
    bind-IsTotal (get_reg-IsTotal _ (register-lt 15 w)) (λ a. set_reg-IsTotal _ _ (register-lt 7 w))

pub reg_reg-Completes : (op : ℕ → ℕ → ℕ) → Completes (reg_reg op)
unfolding reg_reg parse_r
reg_reg-Completes op fuel w = bind-IsTotal (get_reg-IsTotal _ (register-lt 15 w)) (λ a.
    bind-IsTotal (get_reg-IsTotal _ (register-lt 20 w))
      (λ b. set_reg-IsTotal _ _ (register-lt 7 w)))

-- The shifts that parse their word as one without an immediate shift by 0.
pub shift_imm-Completes : (op : ℕ → ℕ → ℕ) → Completes (shift_imm parse_r op)
unfolding shift_imm parse_r
shift_imm-Completes op fuel w =
    bind-IsTotal (get_reg-IsTotal _ (register-lt 15 w))
      (λ a. then-IsTotal (defined_if-IsTotal _ refl) (set_reg-IsTotal _ _ (register-lt 7 w)))

pub branch-Completes : (test : ℕ → ℕ → Bool) → Completes (branch test)
unfolding branch parse_b
branch-Completes test fuel w = bind-IsTotal (get_reg-IsTotal _ (register-lt 15 w)) (λ a.
    bind-IsTotal (get_reg-IsTotal _ (register-lt 20 w)) (λ b.
      bind-IsTotal (gets-IsTotal _) (λ pc. if-IsTotal (test a b) modify-IsTotal pure-IsTotal)))

pub csr_reg-Completes : (op : ℕ → ℕ → ℕ) → Completes (csr_reg op)
unfolding csr_reg
csr_reg-Completes op fuel w =
    let imm = parse_i_imm-lt w in
    bind-IsTotal (get_csr-IsTotal _ imm) (λ old.
      bind-IsTotal (get_reg-IsTotal _ ((parse_i-range w).1))
        (λ a. then-IsTotal (set_csr-IsTotal _ _ imm) (set_reg-IsTotal _ _ ((parse_i-range w).0))))

pub csr_imm-Completes : (op : ℕ → ℕ → ℕ) → Completes (csr_imm op)
unfolding csr_imm
csr_imm-Completes op fuel w =
    let imm = parse_i_imm-lt w in
    bind-IsTotal (get_csr-IsTotal _ imm)
      (λ old. then-IsTotal (set_csr-IsTotal _ _ imm) (set_reg-IsTotal _ _ ((parse_i-range w).0)))

pub amo_direct-Completes : (op : ℕ → ℕ → ℕ) → Completes (amo_direct op)
unfolding amo_direct parse_r
amo_direct-Completes op fuel w = bind-IsTotal (get_reg-IsTotal _ (register-lt 15 w)) (λ value.
    then-IsTotal (set_reg-IsTotal _ _ (register-lt 7 w)) (
      bind-IsTotal (get_reg-IsTotal _ (register-lt 20 w))
        (λ b. set_reg-IsTotal _ _ (register-lt 15 w))))

pub run_lui-Completes : Completes run_lui
unfolding run_lui parse_u
run_lui-Completes fuel w = set_reg-IsTotal _ _ (register-lt 7 w)

pub run_auipc-Completes : Completes run_auipc
unfolding run_auipc parse_u
run_auipc-Completes fuel w =
    bind-IsTotal (gets-IsTotal _) (λ pc. set_reg-IsTotal _ _ (register-lt 7 w))

pub run_jal-Completes : Completes run_jal
unfolding run_jal parse_j
run_jal-Completes fuel w =
    bind-IsTotal (gets-IsTotal _)
      (λ pc. then-IsTotal (set_reg-IsTotal _ _ (register-lt 7 w)) modify-IsTotal)

pub run_jalr-Completes : Completes run_jalr
unfolding run_jalr parse_i
run_jalr-Completes fuel w = bind-IsTotal (gets-IsTotal _) (λ pc.
    then-IsTotal (set_reg-IsTotal _ _ (register-lt 7 w))
      (bind-IsTotal (get_reg-IsTotal _ (register-lt 15 w)) (λ base. modify-IsTotal)))

pub run_ecall-Completes : Completes run_ecall
unfolding run_ecall
run_ecall-Completes fuel w = bind-IsTotal (gets-IsTotal _) (λ mode. throw-IsTotal)

pub run_sret-Completes : Completes run_sret
unfolding run_sret
run_sret-Completes fuel w = bind-IsTotal (get_csr-IsTotal sepc (omega arith)) (λ epc.
    then-IsTotal modify-IsTotal (
      bind-IsTotal (get_csr-IsTotal sstatus (omega arith)) (λ s. then-IsTotal modify-IsTotal (
        then-IsTotal (set_csr-IsTotal sstatus _ (omega arith)) (
          update_csr-IsTotal sstatus (λ s1. bit_or s1 (2 ^ 5)) (omega arith)
            (bind-IsTotal (get_csr-IsTotal sstatus (omega arith))
              (λ s2. set_csr-IsTotal sstatus _ (omega arith))))))))

pub run_mret-Completes : Completes run_mret
unfolding run_mret
run_mret-Completes fuel w = bind-IsTotal (get_csr-IsTotal mepc (omega arith)) (λ epc.
    then-IsTotal modify-IsTotal (
      bind-IsTotal (get_csr-IsTotal mstatus (omega arith)) (λ s. then-IsTotal modify-IsTotal (
        then-IsTotal (set_csr-IsTotal mstatus _ (omega arith)) (
          update_csr-IsTotal mstatus (λ s1. bit_or s1 (2 ^ 7)) (omega arith)
            (bind-IsTotal (get_csr-IsTotal mstatus (omega arith))
              (λ s2. set_csr-IsTotal mstatus _ (omega arith))))))))
