-- ===== src/Invariant/Shapes.antt =====
-- The bodies of `execute` keep the invariant where their operation keeps words.
use rremu.Base.{ℕ, Bool, ◌/◌, ◌^◌, none, u32, arith}
use rremu.Bits.{bit_and_mask}
use rremu.Isa.{
  Execute, InstructionFields, parse_i, reg_imm, shift_imm, reg_reg, shift_reg, branch, load_reg,
  store_reg, csr_reg, csr_imm, amo_indirect, amo_direct, load_reserved, store_conditional,
}
use rremu.Encoding.Immediates.{parse_i_imm}
use rremu.Invariant.Logic.{
  Keeps, Any, bind-Keeps, then-Keeps, if-Keeps, pure-Keeps, gets-Keeps, defined_if-Keeps,
  read-Keeps,
}
use rremu.Invariant.Memory.{IsWord}
use rremu.Invariant.Registers.{
  IsValid, get_reg-Keeps, set_reg-Keeps, get_csr-Keeps, set_csr-Keeps, set_pc-Keeps, cpu_load-Keeps,
  cpu_store-Keeps,
}

-- Whatever the word and the fuel are, running it keeps the invariant.
abbrev pub Preserves : Execute → Type 0
Preserves execute = (fuel instruction : ℕ) → Keeps IsValid Any (execute fuel instruction)

-- The operation gives a word, from two words or from one.
abbrev pub Closed : (ℕ → ℕ → ℕ) → Type 0
Closed op = (a b : ℕ) → IsWord a → IsWord b → IsWord (op a b)

abbrev pub ShiftClosed : (ℕ → ℕ → ℕ) → Type 0
ShiftClosed op = (a k : ℕ) → IsWord a → IsWord (op a k)

parse_i_imm-IsWord : (w : ℕ) → IsWord (parse_i w).imm
parse_i_imm-IsWord w = omega (arith, parse_i_imm w)

parse_i_rs1-IsWord : (w : ℕ) → IsWord (parse_i w).rs1
unfolding parse_i
parse_i_rs1-IsWord w = omega (arith, bit_and_mask 5 (w / 2 ^ 15))

module _ {op : ℕ → ℕ → ℕ} (closed : Closed op) where
  pub reg_imm-Preserves : Preserves (reg_imm op)
  unfolding reg_imm
  reg_imm-Preserves fuel w =
      bind-Keeps (get_reg-Keeps _)
        (λ a ha. set_reg-Keeps _ _ (closed a (parse_i w).imm ha (parse_i_imm-IsWord w)))

  pub reg_reg-Preserves : Preserves (reg_reg op)
  unfolding reg_reg
  reg_reg-Preserves fuel w =
      bind-Keeps (get_reg-Keeps _)
        (λ a ha. bind-Keeps (get_reg-Keeps _) (λ b hb. set_reg-Keeps _ _ (closed a b ha hb)))

  pub csr_reg-Preserves : Preserves (csr_reg op)
  unfolding csr_reg
  csr_reg-Preserves fuel w = bind-Keeps (get_csr-Keeps _) (λ old ho.
      bind-Keeps (get_reg-Keeps _) (λ a ha.
        then-Keeps (set_csr-Keeps _ _ (closed (u32 old) a (omega arith) ha))
          (set_reg-Keeps _ _ (omega arith))))

  pub csr_imm-Preserves : Preserves (csr_imm op)
  unfolding csr_imm
  csr_imm-Preserves fuel w = bind-Keeps (get_csr-Keeps _) (λ old ho.
      then-Keeps
        (set_csr-Keeps _ _ (closed (u32 old) (parse_i w).rs1 (omega arith) (parse_i_rs1-IsWord w)))
        (set_reg-Keeps _ _ (omega arith)))

  pub amo_indirect-Preserves : Preserves (amo_indirect op)
  unfolding amo_indirect
  amo_indirect-Preserves fuel w =
      bind-Keeps (get_reg-Keeps _)
        (λ a ha. bind-Keeps (get_reg-Keeps _) (λ b hb. set_reg-Keeps _ _ (closed a b ha hb)))

  pub amo_direct-Preserves : Preserves (amo_direct op)
  unfolding amo_direct
  amo_direct-Preserves fuel w = bind-Keeps (get_reg-Keeps _) (λ a ha.
      then-Keeps (set_reg-Keeps _ _ ha)
        (bind-Keeps (get_reg-Keeps _) (λ b hb. set_reg-Keeps _ _ (closed a b ha hb))))

module _ {op : ℕ → ℕ → ℕ} (closed : ShiftClosed op) where
  pub shift_imm-Preserves : (parse : ℕ → InstructionFields) → Preserves (shift_imm parse op)
  unfolding shift_imm
  shift_imm-Preserves parse fuel w =
      bind-Keeps (get_reg-Keeps _)
        (λ a ha. then-Keeps (defined_if-Keeps _) (set_reg-Keeps _ _ (closed a _ ha)))

  pub shift_reg-Preserves : Preserves (shift_reg op)
  unfolding shift_reg
  shift_reg-Preserves fuel w = bind-Keeps (get_reg-Keeps _) (λ a ha.
      bind-Keeps (get_reg-Keeps _)
        (λ b hb. then-Keeps (defined_if-Keeps _) (set_reg-Keeps _ _ (closed a _ ha))))

pub branch-Preserves : (test : ℕ → ℕ → Bool) → Preserves (branch test)
unfolding branch
branch-Preserves test fuel w = bind-Keeps (get_reg-Keeps _) (λ a ha.
    bind-Keeps (get_reg-Keeps _) (λ b hb.
      bind-Keeps (gets-Keeps _ (λ c h. h.pc))
        (λ pc hp. if-Keeps (test a b) (set_pc-Keeps (omega arith)) (pure-Keeps tt))))

pub load_reg-Preserves :
    (size : ℕ) (cast : ℕ → ℕ)
    → ((v : ℕ) → IsWord v → IsWord (cast v))
    → Preserves (load_reg size cast)
unfolding load_reg
load_reg-Preserves size cast closed fuel w = bind-Keeps (get_reg-Keeps _) (λ base hb.
    bind-Keeps (cpu_load-Keeps fuel _ size none tt)
      (λ loaded hl. bind-Keeps (read-Keeps loaded hl) (λ v hv. set_reg-Keeps _ _ (closed v hv))))

pub store_reg-Preserves : (size : ℕ) → Preserves (store_reg size)
unfolding store_reg
store_reg-Preserves size fuel w =
    bind-Keeps (get_reg-Keeps _)
      (λ base hb. bind-Keeps (get_reg-Keeps _) (λ v hv. cpu_store-Keeps fuel _ size v))

pub load_reserved-Preserves : (size : ℕ) → Preserves (load_reserved size)
unfolding load_reserved
load_reserved-Preserves size fuel w =
    bind-Keeps (cpu_load-Keeps fuel _ size none tt)
      (λ loaded hl. bind-Keeps (read-Keeps loaded hl) (λ v hv. set_reg-Keeps _ _ hv))

pub store_conditional-Preserves : (size : ℕ) → Preserves (store_conditional size)
unfolding store_conditional
store_conditional-Preserves size fuel w =
    bind-Keeps (get_reg-Keeps _)
      (λ v hv. then-Keeps (cpu_store-Keeps fuel _ size v) (set_reg-Keeps _ _ (omega arith)))
