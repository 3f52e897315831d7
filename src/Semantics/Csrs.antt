-- ===== src/Semantics/Csrs.antt =====
-- The instructions that read and write a CSR.
use rremu.Base.{
  ℕ, bit_and, ◌-◌, ◌/◌, ◌%◌, ◌^◌, ◌<◌, ◌≡◌, inl, inr, refl, Bool-cases, if◌then◌else◌, ltb, ◌==◌,
  u32, lt→ltb, arith,
}
use rremu.Bits.{bit_and_mask}
use rremu.Action.{done, gets, ◌>>=◌}
use rremu.Config.{n_csr}
use rremu.Ram.{update}
use rremu.Mmu.{Mmu, bare, sv39}
use rremu.Cpu.{Cpu, get_csr, set_csr, satp, update_paging_mode, write_csr}
use rremu.Isa.{parse_i, csr_reg}
use rremu.Encoding.Immediates.{parse_i_imm}
use rremu.Semantics.Registers.{get_reg_lem, set_reg_lem, parse_i-range}

-- What a write of `satp` makes of the MMU: bit 63 is the mode, the low 44 bits are the root.
abbrev pub with_satp : ℕ → Mmu → Mmu
with_satp v m = record m {
  paging_mode = if ltb v (2 ^ 63) then bare else sv39;
  root_page_table = v % 2 ^ 44;
}

-- The CSR `k` set to `v`.
abbrev pub with_csr : ℕ → ℕ → Cpu → Cpu
with_csr k v c = record c {
  csrs = update c.csrs k v;
  mmu = if k == satp then with_satp v c.mmu else c.mmu;
}

update_paging_mode-satp :
    (v : ℕ) (c : Cpu) → v < 2 ^ 64 → update_paging_mode v c ≡ record c { mmu = with_satp v c.mmu }
unfolding update_paging_mode
update_paging_mode-satp v c h =
    let root : bit_and (v / 2 ^ 0) (2 ^ 44 - 1) ≡ v % 2 ^ 44 =
      omega (arith, bit_and_mask 44 (v / 2 ^ 0)) in
    let mode : (bit_and (v / 2 ^ 63) (2 ^ 1 - 1) == 0) ≡ ltb v (2 ^ 63) =
      ground (arith, bit_and_mask 1 (v / 2 ^ 63), h) in
    rw (root, mode) refl

get_csr_lem : (k : ℕ) (c : Cpu) → k < n_csr → get_csr k c ≡ done (c.csrs k) c
unfolding get_csr gets
get_csr_lem k c h = rw (lt→ltb k n_csr h)

set_csr_lem :
    (k v : ℕ) (c : Cpu) → k < n_csr → v < 2 ^ 64 → set_csr k v c ≡ done tt (with_csr k v c)
unfolding set_csr
set_csr_lem k v c h p = elim (Bool-cases (k == satp)) [
  | inl e ↦ rw (lt→ltb k n_csr h, e, update_paging_mode-satp v (write_csr k v c) p) refl
  | inr e ↦ rw (lt→ltb k n_csr h, e) refl
]

-- CSRRW, CSRRS and CSRRC return on every word and in every state where the new value has 64 bits:
-- the CSR gets the operation's result, the destination gets the low 32 bits of the old value alone,
-- a write of `satp` sets the MMU's mode from bit 63 and its root page table from the low 44 bits,
-- and nothing else changes.
pub csr_reg_lem :
    (op : ℕ → ℕ → ℕ) (fuel w : ℕ) (c : Cpu)
    → op (u32 (c.csrs (parse_i w).imm)) (c.regs (parse_i w).rs1) < 2 ^ 64
    → let f = parse_i w in
      let v = op (u32 (c.csrs f.imm)) (c.regs f.rs1) in
      csr_reg op fuel w c
      ≡ done tt (record (with_csr f.imm v c) { regs = update c.regs f.rd (u32 (c.csrs f.imm)) })
unfolding csr_reg
csr_reg_lem op fuel w c h =
    let f = parse_i w in
    let v = op (u32 (c.csrs f.imm)) (c.regs f.rs1) in
    let (rd, rs1) = parse_i-range w in
    let small : f.imm < n_csr = omega (arith, parse_i_imm w) in
    rw (
      ◌>>=◌,
      get_csr_lem f.imm c small,
      get_reg_lem f.rs1 c rs1,
      set_csr_lem f.imm v c small h,
      set_reg_lem f.rd (u32 (c.csrs f.imm)) (with_csr f.imm v c) rd,
    )
