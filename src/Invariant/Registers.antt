-- ===== src/Invariant/Registers.antt =====
-- The processor: its accessors, traps and interrupts keep the invariant.
use rremu.Base.{
  ℕ, ◌/◌, ◌^◌, ◌==◌, ◌≡◌, if◌then◌else◌, false, inl, inr, Bool-cases, ==_iff, Option, bit_and,
  not64, arith,
}
use rremu.Bits.{bit_and_mask, bit_and-le_left, bit_or-lt}
use rremu.Action.{◌>>◌, modify, pure}
use rremu.Ram.{update}
use rremu.Mmu.{PrivilegeMode}
use rremu.Cpu.{
  Cpu, load, store, set_pc, set_mode, get_reg, set_reg, get_csr, set_csr, update_paging_mode,
  write_csr, satp, copy_bit,
}
use rremu.Invariant.Logic.{
  Keeps, Any, IfSome, then-Keeps, gets-Keeps, modify-Keeps, defined_if-Keeps, on_member-Keeps,
}
use rremu.Invariant.Memory.{IsWord, MmuIsValid}
use rremu.Invariant.Walk.{load-Keeps, store-Keeps}

-- Registers, CSRs and `pc` hold words, memory and the UART's registers hold bytes, and the MMU does
-- what `satp` asks for.
pub record IsValid (c : Cpu) : Type 0 where
  pub pc : IsWord c.pc
  pub regs : (i : ℕ) → IsWord (c.regs i)
  pub csrs : (i : ℕ) → IsWord (c.csrs i)
  pub mmu : MmuIsValid (c.csrs satp) c.mmu

pub update-words :
    (f : ℕ → ℕ) (k v : ℕ) → ((i : ℕ) → IsWord (f i)) → IsWord v → (i : ℕ) → IsWord (update f k v i)
update-words f k v h p i = ground (arith, h i)

-- A write of a CSR that is not `satp`.
pub write_csr-IsValid :
    (k v : ℕ) {c : Cpu} → (k == satp) ≡ false → IsWord v → IsValid c → IsValid (write_csr k v c)
write_csr-IsValid k v {c} other hv h = record {
  pc = h.pc;
  regs = h.regs;
  csrs = update-words c.csrs k v h.csrs hv;
  mmu = rw other h.mmu;
}

pub set_pc-Keeps : {v : ℕ} → IsWord v → Keeps IsValid Any (set_pc v)
set_pc-Keeps hv =
    modify-Keeps (λ c h. record { pc = hv; regs = h.regs; csrs = h.csrs; mmu = h.mmu })

pub set_mode-Keeps : {m : PrivilegeMode} → Keeps IsValid Any (set_mode m)
set_mode-Keeps =
    modify-Keeps (λ c h. record { pc = h.pc; regs = h.regs; csrs = h.csrs; mmu = h.mmu })

pub get_reg-Keeps : (r : ℕ) → Keeps IsValid IsWord (get_reg r)
unfolding get_reg
get_reg-Keeps r = then-Keeps (defined_if-Keeps _) (gets-Keeps _ (λ c h. h.regs r))

pub set_reg-Keeps : (r v : ℕ) → IsWord v → Keeps IsValid Any (set_reg r v)
unfolding set_reg
set_reg-Keeps r v hv = then-Keeps (defined_if-Keeps _) (
    modify-Keeps (λ c h. record {
      pc = h.pc;
      regs = update-words c.regs r v h.regs hv;
      csrs = h.csrs;
      mmu = h.mmu;
    }))

pub get_csr-Keeps : (k : ℕ) → Keeps IsValid IsWord (get_csr k)
unfolding get_csr
get_csr-Keeps k = then-Keeps (defined_if-Keeps _) (gets-Keeps _ (λ c h. h.csrs k))

-- A write of `satp`, after which the MMU follows it.
pub write_satp-IsValid :
    (v : ℕ) {c : Cpu} → IsWord v → IsValid c → IsValid (update_paging_mode v (write_csr satp v c))
unfolding update_paging_mode
write_satp-IsValid v {c} hv h = record {
  pc = h.pc;
  regs = h.regs;
  csrs = update-words c.csrs satp v h.csrs hv;
  mmu = (
    h.mmu.0,
    h.mmu.1,
    (
      λ p. ground (arith, bit_and_mask 1 (v / 2 ^ 63), p),
      λ p. (
        ground (arith, bit_and_mask 1 (v / 2 ^ 63), hv, p),
        omega (arith, bit_and_mask 44 (v / 2 ^ 0)),
      ),
    ),
  );
}

written-Keeps :
    (k v : ℕ)
    → IsWord v
    → Keeps IsValid Any
        (modify (write_csr k v) >> (if k == satp then modify (update_paging_mode v) else pure tt))
written-Keeps k v hv = record {
  apply = λ c h. elim (Bool-cases (k == satp)) [
    | inl e ↦ rw ((==_iff k satp).0 e) (write_satp-IsValid v hv h, tt)
    | inr e ↦ rw e (write_csr-IsValid k v e hv h, tt)
  ];
}

pub set_csr-Keeps : (k v : ℕ) → IsWord v → Keeps IsValid Any (set_csr k v)
unfolding set_csr
set_csr-Keeps k v hv = then-Keeps (defined_if-Keeps _) (written-Keeps k v hv)

pub cpu_load-Keeps :
    (fuel a n : ℕ) (before : Option ℕ)
    → IfSome IsWord before
    → Keeps IsValid (IfSome IsWord) (load fuel a n before)
unfolding load
cpu_load-Keeps fuel a n before hb =
    on_member-Keeps {J = λ c. MmuIsValid (c.csrs satp)} _ _ (λ c h. h.mmu)
      (λ c m h k. record { pc = h.pc; regs = h.regs; csrs = h.csrs; mmu = k })
      (λ c. load-Keeps fuel a n before hb)

pub cpu_store-Keeps : (fuel a n v : ℕ) → Keeps IsValid Any (store fuel a n v)
unfolding store
cpu_store-Keeps fuel a n v =
    on_member-Keeps {J = λ c. MmuIsValid (c.csrs satp)} _ _ (λ c h. h.mmu)
      (λ c m h k. record { pc = h.pc; regs = h.regs; csrs = h.csrs; mmu = k })
      (λ c. store-Keeps fuel a n v)

-- `&` keeps words, and so does setting a bit.
pub and-IsWord : (a b : ℕ) → IsWord a → IsWord (bit_and a b)
and-IsWord a b h = omega (arith, bit_and-le_left a b)

pub copy_bit-IsWord : (from to s : ℕ) → IsWord (2 ^ to) → IsWord s → IsWord (copy_bit from to s)
copy_bit-IsWord from to s ht h =
    ground (arith, and-IsWord s (not64 (2 ^ to)) h, bit_or-lt 64 s (2 ^ to) h ht)
