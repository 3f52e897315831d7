-- ===== src/Traps/Return.antt =====
-- A trap followed by the return instruction of the mode that took it.
use rremu.Base.{
  ℕ, ◌*◌, ◌^◌, ◌≡◌, ◌⊎◌, inl, inr, refl, ◌∙◌, ap, true, false, ◌&&◌, if◌then◌else◌, ◌==◌, bit_and,
  bit_or, ◌>>>◌, not64, sub64, arith,
}
use rremu.Bits.{bit, bit_and_mask}
use rremu.Action.{gets, done}
use rremu.Trap.{TrapValue, code}
use rremu.Ram.{update}
use rremu.Mmu.{PrivilegeMode, user, supervisor, machine}
use rremu.Cpu.{
  Cpu, handle_trap, trap_to_machine, trap_to_supervisor, is_below_machine, is_delegated, copy_bit,
  get_csr, set_csr, mstatus, sstatus, mepc, sepc,
}
use rremu.Isa.System.{run_mret, run_sret}
use rremu.Traps.Status.{
  entered_m, returned_m, entered_m_bits, returned_m_bits, entered_s_user, entered_s_supervisor,
  returned_s, entered_s_user_bits, entered_s_supervisor_bits, returned_s_bits,
}

-- The state after MRET.
pub after_mret : Cpu → Cpu
after_mret c =
    let s = c.csrs mstatus in
    let mpp = bit_and (s >>> 11) 3 in
    let s1 = copy_bit 7 3 s in
    let s2 = bit_or s1 (2 ^ 7) in
    let s3 = bit_and s2 (not64 (3 * 2 ^ 11)) in
    record c {
      pc = c.csrs mepc;
      priv_mode = if mpp == 2 then machine else if mpp == 1 then supervisor else user;
      csrs = update (update (update c.csrs mstatus s1) mstatus s2) mstatus s3;
    }

run_mret_lem : (fuel w : ℕ) (c : Cpu) → run_mret fuel w c ≡ done tt (after_mret c)
unfolding run_mret get_csr set_csr gets after_mret
run_mret_lem fuel w c = refl

after_mret_status : (c : Cpu) → (after_mret c).csrs mstatus ≡ returned_m (c.csrs mstatus)
unfolding after_mret returned_m
after_mret_status c = refl

after_mret_user :
    (c : Cpu)
    → bit 11 (c.csrs mstatus) ≡ 0
    → bit 12 (c.csrs mstatus) ≡ 0
    → (after_mret c).priv_mode ≡ user
unfolding after_mret
after_mret_user c b11 b12 =
    let none_set : bit_and (c.csrs mstatus >>> 11) 3 ≡ 0 =
      omega (arith, bit_and_mask 2 (c.csrs mstatus >>> 11)) in
    rw none_set

-- The trap is one that machine mode takes.
abbrev pub ToMachine : TrapValue → Cpu → Type 0
ToMachine t c = (is_below_machine c.priv_mode && is_delegated c (code t)) ≡ false

handle_trap_machine :
    (t : TrapValue) (c : Cpu)
    → ToMachine t c
    → handle_trap t c ≡ trap_to_machine (sub64 c.pc 4) (code t) c
unfolding handle_trap
handle_trap_machine t c h = rw h

module _ (pc cause : ℕ) (c : Cpu) where
  machine_entry :
      ((trap_to_machine pc cause c).csrs mstatus ≡ entered_m (c.csrs mstatus))
      × ((trap_to_machine pc cause c).csrs mepc ≡ bit_and pc (not64 1))
      × ((trap_to_machine pc cause c).regs ≡ c.regs)
      × ((trap_to_machine pc cause c).mmu ≡ c.mmu)
  unfolding trap_to_machine entered_m
  machine_entry = (refl, refl, refl, refl)

  mret_after_entry :
      let c' = after_mret (trap_to_machine pc cause c) in
      (c'.pc ≡ bit_and pc (not64 1))
      × (c'.priv_mode ≡ user)
      × (bit 3 (c'.csrs mstatus) ≡ bit 3 (c.csrs mstatus))
      × (c'.regs ≡ c.regs)
      × (c'.mmu ≡ c.mmu)
  mret_after_entry =
      let c1 = trap_to_machine pc cause c in
      let s = c.csrs mstatus in
      let (status, epc, regs, mmu) = machine_entry in
      let (b7, _, b11, b12) = entered_m_bits s in
      (
        unfold after_mret in epc,
        after_mret_user c1 (rw status b11) (rw status b12),
        rw (after_mret_status c1, status) ((returned_m_bits (entered_m s)).0 ∙ b7),
        unfold after_mret in regs,
        unfold after_mret in mmu,
      )

-- A trap that machine mode takes, followed by MRET, goes back to the even address at 4 before the
-- `pc` of the trap, restores the interrupt enable bit and keeps registers and memory, but ends in
-- user mode, whatever mode the trap came from.
pub trap-mret :
    (fuel w : ℕ) (t : TrapValue) (c : Cpu)
    → ToMachine t c
    → (c' : Cpu) × (run_mret fuel w (handle_trap t c) ≡ done tt c')
      × (c'.pc ≡ bit_and (sub64 c.pc 4) (not64 1))
      × (c'.priv_mode ≡ user)
      × (bit 3 (c'.csrs mstatus) ≡ bit 3 (c.csrs mstatus))
      × (c'.regs ≡ c.regs)
      × (c'.mmu ≡ c.mmu)
trap-mret fuel w t c h =
    let c1 = trap_to_machine (sub64 c.pc 4) (code t) c in
    let (pc, mode, enable, regs, mmu) = mret_after_entry (sub64 c.pc 4) (code t) c in
    (
      after_mret c1,
      rw (handle_trap_machine t c h) (run_mret_lem fuel w c1),
      pc,
      mode,
      enable,
      regs,
      mmu,
    )

-- The state after SRET.
pub after_sret : Cpu → Cpu
after_sret c =
    let s = c.csrs sstatus in
    let s1 = copy_bit 5 1 s in
    let s2 = bit_or s1 (2 ^ 5) in
    let s3 = bit_and s2 (not64 (2 ^ 8)) in
    record c {
      pc = c.csrs sepc;
      priv_mode = if bit_and (s >>> 8) 1 == 0 then user else supervisor;
      csrs = update (update (update c.csrs sstatus s1) sstatus s2) sstatus s3;
    }

run_sret_lem : (fuel w : ℕ) (c : Cpu) → run_sret fuel w c ≡ done tt (after_sret c)
unfolding run_sret get_csr set_csr gets after_sret
run_sret_lem fuel w c = refl

after_sret_status : (c : Cpu) → (after_sret c).csrs sstatus ≡ returned_s (c.csrs sstatus)
unfolding after_sret returned_s
after_sret_status c = refl

after_sret_mode :
    (c : Cpu)
    → ((bit 8 (c.csrs sstatus) ≡ 0) × ((after_sret c).priv_mode ≡ user))
      ⊎ ((bit 8 (c.csrs sstatus) ≡ 1) × ((after_sret c).priv_mode ≡ supervisor))
unfolding after_sret
after_sret_mode c = ground (arith, bit_and_mask 1 (c.csrs sstatus >>> 8))

-- The trap comes from below machine mode and its bit in `medeleg` is set.
abbrev pub ToSupervisor : TrapValue → Cpu → Type 0
ToSupervisor t c = (is_below_machine c.priv_mode ≡ true) × (is_delegated c (code t) ≡ true)

handle_trap_supervisor :
    (t : TrapValue) (c : Cpu)
    → ToSupervisor t c
    → handle_trap t c ≡ trap_to_supervisor (sub64 c.pc 4) c.priv_mode (code t) c
unfolding handle_trap
handle_trap_supervisor t c (below, delegated) = rw (below, delegated)

-- The status after the entry, by the mode that the trap came from.
abbrev entered_s : PrivilegeMode → ℕ → ℕ
entered_s user s = entered_s_user s
entered_s _ s = entered_s_supervisor s

entered_s_bits :
    (mode : PrivilegeMode) (s : ℕ)
    → is_below_machine mode ≡ true
    → (bit 5 (entered_s mode s) ≡ bit 1 s)
      × (((mode ≡ user) × (bit 8 (entered_s mode s) ≡ 0))
          ⊎ ((mode ≡ supervisor) × (bit 8 (entered_s mode s) ≡ 1)))
entered_s_bits user s h = let (b5, _, b8) = entered_s_user_bits s in (b5, inl (refl, b8))
entered_s_bits supervisor s h =
    let (b5, _, b8) = entered_s_supervisor_bits s in (b5, inr (refl, b8))
entered_s_bits machine s h = cc

module _ (pc cause : ℕ) (c : Cpu) where
  supervisor_entry :
      (mode : PrivilegeMode)
      → let c1 = trap_to_supervisor pc mode cause c in
        (c1.csrs sstatus ≡ entered_s mode (c.csrs sstatus))
        × (c1.csrs sepc ≡ bit_and pc (not64 1))
        × (c1.regs ≡ c.regs)
        × (c1.mmu ≡ c.mmu)
  unfolding trap_to_supervisor entered_s_user entered_s_supervisor
  supervisor_entry user = (refl, refl, refl, refl)
  supervisor_entry supervisor = (refl, refl, refl, refl)
  supervisor_entry machine = (refl, refl, refl, refl)

  sret_mode :
      (mode : PrivilegeMode)
      → is_below_machine mode ≡ true
      → (after_sret (trap_to_supervisor pc mode cause c)).priv_mode ≡ mode
  sret_mode mode below =
      let c1 = trap_to_supervisor pc mode cause c in
      let status = (supervisor_entry mode).0 in
      ground (
        arith,
        after_sret_mode c1,
        ap (bit 8) status,
        (entered_s_bits mode (c.csrs sstatus) below).1,
      )

-- A delegated trap from user or supervisor mode, followed by SRET, goes back to the even address at
-- 4 before the `pc` of the trap, to the mode that the trap came from, restores the interrupt enable
-- bit, and keeps registers and memory.
pub trap-sret :
    (fuel w : ℕ) (t : TrapValue) (c : Cpu)
    → ToSupervisor t c
    → (c' : Cpu) × (run_sret fuel w (handle_trap t c) ≡ done tt c')
      × (c'.pc ≡ bit_and (sub64 c.pc 4) (not64 1))
      × (c'.priv_mode ≡ c.priv_mode)
      × (bit 1 (c'.csrs sstatus) ≡ bit 1 (c.csrs sstatus))
      × (c'.regs ≡ c.regs)
      × (c'.mmu ≡ c.mmu)
trap-sret fuel w t c h =
    let pc = sub64 c.pc 4 in
    let c1 = trap_to_supervisor pc c.priv_mode (code t) c in
    let s = c.csrs sstatus in
    let (status, epc, regs, mmu) = supervisor_entry pc (code t) c c.priv_mode in
    (
      after_sret c1,
      rw (handle_trap_supervisor t c h) (run_sret_lem fuel w c1),
      unfold after_sret in epc,
      sret_mode pc (code t) c c.priv_mode h.0,
      rw (after_sret_status c1, status)
          ((returned_s_bits (entered_s c.priv_mode s)).0 ∙ (entered_s_bits c.priv_mode s h.0).0),
      unfold after_sret in regs,
      unfold after_sret in mmu,
    )
