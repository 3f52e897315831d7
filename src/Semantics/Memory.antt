-- ===== src/Semantics/Memory.antt =====
-- Loads and stores of registers, in bare mode.
use rremu.Base.{ℕ, suc, ◌+◌, ◌*◌, ◌/◌, ◌%◌, ◌^◌, ◌<◌, ◌≡◌, none, add64, arith}
use rremu.Action.{done, ◌>>=◌, on_member}
use rremu.Bits.{bit_and_mask}
use rremu.Ram.{update}
use rremu.Mmu.{Mmu, bare}
use rremu.Cpu.{Cpu, load, store}
use rremu.Isa.{parse_i, parse_s, load_reg, store_reg}
use rremu.Encoding.Immediates.{field, parse_i_imm, parse_s_imm}
use rremu.Devices.Bare.{AtRam, load-store_bare}
use rremu.Semantics.Registers.{get_reg_lem, set_reg_lem, parse_i-range}

-- The 12-bit offsets of the two formats, not extended by their sign.
abbrev pub offset_i : ℕ → ℕ
offset_i w = field 20 12 w

abbrev pub offset_s : ℕ → ℕ
offset_s w = field 25 7 w * 2 ^ 5 + field 7 5 w

parse_s-range : (w : ℕ) → ((parse_s w).rs1 < 32) × ((parse_s w).rs2 < 32)
unfolding parse_s
parse_s-range w =
    (omega (arith, bit_and_mask 5 (w / 2 ^ 15)), omega (arith, bit_and_mask 5 (w / 2 ^ 20)))

-- In bare mode, where the base register plus the 12-bit offset, not extended by its sign, is the
-- address of a RAM access of the given size, a store instruction returns with memory alone changed,
-- and a load instruction of the same size, base and offset then returns: it sets its destination to
-- the cast of the low `size` bytes of the stored register and changes nothing else.
pub store_reg-load_reg :
    (fuel size ws wl : ℕ) (cast : ℕ → ℕ) (c : Cpu)
    → c.mmu.paging_mode ≡ bare
    → AtRam (add64 (c.regs (parse_s ws).rs1) (offset_s ws)) size
    → (parse_i wl).rs1 ≡ (parse_s ws).rs1
    → offset_i wl ≡ offset_s ws
    → (m : Mmu) × (store_reg size (suc fuel) ws c ≡ done tt (record c { mmu = m }))
      × (load_reg size cast (suc fuel) wl (record c { mmu = m })
          ≡ done tt (record c {
            mmu = m;
            regs = update c.regs (parse_i wl).rd (cast (c.regs (parse_s ws).rs2 % 256 ^ size));
          }))
unfolding store_reg load_reg load store
store_reg-load_reg fuel size ws wl cast c b at base offset =
    let f = parse_s ws in
    let g = parse_i wl in
    let (rs1, rs2) = parse_s-range ws in
    let (rd, from) = parse_i-range wl in
    let v = c.regs f.rs2 in
    let (m, stored, loaded) =
      load-store_bare fuel (add64 (c.regs f.rs1) (offset_s ws)) size v none c.mmu b at in
    let c' : Cpu = record c { mmu = m } in
    (
      m,
      rw (
        ◌>>=◌,
        get_reg_lem f.rs1 c rs1,
        get_reg_lem f.rs2 c rs2,
        parse_s_imm ws,
        on_member,
        stored,
      ),
      rw (
        ◌>>=◌,
        get_reg_lem g.rs1 c' from,
        parse_i_imm wl,
        base,
        offset,
        on_member,
        loaded,
        set_reg_lem g.rd (cast (v % 256 ^ size)) c' rd,
      ),
    )
