-- ===== src/Invariant/Paging.antt =====
-- What becomes of a program that turns on paging.
use rremu.Base.{ℕ, ◌^◌, ◌≤◌, ◌≡◌, none}
use rremu.Action.{out_of_fuel, ◌>>=◌, on_member, gets}
use rremu.Mmu.{sv39}
use rremu.Cpu.{Cpu, satp, load}
use rremu.Step.{step, fetch, clear_zero}
use rremu.Devices.Paged.{paged_diverges}
use rremu.Invariant.Registers.{IsValid}

fetch_stuck : (fuel : ℕ) (c : Cpu) → c.mmu.paging_mode ≡ sv39 → fetch fuel c ≡ out_of_fuel
unfolding fetch load gets
fetch_stuck fuel c e = rw (◌>>=◌, on_member, (paged_diverges fuel c.pc 4 0 none c.mmu e).0)

-- From a state of the invariant whose `satp` has bit 63 set, no step ever returns, however much
-- fuel there is: the fetch goes through Sv39 translation, which does not end.
pub step-diverges :
    (fuel : ℕ) (c : Cpu) → IsValid c → 2 ^ 63 ≤ c.csrs satp → step fuel c ≡ out_of_fuel
unfolding step
step-diverges fuel c h on = rw (◌>>=◌, fetch_stuck fuel (clear_zero c) ((h.mmu.2.1 on).0))
