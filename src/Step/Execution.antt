-- ===== src/Step/Execution.antt =====
-- `CPU::Fetch` and `CPU::Step` in bare mode, from an address in RAM.
use rremu.Base.{ℕ, suc, ◌-◌, ◌%◌, ◌^◌, ◌<◌, ◌≡◌, ◌≢◌, none, add64, arith}
use rremu.Action.{done, trapped, gets, ◌>>=◌, ◌>>◌, on_member}
use rremu.Config.{kernbase}
use rremu.Trap.{illegal_instruction}
use rremu.Ram.{read_bytes, update}
use rremu.Mmu.{bare}
use rremu.Devices.Bare.{AtRam, load_at-ram}
use rremu.Cpu.{Cpu, handle_interrupts, load}
use rremu.Isa.{Instruction, instructions}
use rremu.Step.{fetch, step, catch_trap, clear_zero}
use rremu.Step.Decoding.{decode_unique, IsEntry, Matches, NoneMatches, decode_none, fence_word}

-- The instruction word at `pc`, and the state after `Step` has fetched it.
unfoldable pub word_at : Cpu → ℕ
word_at c = read_bytes c.mmu.ram.mem (c.pc - kernbase) 4 % 2 ^ 32

unfoldable pub fetched : Cpu → Cpu
fetched c = record c { regs = update c.regs 0 0; pc = add64 c.pc 4 }

fetch_bare :
    (fuel : ℕ) (c : Cpu)
    → c.mmu.paging_mode ≡ bare
    → AtRam c.pc 4
    → fetch (suc fuel) c ≡ done (word_at c) (record c { pc = add64 c.pc 4 })
unfolding fetch word_at gets load
fetch_bare fuel c b at = rw (◌>>=◌, on_member, load_at-ram fuel c.pc 4 none c.mmu b at)

fetch_cleared :
    (fuel : ℕ) (c : Cpu)
    → c.mmu.paging_mode ≡ bare
    → AtRam c.pc 4
    → fetch (suc fuel) (clear_zero c) ≡ done (word_at c) (fetched c)
unfolding word_at fetched
fetch_cleared fuel c b at = fetch_bare fuel (clear_zero c) b at

-- In bare mode, from a `pc` in RAM, a step fetches the word there and runs the entry that matches
-- it, wherever the entry stands in the table, on the state with register 0 cleared and `pc` 4 bytes
-- further; a trap that the entry throws is taken, and the interrupts follow. The word is not
-- FENCE's 0x0000000f.
pub step-executes :
    (fuel : ℕ) (c : Cpu) (i : Instruction)
    → c.mmu.paging_mode ≡ bare
    → AtRam c.pc 4
    → IsEntry i instructions
    → Matches (word_at c) i
    → word_at c ≢ fence_word
    → step (suc fuel) c
      ≡ (catch_trap (i.execute (suc fuel) (word_at c)) >> handle_interrupts) (fetched c)
unfolding step
step-executes fuel c i b at e m other =
    let small : word_at c < 2 ^ 32 = unfold word_at in omega arith in
    rw (◌>>=◌, fetch_cleared fuel c b at, decode_unique (word_at c) i (fetched c) small other e m)

-- In bare mode, from a `pc` in RAM, an instruction word that no entry matches makes the step throw
-- IllegalInstruction to its caller: no trap is taken, no interrupt is looked at, and `pc` has gone
-- 4 bytes further.
pub step-illegal :
    (fuel : ℕ) (c : Cpu)
    → c.mmu.paging_mode ≡ bare
    → AtRam c.pc 4
    → NoneMatches (word_at c) instructions
    → step (suc fuel) c ≡ trapped illegal_instruction (fetched c)
unfolding step
step-illegal fuel c b at none_match =
    rw (◌>>=◌, fetch_cleared fuel c b at, decode_none (word_at c) (fetched c) none_match)
