-- ===== src/Semantics/Shifts.antt =====
-- SRAI, the arithmetic shift by an immediate, whose amount is never in range.
use rremu.Base.{
  List, [], ◌∷◌, ℕ, zero, suc, ◌+◌, ◌/◌, ◌^◌, ◌<◌, ◌≡◌, ◌≢◌, refl, inl, inr, ap, false, bit_and,
  ltb, arith,
}
use native.Mathlib.Nat.{div-one}
use rremu.Bits.{half_pow, bit_and_step, bit_and_mask}
use rremu.Action.{undefined, ◌>>=◌}
use rremu.Cpu.{Cpu}
use rremu.Isa.{parse_i, shift_imm}
use rremu.Isa.Immediate.{srai}
use rremu.Mmu.{bare}
use rremu.Devices.Bare.{AtRam}
use rremu.Isa.{Instruction, instructions}
use rremu.Step.{step, catch_trap}
use rremu.Step.Decoding.{IsEntry, Matches, fence_word}
use rremu.Step.Execution.{word_at, fetched, step-executes}
use rremu.Encoding.Immediates.{field, parse_i_imm}
use rremu.Semantics.Registers.{get_reg_lem, parse_i-range}

-- The upper bits of `a & b`.
bit_and-upper : (k a b : ℕ) → bit_and a b / 2 ^ k ≡ bit_and (a / 2 ^ k) (b / 2 ^ k)
bit_and-upper zero a b = rw (div-one (bit_and a b), div-one a, div-one b) refl
bit_and-upper (suc k) a b =
    let half : bit_and a b / 2 ≡ bit_and (a / 2) (b / 2) = omega (arith, bit_and_step a b) in
    rw (half_pow k (bit_and a b), half_pow k a, half_pow k b, half)
      (bit_and-upper k (a / 2) (b / 2))

-- The amount of SRAI: the mask leaves its six low bits open, and bit 30 of the word is its bit 10.
srai_imm : (w : ℕ) → w < 2 ^ 32 → Matches w srai → (parse_i w).imm ≡ 2 ^ 10 + field 20 6 w
unfolding srai
srai_imm w h m =
    omega (arith, parse_i_imm w, bit_and_mask 6 (w / 2 ^ 26), bit_and-upper 26 w 0xfc00707f, m)

srai-undefined :
    (fuel w : ℕ) (c : Cpu) → w < 2 ^ 32 → Matches w srai → srai.execute fuel w c ≡ undefined
unfolding srai shift_imm
srai-undefined fuel w c h m =
    let large : ltb (parse_i w).imm 64 ≡ false = ground (arith, srai_imm w h m) in
    rw (◌>>=◌, get_reg_lem (parse_i w).rs1 c ((parse_i-range w).1), large)

-- The table from its entry `n` on.
abbrev from_entry : ℕ → List Instruction → List Instruction
from_entry zero is = is
from_entry (suc n) [] = []
from_entry (suc n) (i ∷ is) = from_entry n is

from_entry-IsEntry :
    (n : ℕ) (i : Instruction) (is : List Instruction) → IsEntry i (from_entry n is) → IsEntry i is
from_entry-IsEntry zero i is e = e
from_entry-IsEntry (suc n) i [] e = e
from_entry-IsEntry (suc n) i (j ∷ is) e = inr (from_entry-IsEntry n i is e)

srai-IsEntry : IsEntry srai instructions
unfolding instructions
srai-IsEntry = from_entry-IsEntry 28 srai instructions (inl refl)

srai_other : (w : ℕ) → Matches w srai → w ≢ fence_word
unfolding srai
srai_other w m f = omega (arith, m, ap (λ (x : ℕ). bit_and x 0xfc00707f) f)

-- In bare mode, from a `pc` in RAM, with one unit of fuel or more, a step is undefined wherever the
-- word there is an SRAI, whatever its registers and its amount are: the shift is by 1024 or more.
pub srai-step_undefined :
    (fuel : ℕ) (c : Cpu)
    → c.mmu.paging_mode ≡ bare
    → AtRam c.pc 4
    → Matches (word_at c) srai
    → step (suc fuel) c ≡ undefined
srai-step_undefined fuel c b at m =
    let small : word_at c < 2 ^ 32 = unfold word_at in omega arith in
    rw (
      step-executes fuel c srai b at srai-IsEntry m (srai_other (word_at c) m),
      ◌>>=◌,
      catch_trap,
      srai-undefined (suc fuel) (word_at c) (fetched c) small m,
    )
