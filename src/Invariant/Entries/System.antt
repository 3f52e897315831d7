-- ===== src/Invariant/Entries/System.antt =====
-- The entries of the table: the system instructions and the fences.
use rremu.Isa.System.{sret, mret, ecall, ebreak, fence, fence_i}
use rremu.Invariant.Bodies.{run_ecall-Preserves, run_mret-Preserves, run_sret-Preserves}
use rremu.Invariant.Logic.{pure-Keeps}
use rremu.Invariant.Shapes.{Preserves}

pub sret-Preserves : Preserves sret.execute
unfolding sret
sret-Preserves = run_sret-Preserves

pub mret-Preserves : Preserves mret.execute
unfolding mret
mret-Preserves = run_mret-Preserves

pub ecall-Preserves : Preserves ecall.execute
unfolding ecall
ecall-Preserves = run_ecall-Preserves

pub ebreak-Preserves : Preserves ebreak.execute
unfolding ebreak
ebreak-Preserves = (λ _ _. pure-Keeps tt)

pub fence-Preserves : Preserves fence.execute
unfolding fence
fence-Preserves = (λ _ _. pure-Keeps tt)

pub fence_i-Preserves : Preserves fence_i.execute
unfolding fence_i
fence_i-Preserves = (λ _ _. pure-Keeps tt)
