-- ===== src/Invariant/Entries/Jumps.antt =====
-- The entries of the table: upper immediates, jumps and branches.
use rremu.Isa.Jumps.{lui, auipc, jal, jalr, beq, bne, blt, bge, bltu, bgeu}
use rremu.Invariant.Bodies.{
  run_auipc-Preserves, run_jal-Preserves, run_jalr-Preserves, run_lui-Preserves,
}
use rremu.Invariant.Shapes.{Preserves, branch-Preserves}

pub lui-Preserves : Preserves lui.execute
unfolding lui
lui-Preserves = run_lui-Preserves

pub auipc-Preserves : Preserves auipc.execute
unfolding auipc
auipc-Preserves = run_auipc-Preserves

pub jal-Preserves : Preserves jal.execute
unfolding jal
jal-Preserves = run_jal-Preserves

pub jalr-Preserves : Preserves jalr.execute
unfolding jalr
jalr-Preserves = run_jalr-Preserves

pub beq-Preserves : Preserves beq.execute
unfolding beq
beq-Preserves = branch-Preserves _

pub bne-Preserves : Preserves bne.execute
unfolding bne
bne-Preserves = branch-Preserves _

pub blt-Preserves : Preserves blt.execute
unfolding blt
blt-Preserves = branch-Preserves _

pub bge-Preserves : Preserves bge.execute
unfolding bge
bge-Preserves = branch-Preserves _

pub bltu-Preserves : Preserves bltu.execute
unfolding bltu
bltu-Preserves = branch-Preserves _

pub bgeu-Preserves : Preserves bgeu.execute
unfolding bgeu
bgeu-Preserves = branch-Preserves _
