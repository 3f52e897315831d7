-- ===== src/Invariant/Entries/Atomic.antt =====
-- The entries of the table: the AMO instructions.
use rremu.Base.{arith}
use rremu.Isa.Atomic.{
  amoswap_w, amoadd_w, amoxor_w, amoand_w, amoor_w, amomin_w, amomax_w, amominu_w, amomaxu_w,
  amoswap_d, amoadd_d, amoxor_d, amoand_d, amoor_d, amomin_d, amomax_d, amominu_d, amomaxu_d,
}
use rremu.Invariant.Bodies.{run_amoswap_w-Preserves}
use rremu.Invariant.Shapes.{Preserves, amo_direct-Preserves, amo_indirect-Preserves}
use rremu.Invariant.Operations.{bit_or-Closed, bit_xor-Closed}
use rremu.Invariant.Registers.{and-IsWord}

pub amoswap_w-Preserves : Preserves amoswap_w.execute
unfolding amoswap_w
amoswap_w-Preserves = run_amoswap_w-Preserves

pub amoadd_w-Preserves : Preserves amoadd_w.execute
unfolding amoadd_w
amoadd_w-Preserves = amo_indirect-Preserves (λ a b _ _. omega arith)

pub amoxor_w-Preserves : Preserves amoxor_w.execute
unfolding amoxor_w
amoxor_w-Preserves = amo_indirect-Preserves bit_xor-Closed

pub amoand_w-Preserves : Preserves amoand_w.execute
unfolding amoand_w
amoand_w-Preserves = amo_indirect-Preserves (λ a b h _. and-IsWord a _ h)

pub amoor_w-Preserves : Preserves amoor_w.execute
unfolding amoor_w
amoor_w-Preserves = amo_indirect-Preserves bit_or-Closed

pub amomin_w-Preserves : Preserves amomin_w.execute
unfolding amomin_w
amomin_w-Preserves = amo_indirect-Preserves (λ a b p q. omega arith)

pub amomax_w-Preserves : Preserves amomax_w.execute
unfolding amomax_w
amomax_w-Preserves = amo_indirect-Preserves (λ a b p q. omega arith)

pub amominu_w-Preserves : Preserves amominu_w.execute
unfolding amominu_w
amominu_w-Preserves = amo_indirect-Preserves (λ a b p q. omega arith)

pub amomaxu_w-Preserves : Preserves amomaxu_w.execute
unfolding amomaxu_w
amomaxu_w-Preserves = amo_indirect-Preserves (λ a b p q. omega arith)

pub amoswap_d-Preserves : Preserves amoswap_d.execute
unfolding amoswap_d
amoswap_d-Preserves = amo_direct-Preserves (λ a b p q. q)

pub amoadd_d-Preserves : Preserves amoadd_d.execute
unfolding amoadd_d
amoadd_d-Preserves = amo_direct-Preserves (λ a b _ _. omega arith)

pub amoxor_d-Preserves : Preserves amoxor_d.execute
unfolding amoxor_d
amoxor_d-Preserves = amo_direct-Preserves bit_xor-Closed

pub amoand_d-Preserves : Preserves amoand_d.execute
unfolding amoand_d
amoand_d-Preserves = amo_direct-Preserves (λ a b h _. and-IsWord a _ h)

pub amoor_d-Preserves : Preserves amoor_d.execute
unfolding amoor_d
amoor_d-Preserves = amo_direct-Preserves bit_or-Closed

pub amomin_d-Preserves : Preserves amomin_d.execute
unfolding amomin_d
amomin_d-Preserves = amo_indirect-Preserves (λ a b p q. omega arith)

pub amomax_d-Preserves : Preserves amomax_d.execute
unfolding amomax_d
amomax_d-Preserves = amo_indirect-Preserves (λ a b p q. omega arith)

pub amominu_d-Preserves : Preserves amominu_d.execute
unfolding amominu_d
amominu_d-Preserves = amo_indirect-Preserves (λ a b p q. omega arith)

pub amomaxu_d-Preserves : Preserves amomaxu_d.execute
unfolding amomaxu_d
amomaxu_d-Preserves = amo_indirect-Preserves (λ a b p q. omega arith)
