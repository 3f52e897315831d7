-- ===== src/Invariant/Entries/Csrs.antt =====
-- The entries of the table: the CSR instructions.
use rremu.Isa.Csrs.{csrrw, csrrs, csrrc, csrrwi, csrrsi, csrrci}
use rremu.Invariant.Operations.{bit_or-Closed}
use rremu.Invariant.Shapes.{Preserves, csr_imm-Preserves, csr_reg-Preserves}
use rremu.Invariant.Registers.{and-IsWord}

pub csrrw-Preserves : Preserves csrrw.execute
unfolding csrrw
csrrw-Preserves = csr_reg-Preserves (λ a b p q. q)

pub csrrs-Preserves : Preserves csrrs.execute
unfolding csrrs
csrrs-Preserves = csr_reg-Preserves bit_or-Closed

pub csrrc-Preserves : Preserves csrrc.execute
unfolding csrrc
csrrc-Preserves = csr_reg-Preserves (λ a b h _. and-IsWord a _ h)

pub csrrwi-Preserves : Preserves csrrwi.execute
unfolding csrrwi
csrrwi-Preserves = csr_imm-Preserves (λ a b p q. q)

pub csrrsi-Preserves : Preserves csrrsi.execute
unfolding csrrsi
csrrsi-Preserves = csr_imm-Preserves bit_or-Closed

pub csrrci-Preserves : Preserves csrrci.execute
unfolding csrrci
csrrci-Preserves = csr_imm-Preserves (λ a b h _. and-IsWord a _ h)
