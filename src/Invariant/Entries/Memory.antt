-- ===== src/Invariant/Entries/Memory.antt =====
-- The entries of the table: loads, stores, LR and SC.
use rremu.Base.{sext8, sext16, sext32}
use rremu.Isa.Memory.{lb, lh, lw, lbu, lhu, lwu, ld, sb, sh, sw, sd, lr_w, sc_w, lr_d, sc_d}
use rremu.Invariant.Operations.{sext8-IsWord, sext16-IsWord, sext32-IsWord}
use rremu.Invariant.Shapes.{
  Preserves, load_reg-Preserves, load_reserved-Preserves, store_conditional-Preserves,
  store_reg-Preserves,
}

pub lb-Preserves : Preserves lb.execute
unfolding lb
lb-Preserves = load_reg-Preserves 1 sext8 (λ v _. sext8-IsWord v)

pub lh-Preserves : Preserves lh.execute
unfolding lh
lh-Preserves = load_reg-Preserves 2 sext16 (λ v _. sext16-IsWord v)

pub lw-Preserves : Preserves lw.execute
unfolding lw
lw-Preserves = load_reg-Preserves 4 sext32 (λ v _. sext32-IsWord v)

pub lbu-Preserves : Preserves lbu.execute
unfolding lbu
lbu-Preserves = load_reg-Preserves 1 _ (λ _ h. h)

pub lhu-Preserves : Preserves lhu.execute
unfolding lhu
lhu-Preserves = load_reg-Preserves 2 _ (λ _ h. h)

pub lwu-Preserves : Preserves lwu.execute
unfolding lwu
lwu-Preserves = load_reg-Preserves 4 _ (λ _ h. h)

pub ld-Preserves : Preserves ld.execute
unfolding ld
ld-Preserves = load_reg-Preserves 8 _ (λ _ h. h)

pub sb-Preserves : Preserves sb.execute
unfolding sb
sb-Preserves = store_reg-Preserves 1

pub sh-Preserves : Preserves sh.execute
unfolding sh
sh-Preserves = store_reg-Preserves 2

pub sw-Preserves : Preserves sw.execute
unfolding sw
sw-Preserves = store_reg-Preserves 4

pub sd-Preserves : Preserves sd.execute
unfolding sd
sd-Preserves = store_reg-Preserves 8

pub lr_w-Preserves : Preserves lr_w.execute
unfolding lr_w
lr_w-Preserves = load_reserved-Preserves 4

pub sc_w-Preserves : Preserves sc_w.execute
unfolding sc_w
sc_w-Preserves = store_conditional-Preserves 4

pub lr_d-Preserves : Preserves lr_d.execute
unfolding lr_d
lr_d-Preserves = load_reserved-Preserves 8

pub sc_d-Preserves : Preserves sc_d.execute
unfolding sc_d
sc_d-Preserves = store_conditional-Preserves 8
