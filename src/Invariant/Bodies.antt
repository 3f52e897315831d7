-- ===== src/Invariant/Bodies.antt =====
-- The bodies of `execute` that have no shape in common keep the invariant.
use rremu.Base.{◌*◌, ◌^◌, not64, sext32, add64, arith}
use rremu.Bits.{bit_or-lt}
use rremu.Cpu.{mstatus, sstatus, mepc, sepc}
use rremu.Isa.{parse_i, sign_extend_12b}
use rremu.Isa.System.{run_sret, run_mret, run_ecall, call_trap}
use rremu.Isa.Jumps.{run_lui, run_auipc, run_jal, run_jalr}
use rremu.Isa.Atomic.{run_amoswap_w}
use rremu.Invariant.Logic.{Any, bind-Keeps, then-Keeps, gets-Keeps, throw-Keeps}
use rremu.Invariant.Registers.{
  get_reg-Keeps, set_reg-Keeps, get_csr-Keeps, set_csr-Keeps, set_pc-Keeps, set_mode-Keeps,
  and-IsWord, copy_bit-IsWord,
}
use rremu.Invariant.Operations.{sext32-IsWord}
use rremu.Invariant.Shapes.{Preserves}

pub run_lui-Preserves : Preserves run_lui
unfolding run_lui
run_lui-Preserves fuel w = set_reg-Keeps _ _ (sext32-IsWord _)

pub run_auipc-Preserves : Preserves run_auipc
unfolding run_auipc
run_auipc-Preserves fuel w =
    bind-Keeps (gets-Keeps _ (λ c h. h.pc)) (λ pc hp. set_reg-Keeps _ _ (omega arith))

pub run_jal-Preserves : Preserves run_jal
unfolding run_jal
run_jal-Preserves fuel w =
    bind-Keeps (gets-Keeps _ (λ c h. h.pc))
      (λ pc hp. then-Keeps (set_reg-Keeps _ _ hp) (set_pc-Keeps (omega arith)))

pub run_jalr-Preserves : Preserves run_jalr
unfolding run_jalr
run_jalr-Preserves fuel w = bind-Keeps (gets-Keeps _ (λ c h. h.pc)) (λ pc hp.
    then-Keeps (set_reg-Keeps _ _ hp) (
      bind-Keeps (get_reg-Keeps _) (λ base hb. set_pc-Keeps (
        and-IsWord (add64 base (sext32 (sign_extend_12b (parse_i w).imm))) (not64 1)
          (omega arith)))))

pub run_ecall-Preserves : Preserves run_ecall
unfolding run_ecall
run_ecall-Preserves fuel w =
    bind-Keeps (gets-Keeps {P = Any} _ (λ c h. tt)) (λ mode _. throw-Keeps {t = call_trap mode})

pub run_amoswap_w-Preserves : Preserves run_amoswap_w
unfolding run_amoswap_w
run_amoswap_w-Preserves fuel w = bind-Keeps (get_reg-Keeps _) (λ value hv.
    bind-Keeps (get_reg-Keeps _) (λ b hb. then-Keeps (set_reg-Keeps _ _ hb) (set_reg-Keeps _ _ hv)))

pub run_sret-Preserves : Preserves run_sret
unfolding run_sret
run_sret-Preserves fuel w = bind-Keeps (get_csr-Keeps sepc) (λ epc he.
    then-Keeps (set_pc-Keeps he) (
      bind-Keeps (get_csr-Keeps sstatus) (λ s hs. then-Keeps set_mode-Keeps (
        then-Keeps (set_csr-Keeps sstatus _ (copy_bit-IsWord 5 1 s (omega arith) hs)) (
          bind-Keeps (get_csr-Keeps sstatus) (λ s1 h1.
            then-Keeps (set_csr-Keeps sstatus _ (bit_or-lt 64 s1 (2 ^ 5) h1 (omega arith))) (
              bind-Keeps (get_csr-Keeps sstatus)
                (λ s2 h2. set_csr-Keeps sstatus _ (and-IsWord s2 (not64 (2 ^ 8)) h2)))))))))

pub run_mret-Preserves : Preserves run_mret
unfolding run_mret
run_mret-Preserves fuel w = bind-Keeps (get_csr-Keeps mepc) (λ epc he.
    then-Keeps (set_pc-Keeps he) (
      bind-Keeps (get_csr-Keeps mstatus) (λ s hs. then-Keeps set_mode-Keeps (
        then-Keeps (set_csr-Keeps mstatus _ (copy_bit-IsWord 7 3 s (omega arith) hs)) (
          bind-Keeps (get_csr-Keeps mstatus) (λ s1 h1.
            then-Keeps (set_csr-Keeps mstatus _ (bit_or-lt 64 s1 (2 ^ 7) h1 (omega arith))) (
              bind-Keeps (get_csr-Keeps mstatus)
                (λ s2 h2. set_csr-Keeps mstatus _ (and-IsWord s2 (not64 (3 * 2 ^ 11)) h2)))))))))
