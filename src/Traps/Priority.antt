-- ===== src/Traps/Priority.antt =====
-- Which interrupt `HandleInterrupts` takes, and what it leaves.
use rremu.Base.{
  ℕ, ◌≤◌, ◌≡◌, ◌≢◌, ◌⊎◌, inl, inr, refl, false, List, [], ◌∷◌, Bool-cases, ==_iff, bit_and, not64,
  ◌==◌, arith,
}
use rremu.Action.{gets, done}
use rremu.Trap.{TrapValue}
use rremu.Cpu.{
  Cpu, handle_trap, handle_interrupts, first_pending, run_handler, in_key_order, interrupt_handlers,
  is_masked, write_csr, get_csr, set_csr, mie, mip,
}

abbrev Handler : Type 0
Handler = ℕ × TrapValue

abbrev pub All : (Handler → Type 0) → List Handler → Type 0
All P [] = Unit
All P (e ∷ m) = P e × All P m

abbrev pub IsHandler : Handler → List Handler → Type 0
IsHandler e [] = ⊥
IsHandler e (f ∷ m) = (e ≡ f) ⊎ IsHandler e m

-- The key is one of the pending bits.
abbrev pub IsPending : ℕ → Handler → Type 0
IsPending pending e = bit_and pending e.0 ≢ 0

abbrev Ascending : List Handler → Type 0
Ascending [] = Unit
Ascending (e ∷ m) = All (λ f. e.0 ≤ f.0) m × Ascending m

handlers-Ascending : Ascending (in_key_order interrupt_handlers)
unfolding in_key_order
handlers-Ascending = omega arith

All-map :
    {P Q : Handler → Type 0} (m : List Handler) → ((e : Handler) → P e → Q e) → All P m → All Q m
All-map [] f h = tt
All-map (e ∷ m) f (p, h) = (f e p, All-map m f h)

-- The loop, over handlers in ascending order.
first_pending_least :
    (pending : ℕ) (c : Cpu) (m : List Handler)
    → Ascending m
    → (All (λ f. ¬ IsPending pending f) m × (first_pending pending m c ≡ done tt c))
      ⊎ ((e : Handler) × IsHandler e m
          × IsPending pending e
          × All (λ f. IsPending pending f → e.0 ≤ f.0) m
          × (first_pending pending m c ≡ run_handler e c))
unfolding first_pending
first_pending_least pending c [] h = inl (tt, refl)
first_pending_least pending c (f ∷ m) (least, h) = elim (Bool-cases (bit_and pending f.0 == 0)) [
  | inl zero ↦ elim (first_pending_least pending c m h) [
    | inl (quiet, r) ↦ inl (((λ p. p ((==_iff _ _).0 zero)), quiet), rw zero r)
    | inr (e, entry, p, below, r) ↦
        inr (e, inr entry, p, ((λ q. absurd (q ((==_iff _ _).0 zero))), below), rw zero r)
  ]
  | inr some_bit ↦ inr (
    f,
    inl refl,
    (λ z. cc ((==_iff (bit_and pending f.0) 0).1 z)),
    ((λ _. omega arith), All-map m (λ g le _. le) least),
    rw some_bit,
  )
]

run_handler_lem :
    (e : Handler) (c : Cpu)
    → run_handler e c
      ≡ done tt (handle_trap e.1 (write_csr mip (bit_and (c.csrs mip) (not64 e.0)) c))
unfolding run_handler get_csr set_csr gets
run_handler_lem e c = refl

-- Where interrupts are not masked, `HandleInterrupts` takes the pending interrupt with the least
-- bit of `mip`, not the one that the table names first: it clears that bit and enters the trap.
-- With no handler's bit pending it changes nothing.
pub handle_interrupts_least :
    (c : Cpu)
    → is_masked c ≡ false
    → let pending = bit_and (c.csrs mie) (c.csrs mip) in
      let handlers = in_key_order interrupt_handlers in
      (All (λ f. ¬ IsPending pending f) handlers × (handle_interrupts c ≡ done tt c))
      ⊎ ((e : Handler) × IsHandler e handlers
          × IsPending pending e
          × All (λ f. IsPending pending f → e.0 ≤ f.0) handlers
          × (handle_interrupts c
              ≡ done tt (handle_trap e.1 (write_csr mip (bit_and (c.csrs mip) (not64 e.0)) c))))
unfolding handle_interrupts
handle_interrupts_least c h =
    elim (first_pending_least (bit_and (c.csrs mie) (c.csrs mip)) c
      (in_key_order interrupt_handlers) handlers-Ascending) [
        | inl (quiet, r) ↦ inl (quiet, rw h r)
        | inr (e, entry, p, below, r) ↦ inr (e, entry, p, below, rw h (rw r (run_handler_lem e c)))
      ]
