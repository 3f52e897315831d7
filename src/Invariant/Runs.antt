-- ===== src/Invariant/Runs.antt =====
-- What `CPU::Run` does in any number of rounds, against a relation that describes rounds of `Step`.
use mathlib.Core.List.{append-nil, append_assoc}
use rremu.Base.{ℕ, zero, suc, ◌<◌, ◌≡◌, refl, sym, ◌∙◌, List, [], ◌∷◌, ◌++◌, arith}
use rremu.Action.{Outcome, done, trapped, undefined, out_of_fuel}
use rremu.Trap.{TrapValue}
use rremu.Cpu.{Cpu}
use rremu.Step.{step, run}
use rremu.Invariant.Logic.{Ensures, Any}
use rremu.Invariant.Registers.{IsValid}
use rremu.Invariant.Steps.{step-IsValid}

-- From the first state, that many steps that return or throw lead to the last state; the list has
-- what they throw, in order.
pub data Rounds (fuel : ℕ) : ℕ → Cpu → List TrapValue → Cpu → Type 0 where
  start : (c : Cpu) → Rounds fuel zero c [] c
  returning :
      {n : ℕ} {c c1 c' : Cpu} {ts : List TrapValue}
      → step fuel c ≡ done tt c1
      → Rounds fuel n c1 ts c'
      → Rounds fuel (suc n) c ts c'
  throwing :
      {n : ℕ} {c c1 c' : Cpu} {t : TrapValue} {ts : List TrapValue}
      → step fuel c ≡ trapped t c1
      → Rounds fuel n c1 ts c'
      → Rounds fuel (suc n) c (t ∷ ts) c'

-- Fewer rounds lead to a valid state whose step has the outcome.
abbrev pub StopsWith : ℕ → ℕ → Cpu → Outcome Cpu (Unit {0}) → Type 0
StopsWith fuel n c o =
    (k : ℕ) × (ts : List TrapValue) × (c' : Cpu) × (k < n)
    × Rounds fuel k c ts c'
    × IsValid c'
    × (step fuel c' ≡ o)

-- What an outcome of `n` rounds of `Run` means, where `unhandled` has been reported before.
abbrev pub Explains : ℕ → ℕ → List TrapValue → Cpu → Outcome Cpu (List TrapValue) → Type 0
Explains fuel n unhandled c (done reported c') =
    (ts : List TrapValue) × (reported ≡ unhandled ++ ts) × Rounds fuel n c ts c' × IsValid c'
Explains fuel n unhandled c (trapped t c') = ⊥
Explains fuel n unhandled c undefined = StopsWith fuel n c undefined
Explains fuel n unhandled c out_of_fuel = StopsWith fuel n c out_of_fuel

module _ (fuel n : ℕ) (unhandled : List TrapValue) (c c1 : Cpu) where
  Explains-returning :
      (o : Outcome Cpu (List TrapValue))
      → step fuel c ≡ done tt c1
      → Explains fuel n unhandled c1 o
      → Explains fuel (suc n) unhandled c o
  Explains-returning (done reported c') h (ts, e, r, v) = (ts, e, returning h r, v)
  Explains-returning (trapped t c') h x = x
  Explains-returning undefined h (k, ts, c', p, r, v, s) =
      (suc k, ts, c', omega (arith, p), returning h r, v, s)
  Explains-returning out_of_fuel h (k, ts, c', p, r, v, s) =
      (suc k, ts, c', omega (arith, p), returning h r, v, s)

  Explains-throwing :
      {t : TrapValue} (o : Outcome Cpu (List TrapValue))
      → step fuel c ≡ trapped t c1
      → Explains fuel n (unhandled ++ t ∷ []) c1 o
      → Explains fuel (suc n) unhandled c o
  Explains-throwing {t} (done reported c') h (ts, e, r, v) =
      (t ∷ ts, e ∙ append_assoc unhandled (t ∷ []) ts, throwing h r, v)
  Explains-throwing (trapped t c') h x = x
  Explains-throwing {t} undefined h (k, ts, c', p, r, v, s) =
      (suc k, t ∷ ts, c', omega (arith, p), throwing h r, v, s)
  Explains-throwing {t} out_of_fuel h (k, ts, c', p, r, v, s) =
      (suc k, t ∷ ts, c', omega (arith, p), throwing h r, v, s)

-- From a state of the invariant, what any number of rounds of `Run` comes to is explained by steps.
-- It returns only where that many steps, each of which returns or throws, lead to its last state,
-- which is a state of the invariant; what it has reported is then what was reported before and
-- after it the traps that those steps throw, in their order, and nothing else. It is undefined, or
-- runs out of fuel, only where fewer such steps lead to a state of the invariant whose step is
-- undefined, or runs out of fuel. It never throws.
pub run-Explains :
    (fuel n : ℕ) (unhandled : List TrapValue) (c : Cpu)
    → IsValid c
    → Explains fuel n unhandled c (run fuel n unhandled c)
unfolding run
run-Explains fuel zero unhandled c h = ([], sym (append-nil unhandled), start c, h)
run-Explains fuel (suc n) unhandled c h =
    go (step fuel c) refl (step-IsValid fuel c h) (λ left c' k. run-Explains fuel n left c' k)
  where
    go :
        (o : Outcome Cpu (Unit {0}))
        → step fuel c ≡ o
        → Ensures IsValid Any o
        → ((left : List TrapValue) (c' : Cpu)
            → IsValid c'
            → Explains fuel n left c' (run fuel n left c'))
        → Explains fuel (suc n) unhandled c (elim o [
          | done _ c' ↦ run fuel n unhandled c'
          | trapped t c' ↦ run fuel n (unhandled ++ t ∷ []) c'
          | undefined ↦ undefined
          | out_of_fuel ↦ out_of_fuel
        ])
    go (done a c') e k next =
        Explains-returning fuel n unhandled c c' (run fuel n unhandled c') e (next unhandled c' k.0)
    go (trapped t c') e k next =
        Explains-throwing fuel n unhandled c c' (run fuel n (unhandled ++ t ∷ []) c') e
          (next (unhandled ++ t ∷ []) c' k)
    go undefined e k next = (zero, [], c, omega arith, start c, h, e)
    go out_of_fuel e k next = (zero, [], c, omega arith, start c, h, e)
