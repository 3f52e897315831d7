-- ===== src/Main/Session.antt =====
-- The loop of `main` and `CPU::Run` do the same.
use Prim.Native.String.{String}
use mathlib.Core.List.{append-nil, map-append}
use rremu.Base.{ℕ, zero, suc, ◌≡◌, refl, ap, List, [], ◌∷◌, ◌++◌, map}
use rremu.Action.{Outcome, done, trapped, undefined, out_of_fuel}
use rremu.Trap.{TrapValue, what}
use rremu.Cpu.{Cpu}
use rremu.Step.{step, run}
use rremu.Main.{Line, pc_line, trap_line, session}

-- The texts of the traps among the lines.
abbrev pub trap_texts : List Line → List String
trap_texts [] = []
trap_texts (pc_line _ ∷ lines) = trap_texts lines
trap_texts (trap_line text ∷ lines) = text ∷ trap_texts lines

-- The two loops end alike: in the same state and with the same traps, or neither returns.
abbrev pub Same : Outcome Cpu (List TrapValue) → Outcome Cpu (List Line) → Type 0
Same (done unhandled c) (done lines c') = (c ≡ c') × (trap_texts lines ≡ map what unhandled)
Same undefined undefined = Unit
Same out_of_fuel out_of_fuel = Unit
Same _ _ = ⊥

trap_texts-append : (xs ys : List Line) → trap_texts (xs ++ ys) ≡ trap_texts xs ++ trap_texts ys
trap_texts-append [] ys = refl
trap_texts-append (pc_line _ ∷ xs) ys = trap_texts-append xs ys
trap_texts-append (trap_line text ∷ xs) ys = ap (λ t. text ∷ t) (trap_texts-append xs ys)

-- The loop of `main` and `CPU::Run` do the same for any number of rounds: both end in the same
-- state, having reported the same traps in the same order, or both are undefined, or both run out
-- of fuel, if they start from the same reports.
pub session-run_from :
    (fuel n : ℕ) (unhandled : List TrapValue) (lines : List Line) (c : Cpu)
    → trap_texts lines ≡ map what unhandled
    → Same (run fuel n unhandled c) (session fuel n lines c)
unfolding run session
session-run_from fuel zero unhandled lines c e = (refl, e)
session-run_from fuel (suc n) unhandled lines c e =
    go (step fuel c) (λ u l c' e'. session-run_from fuel n u l c' e')
  where
    go :
        (o : Outcome Cpu (Unit {0}))
        → ((u : List TrapValue) (l : List Line) (c' : Cpu)
            → trap_texts l ≡ map what u
            → Same (run fuel n u c') (session fuel n l c'))
        → Same
            (elim o [
              | done _ c' ↦ run fuel n unhandled c'
              | trapped t c' ↦ run fuel n (unhandled ++ t ∷ []) c'
              | undefined ↦ undefined
              | out_of_fuel ↦ out_of_fuel
            ])
            (elim o [
              | done _ c' ↦ session fuel n (lines ++ pc_line c'.pc ∷ []) c'
              | trapped t c' ↦ session fuel n (lines ++ trap_line (what t) ∷ pc_line c'.pc ∷ []) c'
              | undefined ↦ undefined
              | out_of_fuel ↦ out_of_fuel
            ])
    go (done _ c') ih =
        ih unhandled (lines ++ pc_line c'.pc ∷ []) c' (simp (trap_texts-append, append-nil) e)
    go (trapped t c') ih =
        ih (unhandled ++ t ∷ []) (lines ++ trap_line (what t) ∷ pc_line c'.pc ∷ []) c'
          (simp (trap_texts-append, map-append, e))
    go undefined ih = tt
    go out_of_fuel ih = tt
