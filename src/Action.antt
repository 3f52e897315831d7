-- ===== src/Action.antt =====
-- The effect of C++ code on a state `S`: it returns, throws a `CPUTrapException`, runs into
-- undefined behaviour, or calls itself more deeply than the fuel allows.
use rremu.Base.{Bool, true, false, Option, none, some}
use rremu.Trap.{TrapValue}

pub data Outcome (S A : Type 0) : Type 0 where
  done : A → S → Outcome S A
  trapped : TrapValue → S → Outcome S A
  undefined : Outcome S A
  out_of_fuel : Outcome S A

abbrev pub Action : Type 0 → Type 0 → Type 0
Action S A = S → Outcome S A

infixl 5 ◌>>=◌ ◌>>◌
abbrev pub ◌>>=◌ : {S A B : Type 0} → Action S A → (A → Action S B) → Action S B
◌>>=◌ m f s = elim (m s) [
  | done a s' ↦ f a s'
  | trapped t s' ↦ trapped t s'
  | undefined ↦ undefined
  | out_of_fuel ↦ out_of_fuel
]

abbrev pub ◌>>◌ : {S B : Type 0} → Action S (Unit {0}) → Action S B → Action S B
m >> k = m >>= λ _. k

module _ {S A : Type 0} where
  abbrev pub pure : A → Action S A
  pure a s = done a s

  -- `throw CPUTrapException(t)`
  abbrev pub throw_trap : TrapValue → Action S A
  throw_trap t s = trapped t s

  unfoldable pub gets : (S → A) → Action S A
  gets f s = done (f s) s

  -- The value of a variable, undefined behaviour if it was never assigned.
  abbrev pub read : Option A → Action S A
  read (some a) s = done a s
  read none s = undefined

abbrev pub modify : {S : Type 0} → (S → S) → Action S (Unit {0})
modify f s = done tt (f s)

-- What C++ leaves undefined unless `b` holds.
abbrev pub defined_if : {S : Type 0} → Bool → Action S (Unit {0})
defined_if true s = done tt s
defined_if false s = undefined

-- A call on a member of the object: `get` reads the member and `put` writes it back.
abbrev pub on_member : {S T A : Type 0} → (S → T) → (S → T → S) → Action T A → Action S A
on_member get put f s = elim (f (get s)) [
  | done a t ↦ done a (put s t)
  | trapped e t ↦ trapped e (put s t)
  | undefined ↦ undefined
  | out_of_fuel ↦ out_of_fuel
]
