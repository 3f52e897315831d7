-- ===== src/Completion/Logic.antt =====
-- A run comes back: it returns or throws, with no undefined behaviour and with fuel left.
use rremu.Base.{ℕ, Bool, true, false, ◌<◌, ◌==◌, if◌then◌else◌, lt→ltb, ◌≡◌}
use rremu.Trap.{TrapValue}
use rremu.Action.{
  Action, Outcome, done, trapped, undefined, out_of_fuel, ◌>>=◌, ◌>>◌, pure, gets, modify,
  throw_trap, defined_if,
}
use rremu.Config.{n_reg, n_csr}
use rremu.Cpu.{Cpu, get_reg, set_reg, get_csr, set_csr, satp}

abbrev pub ComesBack : {S A : Type 0} → Outcome S A → Type 0
ComesBack (done a s) = Unit
ComesBack (trapped t s) = Unit
ComesBack undefined = ⊥
ComesBack out_of_fuel = ⊥

-- A record, so that a proof can be found from the action that it is about.
pub record IsTotal {S A : Type 0} (m : Action S A) : Type 0 where
  pub apply : (s : S) → ComesBack (m s)

module _ {S : Type 0} where
  pub bind-IsTotal :
      {A B : Type 0} {m : Action S A} {f : A → Action S B}
      → IsTotal m
      → ((a : A) → IsTotal (f a))
      → IsTotal (m >>= f)
  bind-IsTotal {A} {B} {m} {f} hm hf = record { apply = λ s. go (m s) (hm.apply s) }
    where
      go :
          (o : Outcome S A)
          → ComesBack o
          → ComesBack (elim o [
            | done a s' ↦ f a s'
            | trapped t s' ↦ trapped t s'
            | undefined ↦ undefined
            | out_of_fuel ↦ out_of_fuel
          ])
      go (done a s') h = (hf a).apply s'
      go (trapped t s') h = tt
      go undefined h = h
      go out_of_fuel h = h

  pub then-IsTotal :
      {B : Type 0} {m : Action S (Unit {0})} {k : Action S B}
      → IsTotal m
      → IsTotal k
      → IsTotal (m >> k)
  then-IsTotal hm hk = bind-IsTotal hm (λ _. hk)

  pub if-IsTotal :
      {A : Type 0} (b : Bool) {m n : Action S A}
      → IsTotal m
      → IsTotal n
      → IsTotal (if b then m else n)
  if-IsTotal true hm hn = hm
  if-IsTotal false hm hn = hn

  pub pure-IsTotal : {A : Type 0} {a : A} → IsTotal (pure {S = S} a)
  pure-IsTotal = record { apply = λ s. tt }

  pub throw-IsTotal : {A : Type 0} {t : TrapValue} → IsTotal (throw_trap {S = S} {A = A} t)
  throw-IsTotal = record { apply = λ s. tt }

  pub gets-IsTotal : {A : Type 0} (f : S → A) → IsTotal (gets f)
  unfolding gets
  gets-IsTotal f = record { apply = λ s. tt }

  pub modify-IsTotal : {f : S → S} → IsTotal (modify f)
  modify-IsTotal = record { apply = λ s. tt }

  pub defined_if-IsTotal : (b : Bool) → b ≡ true → IsTotal (defined_if {S = S} b)
  defined_if-IsTotal true h = record { apply = λ s. tt }
  defined_if-IsTotal false h = record { apply = λ s. absurd (cc h) }

-- The accessors of the processor, in their range.
pub get_reg-IsTotal : (r : ℕ) → r < n_reg → IsTotal (get_reg r)
unfolding get_reg
get_reg-IsTotal r h = then-IsTotal (defined_if-IsTotal _ (lt→ltb r n_reg h)) (gets-IsTotal _)

pub set_reg-IsTotal : (r v : ℕ) → r < n_reg → IsTotal (set_reg r v)
unfolding set_reg
set_reg-IsTotal r v h = then-IsTotal (defined_if-IsTotal _ (lt→ltb r n_reg h)) modify-IsTotal

pub get_csr-IsTotal : (k : ℕ) → k < n_csr → IsTotal (get_csr k)
unfolding get_csr
get_csr-IsTotal k h = then-IsTotal (defined_if-IsTotal _ (lt→ltb k n_csr h)) (gets-IsTotal _)

pub set_csr-IsTotal : (k v : ℕ) → k < n_csr → IsTotal (set_csr k v)
unfolding set_csr
set_csr-IsTotal k v h =
    then-IsTotal (defined_if-IsTotal _ (lt→ltb k n_csr h))
      (then-IsTotal modify-IsTotal (if-IsTotal (k == satp) modify-IsTotal pure-IsTotal))

-- A CSR gets a new value that is computed from the old one.
pub update_csr-IsTotal :
    (k : ℕ) (f : ℕ → ℕ) {m : Action Cpu (Unit {0})}
    → k < n_csr
    → IsTotal m
    → IsTotal (get_csr k >>= λ v. set_csr k (f v) >> m)
update_csr-IsTotal k f h hm =
    bind-IsTotal (get_csr-IsTotal k h) (λ v. then-IsTotal (set_csr-IsTotal k (f v) h) hm)
