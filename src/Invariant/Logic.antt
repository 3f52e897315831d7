-- ===== src/Invariant/Logic.antt =====
-- A postcondition of a run: the invariant holds after a return and after a throw, and the result
-- has the property. Undefined behaviour and spent fuel promise nothing.
use rremu.Base.{Bool, true, false, Option, some, none, if◌then◌else◌}
use rremu.Trap.{TrapValue}
use rremu.Action.{
  Action, Outcome, done, trapped, undefined, out_of_fuel, ◌>>=◌, ◌>>◌, pure, gets, read, modify,
  defined_if, throw_trap, on_member,
}

abbrev pub Ensures : {S A : Type 0} → (S → Type 0) → (A → Type 0) → Outcome S A → Type 0
Ensures I P (done a s) = I s × P a
Ensures I P (trapped t s) = I s
Ensures I P undefined = Unit
Ensures I P out_of_fuel = Unit

-- A record, so that a proof can be found from the action that it is about.
pub record Keeps {S A : Type 0} (I : S → Type 0) (P : A → Type 0) (m : Action S A) : Type 0 where
  pub apply : (s : S) → I s → Ensures I P (m s)

abbrev pub Any : {A : Type 0} → A → Type 0
Any _ = Unit {0}

-- The variable, if it has a value, has one with the property.
abbrev pub IfSome : {A : Type 0} → (A → Type 0) → Option A → Type 0
IfSome P none = Unit
IfSome P (some a) = P a

-- What holds of both branches.
pub both : {A : Type 0} (P : A → Type 0) (b : Bool) {x y : A} → P x → P y → P (if b then x else y)
both P true p q = p
both P false p q = q

module _ {S : Type 0} {I : S → Type 0} where
  pub bind-Keeps :
      {A B : Type 0} {P : A → Type 0} {Q : B → Type 0} {m : Action S A} {f : A → Action S B}
      → Keeps I P m
      → ((a : A) → P a → Keeps I Q (f a))
      → Keeps I Q (m >>= f)
  bind-Keeps {A} {B} {P} {Q} {m} {f} hm hf = record { apply = λ s hs. go (m s) (hm.apply s hs) }
    where
      go :
          (o : Outcome S A)
          → Ensures I P o
          → Ensures I Q (elim o [
            | done a s' ↦ f a s'
            | trapped t s' ↦ trapped t s'
            | undefined ↦ undefined
            | out_of_fuel ↦ out_of_fuel
          ])
      go (done a s') h = (hf a h.1).apply s' h.0
      go (trapped t s') h = h
      go undefined h = tt
      go out_of_fuel h = tt

  pub then-Keeps :
      {B : Type 0} {Q : B → Type 0} {m : Action S (Unit {0})} {k : Action S B}
      → Keeps I Any m
      → Keeps I Q k
      → Keeps I Q (m >> k)
  then-Keeps hm hk = bind-Keeps hm (λ _ _. hk)

  pub if-Keeps :
      {A : Type 0} {P : A → Type 0} (b : Bool) {m n : Action S A}
      → Keeps I P m
      → Keeps I P n
      → Keeps I P (if b then m else n)
  if-Keeps true hm hn = hm
  if-Keeps false hm hn = hn

  pub pure-Keeps : {A : Type 0} {P : A → Type 0} {a : A} → P a → Keeps I P (pure a)
  pure-Keeps h = record { apply = λ s hs. (hs, h) }

  pub throw-Keeps : {A : Type 0} {P : A → Type 0} {t : TrapValue} → Keeps I P (throw_trap t)
  throw-Keeps = record { apply = λ s hs. hs }

  pub gets-Keeps :
      {A : Type 0} {P : A → Type 0} (f : S → A) → ((s : S) → I s → P (f s)) → Keeps I P (gets f)
  unfolding gets
  gets-Keeps f h = record { apply = λ s hs. (hs, h s hs) }

  pub modify-Keeps : {f : S → S} → ((s : S) → I s → I (f s)) → Keeps I Any (modify f)
  modify-Keeps h = record { apply = λ s hs. (h s hs, tt) }

  pub defined_if-Keeps : (b : Bool) → Keeps I Any (defined_if b)
  defined_if-Keeps true = record { apply = λ s hs. (hs, tt) }
  defined_if-Keeps false = record { apply = λ s hs. tt }

  pub read-Keeps : {A : Type 0} {P : A → Type 0} (o : Option A) → IfSome P o → Keeps I P (read o)
  read-Keeps none h = record { apply = λ s hs. tt }
  read-Keeps (some a) h = record { apply = λ s hs. (hs, h) }

-- A call on a member keeps what its class keeps of the member, which the rest of the state may
-- have a part in, and what holds of the rest.
pub on_member-Keeps :
    {S T A : Type 0} {I : S → Type 0} {J : S → T → Type 0} {P : A → Type 0} (get : S → T)
    (put : S → T → S) {f : Action T A}
    → ((s : S) → I s → J s (get s))
    → ((s : S) (t : T) → I s → J s t → I (put s t))
    → ((s : S) → Keeps (J s) P f)
    → Keeps I P (on_member get put f)
on_member-Keeps {S} {T} {A} {I} {J} {P} get put {f} inside outside h = record {
  apply = λ s hs. go s hs (f (get s)) ((h s).apply (get s) (inside s hs));
}
  where
    go :
        (s : S)
        → I s
        → (o : Outcome T A) → Ensures (J s) P o
        → Ensures I P (elim o [
          | done a t ↦ done a (put s t)
          | trapped e t ↦ trapped e (put s t)
          | undefined ↦ undefined
          | out_of_fuel ↦ out_of_fuel
        ])
    go s hs (done a t) k = (outside s t hs k.0, k.1)
    go s hs (trapped e t) k = outside s t hs k
    go s hs undefined k = tt
    go s hs out_of_fuel k = tt
