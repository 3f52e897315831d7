-- ===== src/Elf/Exceptions.antt =====
-- Code that returns, throws a `std::exception`, or is undefined.
use rremu.Base.{Bool, true, false}

-- The exceptions of source/elf_parser.cpp: its own by their texts, and the `std::out_of_range` of
-- `at`.
pub data LoadError : Type 0 where
  could_not_open not_elf not_riscv segment_too_large out_of_range : LoadError

pub data Attempt (A : Type 0) : Type 0 where
  returns : A → Attempt A
  throws : LoadError → Attempt A
  undefined : Attempt A

infixl 5 ◌>>=◌ ◌>>◌
abbrev pub ◌>>=◌ : {A B : Type 0} → Attempt A → (A → Attempt B) → Attempt B
returns a >>= f = f a
throws e >>= f = throws e
undefined >>= f = undefined

abbrev pub ◌>>◌ : {B : Type 0} → Attempt (Unit {0}) → Attempt B → Attempt B
m >> k = m >>= λ _. k

abbrev pub defined_if : Bool → Attempt (Unit {0})
defined_if true = returns tt
defined_if false = undefined
