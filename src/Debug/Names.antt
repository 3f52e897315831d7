-- ===== src/Debug/Names.antt =====
-- `RegisterNames` of source/cpu.cpp, against the integer register convention of the RISC-V psABI.
use Prim.Native.String.{String, ◌++◌}
use text.Mathlib.Text.{◌==◌ as str_eq}
use text.Mathlib.TextEquality.{eq_iff}
use rremu.Base.{
  ℕ, zero, suc, ◌-◌, ◌<◌, ◌≡◌, refl, ap, inl, inr, Bool, true, false, ◌&&◌, ◌==◌, ==_iff,
  Bool-cases, ltb, if◌then◌else◌, Option, some, none, [], ◌∷◌, arith,
}
use rremu.Bytes.{get_or}
use rremu.Debug.{register_names, at_key}

-- A letter with a number.
abbrev numbered : String → ℕ → String
numbered letter k =
    letter
    ++ get_or ("0" ∷ "1" ∷ "2" ∷ "3" ∷ "4" ∷ "5" ∷ "6" ∷ "7" ∷ "8" ∷ "9" ∷ "10" ∷ "11" ∷ []) k ""

-- x0 to x4 have names of their own; the temporaries t0 to t6 are x5 to x7 and x28 to x31, the
-- saved registers s0 to s11 are x8, x9 and x18 to x27, the arguments a0 to a7 are x10 to x17.
abbrev pub abi_name : ℕ → String
abi_name i =
    if ltb i 5
    then get_or ("zero" ∷ "ra" ∷ "sp" ∷ "gp" ∷ "tp" ∷ []) i ""
    else if ltb i 8
    then numbered "t" (i - 5)
    else if ltb i 10
    then numbered "s" (i - 8)
    else if ltb i 18
    then numbered "a" (i - 10)
    else if ltb i 28
    then numbered "s" (i - 16)
    else numbered "t" (i - 25)

is_named : ℕ → Option String → Bool
is_named i none = false
is_named i (some name) = str_eq name (abi_name i)

named_below : ℕ → Bool
named_below zero = true
named_below (suc n) = is_named n (at_key register_names n) && named_below n

and-true : (a b : Bool) → (a && b) ≡ true → (a ≡ true) × (b ≡ true)
and-true true b h = (refl, h)
and-true false b h = absurd (cc h)

named_below-is_named :
    (n i : ℕ) → named_below n ≡ true → i < n → is_named i (at_key register_names i) ≡ true
unfolding named_below
named_below-is_named zero i h p = absurd (omega (arith, p))
named_below-is_named (suc n) i h p = elim (Bool-cases (i == n)) [
  | inl e ↦
      rw ((==_iff i n).0 e) (and-true (is_named n (at_key register_names n)) (named_below n) h).0
  | inr ne ↦
      named_below-is_named n i (and-true (is_named n (at_key register_names n)) (named_below n) h).1
        (ground (arith, ne, p))
]

all_named : named_below 32 ≡ true
unfolding named_below is_named at_key
all_named = refl

is_named-name : (i : ℕ) (o : Option String) → is_named i o ≡ true → o ≡ some (abi_name i)
unfolding is_named
is_named-name i none h = absurd (cc h)
is_named-name i (some name) h = ap some ((eq_iff name (abi_name i)).0 h)

pub at_key-abi_name : (i : ℕ) → i < 32 → at_key register_names i ≡ some (abi_name i)
at_key-abi_name i h =
    is_named-name i (at_key register_names i) (named_below-is_named 32 i all_named h)
