-- ===== src/Bits/At.antt =====
-- The bit of a number at a position, and what the operations do to each bit.
use native.Mathlib.Nat.{pow-succ', div-div-eq-div-mul}
use rremu.Base.{
  ℕ, zero, suc, ◌+◌, ◌-◌, ◌/◌, ◌%◌, ◌^◌, ◌≤◌, ◌<◌, min, max, bit_and, bit_or, ◌≡◌, sym, ◌∙◌, arith,
}
use rremu.Bits.Step.{bit_and_step, bit_or_step}

abbrev pub bit : ℕ → ℕ → ℕ
bit k x = x / 2 ^ k % 2

pub half_pow : (k x : ℕ) → x / 2 ^ suc k ≡ x / 2 / 2 ^ k
half_pow k x = rw pow-succ' (sym (div-div-eq-div-mul x 2 (2 ^ k)))

pub bit-suc : (k x : ℕ) → bit (suc k) x ≡ bit k (x / 2)
bit-suc k x = rw half_pow

-- Each operation acts on each bit alone.
pub bit-bit_and : (k a b : ℕ) → bit k (bit_and a b) ≡ min (bit k a) (bit k b)
bit-bit_and zero a b = omega (arith, bit_and_step a b)
bit-bit_and (suc k) a b =
    rw (half_pow k (bit_and a b), half, half_pow k a, half_pow k b) (bit-bit_and k (a / 2) (b / 2))
  where
    half : bit_and a b / 2 ≡ bit_and (a / 2) (b / 2)
    half = omega (arith, bit_and_step a b)

pub bit-bit_or : (k a b : ℕ) → bit k (bit_or a b) ≡ max (bit k a) (bit k b)
bit-bit_or zero a b = omega (arith, bit_or_step a b)
bit-bit_or (suc k) a b =
    rw (half_pow k (bit_or a b), half, half_pow k a, half_pow k b) (bit-bit_or k (a / 2) (b / 2))
  where
    half : bit_or a b / 2 ≡ bit_or (a / 2) (b / 2)
    half = omega (arith, bit_or_step a b)

-- Two numbers with the same bits are equal; `n` bounds the recursion.
ext_below : (n a b : ℕ) → a ≤ n → b ≤ n → ((k : ℕ) → bit k a ≡ bit k b) → a ≡ b
ext_below zero a b p q h = omega arith
ext_below (suc n) a b p q h =
    omega (arith, h 0, ext_below n (a / 2) (b / 2) (omega arith) (omega arith) tail)
  where
    tail : (k : ℕ) → bit k (a / 2) ≡ bit k (b / 2)
    tail k = sym (bit-suc k a) ∙ h (suc k) ∙ bit-suc k b

pub bit_ext : (a b : ℕ) → ((k : ℕ) → bit k a ≡ bit k b) → a ≡ b
bit_ext a b h = ext_below (a + b) a b (omega arith) (omega arith) h

pub bit_and_comm : (a b : ℕ) → bit_and a b ≡ bit_and b a
bit_and_comm a b = bit_ext _ _ λ k. omega (arith, bit-bit_and k a b, bit-bit_and k b a)

pub bit_and_assoc : (a b c : ℕ) → bit_and (bit_and a b) c ≡ bit_and a (bit_and b c)
bit_and_assoc a b c = bit_ext _ _ λ k. omega (
  arith,
  bit-bit_and k (bit_and a b) c,
  bit-bit_and k a b,
  bit-bit_and k a (bit_and b c),
  bit-bit_and k b c,
)

-- A complement flips each of its bits.
pub bit-complement : (w k x : ℕ) → k < w → x < 2 ^ w → bit k (2 ^ w - 1 - x) ≡ 1 - bit k x
bit-complement zero k x h p = absurd (omega arith)
bit-complement (suc w) zero x h p = omega (arith, pow-succ' 2 w)
bit-complement (suc w) (suc k) x h p =
    rw (half_pow k (2 ^ suc w - 1 - x), half, half_pow k x)
      (bit-complement w k (x / 2) (omega arith) (omega (arith, pow-succ' 2 w)))
  where
    half : (2 ^ suc w - 1 - x) / 2 ≡ 2 ^ w - 1 - x / 2
    half = omega (arith, pow-succ' 2 w)

pub bit_or_comm : (a b : ℕ) → bit_or a b ≡ bit_or b a
bit_or_comm a b = bit_ext _ _ λ k. omega (arith, bit-bit_or k a b, bit-bit_or k b a)

pub bit_or_assoc : (a b c : ℕ) → bit_or (bit_or a b) c ≡ bit_or a (bit_or b c)
bit_or_assoc a b c = bit_ext _ _ λ k. omega (
  arith,
  bit-bit_or k (bit_or a b) c,
  bit-bit_or k a b,
  bit-bit_or k a (bit_or b c),
  bit-bit_or k b c,
)
