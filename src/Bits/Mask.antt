-- ===== src/Bits/Mask.antt =====
-- Masks as remainders, `|` of disjoint fields as a sum, and bounds.
use Prim.Native.Nat.{differ, bit_and-bitwise, bit_or-bitwise}
use native.Mathlib.Nat.{pow-succ', one-le-pow}
use rremu.Base.{
  ℕ, zero, suc, ◌+◌, ◌-◌, ◌*◌, ◌/◌, ◌%◌, ◌^◌, ◌≤◌, ◌<◌, bit_and, bit_or, bit_xor, ◌≡◌, ◌∙◌, ap,
  arith,
}
use rremu.Bits.Step.{bit_and_step, bit_or_step, bit_xor_step}
use rremu.Bits.At.{bit_and_comm, bit_or_comm, half_pow}

two-mul : (q k : ℕ) → q * 2 ^ suc k ≡ 2 * (q * 2 ^ k)
two-mul q k = rw pow-succ' (omega arith)

pub bit_and-zero : (a : ℕ) → bit_and a 0 ≡ 0
bit_and-zero a = bit_and_comm a 0 ∙ bit_and-bitwise 0 a

pub bit_or-zero : (a : ℕ) → bit_or a 0 ≡ a
bit_or-zero a = bit_or_comm a 0 ∙ bit_or-bitwise 0 a

mod_double : (a m : ℕ) → 0 < m → a % (2 * m) ≡ a / 2 % m * 2 + a % 2
mod_double a m h = grind arith

-- `x & (2 ^ k - 1)` keeps the low `k` bits.
pub bit_and_mask : (k a : ℕ) → bit_and a (2 ^ k - 1) ≡ a % 2 ^ k
bit_and_mask zero a = omega (arith, bit_and-zero a)
bit_and_mask (suc k) a = omega (
  arith,
  bit_and_step a (2 ^ suc k - 1),
  ap (λ (t : ℕ). bit_and (a / 2) t) {x = (2 ^ suc k - 1) / 2} {y = 2 ^ k - 1}
      (omega (arith, pow-succ' 2 k)),
  bit_and_mask k (a / 2),
  mod_double a (2 ^ k) (one-le-pow k 2 (omega arith)),
  ap (λ (t : ℕ). a % t) (pow-succ' 2 k),
  pow-succ' 2 k,
  one-le-pow k 2 (omega arith),
)

-- `(q << k) | r` is a sum if `r` has `k` bits.
pub bit_or_sum : (k q r : ℕ) → r < 2 ^ k → bit_or (q * 2 ^ k) r ≡ q * 2 ^ k + r
bit_or_sum zero q r h = let e : r ≡ 0 = omega arith in rw e (omega (arith, bit_or-zero (q * 1)))
bit_or_sum (suc k) q r h = omega (
  arith,
  bit_or_step (q * 2 ^ suc k) r,
  two-mul q k,
  pow-succ' 2 k,
  ap (λ (t : ℕ). bit_or t (r / 2)) {x = q * 2 ^ suc k / 2} {y = q * 2 ^ k}
      (omega (arith, two-mul q k)),
  bit_or_sum k q (r / 2) (omega (arith, pow-succ' 2 k)),
)

and_le_below : (n a b : ℕ) → b ≤ n → bit_and a b ≤ b
and_le_below zero a zero h = omega (arith, bit_and-zero a)
and_le_below zero a (suc b) h = absurd (omega arith)
and_le_below (suc n) a b h =
    omega (arith, bit_and_step a b, and_le_below n (a / 2) (b / 2) (omega arith))

pub bit_and-le_right : (a b : ℕ) → bit_and a b ≤ b
bit_and-le_right a b = and_le_below b a b (omega arith)

pub bit_and-le_left : (a b : ℕ) → bit_and a b ≤ a
bit_and-le_left a b = rw (bit_and_comm a b) (bit_and-le_right b a)

pub bit_or-lt : (w a b : ℕ) → a < 2 ^ w → b < 2 ^ w → bit_or a b < 2 ^ w
bit_or-lt zero a b p q =
    let e : a ≡ 0 = omega arith in let f : b ≡ 0 = omega arith in rw (e, f) (omega arith)
bit_or-lt (suc w) a b p q = omega (
  arith,
  bit_or_step a b,
  pow-succ' 2 w,
  bit_or-lt w (a / 2) (b / 2) (omega (arith, pow-succ' 2 w)) (omega (arith, pow-succ' 2 w)),
)

differ-lt : (x y : ℕ) → x < 2 → y < 2 → differ x y < 2
differ-lt zero y p q = q
differ-lt (suc x) zero p q = p
differ-lt (suc x) (suc y) p q = differ-lt x y (omega arith) (omega arith)

pub bit_xor-lt : (w a b : ℕ) → a < 2 ^ w → b < 2 ^ w → bit_xor a b < 2 ^ w
bit_xor-lt zero a b p q =
    let e : a ≡ 0 = omega arith in let f : b ≡ 0 = omega arith in rw (e, f) (omega arith)
bit_xor-lt (suc w) a b p q = omega (
  arith,
  bit_xor_step a b,
  pow-succ' 2 w,
  differ-lt (a % 2) (b % 2),
  bit_xor-lt w (a / 2) (b / 2) (omega (arith, pow-succ' 2 w)) (omega (arith, pow-succ' 2 w)),
)

-- `x & (1 << k)` is one bit in its place.
pub bit_and_single : (k a : ℕ) → bit_and a (2 ^ k) ≡ a / 2 ^ k % 2 * 2 ^ k
bit_and_single zero a = omega (arith, bit_and_mask 1 a)
bit_and_single (suc k) a =
    let low : 2 ^ suc k / 2 ≡ 2 ^ k = omega (arith, pow-succ' 2 k) in
    rw (half_pow k a, two-mul (a / 2 / 2 ^ k % 2) k)
      (omega (
        arith,
        bit_and_step a (2 ^ suc k),
        ap (bit_and (a / 2)) low,
        bit_and_single k (a / 2),
        pow-succ' 2 k,
      ))
