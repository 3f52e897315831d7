-- ===== src/Semantics/Signed.antt =====
-- DIV and REM: quotient and remainder belong together, for every pair of operands.
use native.Mathlib.Nat.{div-add-mod', div-le_self, mod-le, mul-add, add-mul}
use rremu.Base.{
  ℕ, zero, suc, ◌+◌, ◌-◌, ◌*◌, ◌/◌, ◌%◌, ◌^◌, ◌<◌, ◌≡◌, ◌⊎◌, refl, ap, true, ◌&&◌, Bool-cases, inl,
  inr, ltb, ltb→lt, add64, mul64, arith,
}
use rremu.Base.Int.{ℤ, pos, negsuc, neg, int64, u64_of_ℤ, quot_ℤ, rem_ℤ, ◌==ℤ◌}
use rremu.Isa.Multiply.{div_int, rem_int, int64_min}

-- `x` is the pattern of `-q`.
abbrev Negates : ℕ → ℕ → Type 0
Negates x q = (x + q ≡ 2 ^ 64) ⊎ ((x ≡ 0) × (q ≡ 0))

neg-Negates : (q : ℕ) → q < 2 ^ 64 → Negates (u64_of_ℤ (neg q)) q
neg-Negates zero h = inr (refl, refl)
neg-Negates (suc q) h = inl (omega arith)

-- Products of negated patterns.
both_negated : (x q y d : ℕ) → Negates x q → y + d ≡ 2 ^ 64 → x * y % 2 ^ 64 ≡ q * d % 2 ^ 64
both_negated x q y d (inr (e, f)) h = rw (e, f) (omega arith)
both_negated x q y d (inl e) h =
    omega (arith, ap (λ (t : ℕ). t * d) e, add-mul x q d, ap (λ (t : ℕ). x * t) h, mul-add x y d)

one_negated : (x q d : ℕ) → Negates x q → (x * d + q * d) % 2 ^ 64 ≡ 0
one_negated x q d (inr (e, f)) = rw (e, f) (omega arith)
one_negated x q d (inl e) = omega (arith, ap (λ (t : ℕ). t * d) e, add-mul x q d)

-- `u64_of_ℤ` of a remainder.
neg_pattern : (r : ℕ) → r < 2 ^ 64 → (u64_of_ℤ (neg r) + r) % 2 ^ 64 ≡ 0
neg_pattern zero h = refl
neg_pattern (suc r) h = omega arith

-- The signed numbers of 64 bits.
abbrev InRange : ℤ → Type 0
InRange (pos n) = n < 2 ^ 63
InRange (negsuc n) = n < 2 ^ 63

euclid :
    (m n : ℤ)
    → InRange m
    → InRange n
    → add64 (mul64 (u64_of_ℤ (quot_ℤ m n)) (u64_of_ℤ n)) (u64_of_ℤ (rem_ℤ m n)) ≡ u64_of_ℤ m
euclid (pos a) (pos b) p q =
    let quotient : a / b % 2 ^ 64 ≡ a / b = omega (arith, div-le_self a b) in
    let divisor : b % 2 ^ 64 ≡ b = omega arith in
    rw (quotient, divisor) (omega (arith, div-add-mod' a b, mod-le a b))
euclid (pos a) (negsuc b) p q =
    let small : a / suc b < 2 ^ 64 = omega (arith, div-le_self a (suc b)) in
    omega (
      arith,
      both_negated (u64_of_ℤ (neg (a / suc b))) (a / suc b) (u64_of_ℤ (negsuc b)) (suc b)
          (neg-Negates (a / suc b) small) (omega arith),
      div-add-mod' a (suc b),
      mod-le a (suc b),
    )
euclid (negsuc a) (pos b) p q =
    let divisor : b % 2 ^ 64 ≡ b = omega arith in
    let small : suc a / b < 2 ^ 64 = omega (arith, div-le_self (suc a) b) in
    let rest : suc a % b < 2 ^ 64 = omega (arith, mod-le (suc a) b) in
    rw divisor (
      omega (
        arith,
        one_negated (u64_of_ℤ (neg (suc a / b))) (suc a / b) b (neg-Negates (suc a / b) small),
        div-add-mod' (suc a) b,
        neg_pattern (suc a % b) rest,
      ))
euclid (negsuc a) (negsuc b) p q =
    let quotient : suc a / suc b % 2 ^ 64 ≡ suc a / suc b =
      omega (arith, div-le_self (suc a) (suc b)) in
    let rest : suc a % suc b < 2 ^ 64 = omega (arith, mod-le (suc a) (suc b)) in
    rw quotient (
      omega (
        arith,
        one_negated (u64_of_ℤ (negsuc b)) (suc b) (suc a / suc b) (inl (omega arith)),
        div-add-mod' (suc a) (suc b),
        neg_pattern (suc a % suc b) rest,
      ))

int64-InRange : (a : ℕ) → a < 2 ^ 64 → InRange (int64 a)
int64-InRange a h = elim (Bool-cases (ltb a (2 ^ 63))) [
  | inl l ↦ rw l (ltb→lt a (2 ^ 63) l)
  | inr l ↦ rw l (ground arith)
]

u64-int64 : (a : ℕ) → a < 2 ^ 64 → u64_of_ℤ (int64 a) ≡ a
u64-int64 a h = ground arith

int64-zero : (b : ℕ) → (int64 b ==ℤ pos 0) ≡ true → b < 2 ^ 64 → b ≡ 0
int64-zero b h p = ground arith

int64-minus_one : (b : ℕ) → (int64 b ==ℤ negsuc 0) ≡ true → b < 2 ^ 64 → b ≡ 2 ^ 64 - 1
int64-minus_one b h p = ground arith

int64-min : (a : ℕ) → (int64 a ==ℤ int64_min) ≡ true → a < 2 ^ 64 → a ≡ 2 ^ 63
int64-min a h p = ground arith

-- DIV and REM agree on every pair of 64-bit operands: modulo 2 ^ 64, quotient times divisor plus
-- remainder is the dividend, also for a divisor of 0 and where the quotient overflows.
pub div_int-rem_int :
    (a b : ℕ)
    → a < 2 ^ 64
    → b < 2 ^ 64
    → add64 (mul64 (div_int int64 int64_min a b) b) (rem_int int64 int64_min a b) ≡ a
unfolding div_int rem_int
div_int-rem_int a b p q = elim (Bool-cases (int64 b ==ℤ pos 0)) [
  | inl z ↦ let e : b ≡ 0 = int64-zero b z q in rw (z, u64-int64 a p, e) (omega arith)
  | inr nz ↦ elim (Bool-cases (int64 a ==ℤ int64_min && int64 b ==ℤ negsuc 0)) [
    | inl o ↦
        let ea : a ≡ 2 ^ 63 = int64-min a (ground arith) p in
        let eb : b ≡ 2 ^ 64 - 1 = int64-minus_one b (ground arith) q in
        rw (nz, o, u64-int64 a p, ea, eb) refl
    | inr fits ↦
        let r = euclid (int64 a) (int64 b) (int64-InRange a p) (int64-InRange b q) in
        rw (nz, fits) (rw (u64-int64 a p, u64-int64 b q) at r)
  ]
]
