-- ===== src/Bits/Step.antt =====
-- One equation for the lowest bit of each operation. The native operations are specified by
-- `digits`, a recursion with fuel on halved numbers; here the fuel is gone.
use Prim.Native.Nat.{digits, bitwise, differ, bit_and-bitwise, bit_or-bitwise, bit_xor-bitwise}
use rremu.Base.{
  ℕ, zero, suc, ◌+◌, ◌*◌, ◌/◌, ◌%◌, ◌≤◌, min, max, bit_and, bit_or, bit_xor, ◌≡◌, refl, sym, ◌∙◌,
  arith,
}

-- `op` on two bits; where the first number is used up, `rest` does what `op` does with a bit 0.
module _ (rest : ℕ → ℕ) (op : ℕ → ℕ → ℕ)
    (at_rest : (y : ℕ) → rest y ≡ op zero (y % 2) + 2 * rest (y / 2)) where
  enough : (n m x y : ℕ) → x ≤ n → x ≤ m → digits rest op n x y ≡ digits rest op m x y
  enough n m zero y p q = at_zero n ∙ sym (at_zero m)
    where
      at_zero : (k : ℕ) → digits rest op k zero y ≡ rest y
      at_zero zero = refl
      at_zero (suc k) = refl
  enough zero m (suc x) y p q = absurd (omega arith)
  enough (suc n) zero (suc x) y p q = absurd (omega arith)
  enough (suc n) (suc m) (suc x) y p q =
      rw (enough n m (suc x / 2) (y / 2) (omega arith) (omega arith))

  pub bitwise_step :
      (x y : ℕ) → bitwise rest op x y ≡ op (x % 2) (y % 2) + 2 * bitwise rest op (x / 2) (y / 2)
  bitwise_step zero y = at_rest y
  bitwise_step (suc x) y =
      omega (arith, enough x (suc x / 2) (suc x / 2) (y / 2) (omega arith) (omega arith))

pub bit_xor_step : (x y : ℕ) → bit_xor x y ≡ differ (x % 2) (y % 2) + 2 * bit_xor (x / 2) (y / 2)
bit_xor_step x y = simp bit_xor-bitwise (bitwise_step (λ t. t) differ (λ _. omega arith) x y)

pub bit_and_step : (x y : ℕ) → bit_and x y ≡ min (x % 2) (y % 2) + 2 * bit_and (x / 2) (y / 2)
bit_and_step x y = simp bit_and-bitwise (bitwise_step (λ _. zero) min (λ _. omega arith) x y)

pub bit_or_step : (x y : ℕ) → bit_or x y ≡ max (x % 2) (y % 2) + 2 * bit_or (x / 2) (y / 2)
bit_or_step x y = simp bit_or-bitwise (bitwise_step (λ t. t) max (λ _. omega arith) x y)
