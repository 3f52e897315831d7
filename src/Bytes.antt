-- ===== src/Bytes.antt =====
-- `std::vector<uint8_t>`: a size, and the byte at each index; what stands past the end is never read.
use rremu.Base.{ℕ, zero, suc, List, [], ◌∷◌}

pub record Bytes : Type 0 where
  pub size : ℕ
  pub get : ℕ → ℕ

module _ {ℓ} {A : Type ℓ} where
  abbrev pub length : List A → ℕ
  length [] = 0
  length (x ∷ xs) = suc (length xs)

  abbrev pub get_or : List A → ℕ → A → A
  get_or [] i d = d
  get_or (x ∷ xs) zero d = x
  get_or (x ∷ xs) (suc i) d = get_or xs i d

-- A vector with the given elements.
abbrev pub bytes : List ℕ → Bytes
bytes xs = record { size = length xs; get = λ i. get_or xs i 0 }

abbrev pub no_bytes : Bytes
no_bytes = record { size = 0; get = λ _. 0 }
