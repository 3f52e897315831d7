-- ===== src/Encoding/Immediates.antt =====
-- `parse_instruction` in arithmetic: the `|` of shifted fields is a sum.
use rremu.Base.{
  ℕ, ◌+◌, ◌-◌, ◌*◌, ◌/◌, ◌%◌, ◌^◌, ◌<◌, ◌≡◌, ap, ◌∙◌, bit_or, shl32, arith, ◌≡⟨◌⟩◌, ◌∎,
}
use rremu.Bits.{bit_and_mask, bit_or_sum, bit_or_comm, bit_or_assoc}
use rremu.Isa.{parse_i, parse_s, parse_b, parse_u, parse_j}

-- `mask<start, start + n - 1>` is the field of `n` bits at `start`.
abbrev pub field : ℕ → ℕ → ℕ → ℕ
field start n w = w / 2 ^ start % 2 ^ n

-- Two fields, the upper one first or the lower one first.
or_up : (k q r : ℕ) → r < 2 ^ k → bit_or (q * 2 ^ k) r ≡ q * 2 ^ k + r
or_up = bit_or_sum

or_down : (k q r : ℕ) → r < 2 ^ k → bit_or r (q * 2 ^ k) ≡ q * 2 ^ k + r
or_down k q r h = bit_or_comm r (q * 2 ^ k) ∙ bit_or_sum k q r h

-- The third field goes between the first two.
or_between :
    (k j p q r : ℕ)
    → q * 2 ^ j + r < 2 ^ k
    → r < 2 ^ j
    → bit_or (bit_or (p * 2 ^ k) r) (q * 2 ^ j) ≡ p * 2 ^ k + (q * 2 ^ j + r)
or_between k j p q r h h' =
    bit_or (bit_or (p * 2 ^ k) r) (q * 2 ^ j)
    ≡⟨ bit_or_assoc (p * 2 ^ k) r (q * 2 ^ j) ⟩ bit_or (p * 2 ^ k) (bit_or r (q * 2 ^ j))
    ≡⟨ ap (bit_or (p * 2 ^ k)) (or_down j q r h') ⟩ bit_or (p * 2 ^ k) (q * 2 ^ j + r)
    ≡⟨ bit_or_sum k p (q * 2 ^ j + r) h ⟩ p * 2 ^ k + (q * 2 ^ j + r) ∎

pub parse_i_imm : (w : ℕ) → (parse_i w).imm ≡ field 20 12 w
unfolding parse_i
parse_i_imm w = bit_and_mask 12 (w / 2 ^ 20)

pub parse_s_imm : (w : ℕ) → (parse_s w).imm ≡ field 25 7 w * 2 ^ 5 + field 7 5 w
unfolding parse_s
parse_s_imm w =
    let e : shl32 (field 25 7 w) 5 ≡ field 25 7 w * 2 ^ 5 = omega arith in
    rw (bit_and_mask 5 (w / 2 ^ 7), bit_and_mask 7 (w / 2 ^ 25), e)
      (or_down 5 (field 25 7 w) (field 7 5 w) (omega arith))

pub parse_b_imm :
    (w : ℕ)
    → (parse_b w).imm
      ≡ field 31 1 w * 2 ^ 12 + (field 7 1 w * 2 ^ 11 + (field 25 6 w * 2 ^ 5 + field 8 4 w * 2))
unfolding parse_b
parse_b_imm w =
    let a = field 31 1 w in
    let b = field 7 1 w in
    let c = field 25 6 w in
    let d = field 8 4 w in
    let ea : shl32 a 12 ≡ a * 2 ^ 12 = omega arith in
    let eb : shl32 b 11 ≡ b * 2 ^ 11 = omega arith in
    let ec : shl32 c 5 ≡ c * 2 ^ 5 = omega arith in
    let ed : shl32 d 1 ≡ d * 2 = omega arith in
    rw
      (
        bit_and_mask 1 (w / 2 ^ 31),
        bit_and_mask 1 (w / 2 ^ 7),
        bit_and_mask 6 (w / 2 ^ 25),
        bit_and_mask 4 (w / 2 ^ 8),
        ea,
        eb,
        ec,
        ed,
        or_between 11 5 b c (d * 2) (omega arith) (omega arith),
      )
      (or_down 12 a (b * 2 ^ 11 + (c * 2 ^ 5 + d * 2)) (omega arith))

pub parse_u_imm : (w : ℕ) → w < 2 ^ 32 → (parse_u w).imm ≡ w - w % 2 ^ 12
unfolding parse_u
parse_u_imm w h = omega (arith, bit_and_mask 20 (w / 2 ^ 12))

pub parse_j_imm :
    (w : ℕ)
    → (parse_j w).imm
      ≡ field 31 1 w * 2 ^ 20
        + (field 12 8 w * 2 ^ 12 + (field 20 1 w * 2 ^ 11 + field 21 10 w * 2))
unfolding parse_j
parse_j_imm w =
    let a = field 31 1 w in
    let b = field 12 8 w in
    let c = field 20 1 w in
    let d = field 21 10 w in
    let ea : shl32 a 20 ≡ a * 2 ^ 20 = omega arith in
    let eb : shl32 b 12 ≡ b * 2 ^ 12 = omega arith in
    let ec : shl32 c 11 ≡ c * 2 ^ 11 = omega arith in
    let ed : shl32 d 1 ≡ d * 2 = omega arith in
    rw
      (
        bit_and_mask 1 (w / 2 ^ 31),
        bit_and_mask 8 (w / 2 ^ 12),
        bit_and_mask 1 (w / 2 ^ 20),
        bit_and_mask 10 (w / 2 ^ 21),
        ea,
        eb,
        ec,
        ed,
        or_down 11 c (d * 2) (omega arith),
        or_down 12 b (c * 2 ^ 11 + d * 2) (omega arith),
      )
      (or_down 20 a (b * 2 ^ 12 + (c * 2 ^ 11 + d * 2)) (omega arith))
