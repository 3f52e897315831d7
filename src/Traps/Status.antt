-- ===== src/Traps/Status.antt =====
-- The status registers, bit by bit: what entering a trap and returning from it do to each.
use rremu.Base.{ℕ, ◌*◌, ◌/◌, ◌^◌, ◌≡◌, ◌⊎◌, inl, inr, refl, bit_and, bit_or, not64, arith}
use rremu.Bits.{bit, bit-bit_and, bit-bit_or, bit_and_mask}
use rremu.Cpu.{copy_bit}

copy_bit-cases :
    (from to s : ℕ)
    → ((bit from s ≡ 0) × (copy_bit from to s ≡ bit_and s (not64 (2 ^ to))))
      ⊎ ((bit from s ≡ 1) × (copy_bit from to s ≡ bit_or s (2 ^ to)))
copy_bit-cases from to s = ground (arith, bit_and_mask 1 (s / 2 ^ from))

-- `copy_bit` moves one bit, and keeps the others.
pub bit-copy_bit_self :
    (from to s : ℕ)
    → bit to (2 ^ to) ≡ 1
    → bit to (not64 (2 ^ to)) ≡ 0
    → bit to (copy_bit from to s) ≡ bit from s
bit-copy_bit_self from to s one zero = elim (copy_bit-cases from to s) [
  | inl (b, e) ↦ rw e (omega (arith, bit-bit_and to s (not64 (2 ^ to))))
  | inr (b, e) ↦ rw e (omega (arith, bit-bit_or to s (2 ^ to)))
]

pub bit-copy_bit_other :
    (from to k s : ℕ)
    → bit k (2 ^ to) ≡ 0
    → bit k (not64 (2 ^ to)) ≡ 1
    → bit k (copy_bit from to s) ≡ bit k s
bit-copy_bit_other from to k s zero one = elim (copy_bit-cases from to s) [
  | inl (b, e) ↦ rw e (omega (arith, bit-bit_and k s (not64 (2 ^ to))))
  | inr (b, e) ↦ rw e (omega (arith, bit-bit_or k s (2 ^ to)))
]

-- The status that a trap into machine mode leaves, and the one that MRET leaves.
unfoldable pub entered_m : ℕ → ℕ
entered_m s = bit_and (bit_and (copy_bit 3 7 s) (not64 (2 ^ 3))) (not64 (3 * 2 ^ 11))

unfoldable pub returned_m : ℕ → ℕ
returned_m s = bit_and (bit_or (copy_bit 7 3 s) (2 ^ 7)) (not64 (3 * 2 ^ 11))

-- The same in supervisor mode, by the bit that the trap puts at SPP.
unfoldable pub entered_s_user : ℕ → ℕ
entered_s_user s = bit_and (bit_and (copy_bit 1 5 s) (not64 (2 ^ 1))) (not64 (2 ^ 8))

unfoldable pub entered_s_supervisor : ℕ → ℕ
entered_s_supervisor s = bit_or (bit_and (copy_bit 1 5 s) (not64 (2 ^ 1))) (2 ^ 8)

unfoldable pub returned_s : ℕ → ℕ
returned_s s = bit_and (bit_or (copy_bit 5 1 s) (2 ^ 5)) (not64 (2 ^ 8))

pub entered_m_bits :
    (s : ℕ)
    → (bit 7 (entered_m s) ≡ bit 3 s)
      × (bit 3 (entered_m s) ≡ 0)
      × (bit 11 (entered_m s) ≡ 0)
      × (bit 12 (entered_m s) ≡ 0)
unfolding entered_m
entered_m_bits s =
    let s1 = copy_bit 3 7 s in
    let s2 = bit_and s1 (not64 (2 ^ 3)) in
    let last = not64 (3 * 2 ^ 11) in
    (
      omega (
        arith,
        bit-copy_bit_self 3 7 s refl refl,
        bit-bit_and 7 s1 (not64 (2 ^ 3)),
        bit-bit_and 7 s2 last,
      ),
      omega (arith, bit-bit_and 3 s1 (not64 (2 ^ 3)), bit-bit_and 3 s2 last),
      omega (arith, bit-bit_and 11 s2 last),
      omega (arith, bit-bit_and 12 s2 last),
    )

pub returned_m_bits : (s : ℕ) → (bit 3 (returned_m s) ≡ bit 7 s) × (bit 7 (returned_m s) ≡ 1)
unfolding returned_m
returned_m_bits s =
    let s1 = copy_bit 7 3 s in
    let s2 = bit_or s1 (2 ^ 7) in
    let last = not64 (3 * 2 ^ 11) in
    (
      omega (
        arith,
        bit-copy_bit_self 7 3 s refl refl,
        bit-bit_or 3 s1 (2 ^ 7),
        bit-bit_and 3 s2 last,
      ),
      omega (arith, bit-bit_or 7 s1 (2 ^ 7), bit-bit_and 7 s2 last),
    )

pub entered_s_user_bits :
    (s : ℕ)
    → (bit 5 (entered_s_user s) ≡ bit 1 s)
      × (bit 1 (entered_s_user s) ≡ 0)
      × (bit 8 (entered_s_user s) ≡ 0)
unfolding entered_s_user
entered_s_user_bits s =
    let s1 = copy_bit 1 5 s in
    let s2 = bit_and s1 (not64 (2 ^ 1)) in
    let last = not64 (2 ^ 8) in
    (
      omega (
        arith,
        bit-copy_bit_self 1 5 s refl refl,
        bit-bit_and 5 s1 (not64 (2 ^ 1)),
        bit-bit_and 5 s2 last,
      ),
      omega (arith, bit-bit_and 1 s1 (not64 (2 ^ 1)), bit-bit_and 1 s2 last),
      omega (arith, bit-bit_and 8 s2 last),
    )

pub entered_s_supervisor_bits :
    (s : ℕ)
    → (bit 5 (entered_s_supervisor s) ≡ bit 1 s)
      × (bit 1 (entered_s_supervisor s) ≡ 0)
      × (bit 8 (entered_s_supervisor s) ≡ 1)
unfolding entered_s_supervisor
entered_s_supervisor_bits s =
    let s1 = copy_bit 1 5 s in
    let s2 = bit_and s1 (not64 (2 ^ 1)) in
    (
      omega (
        arith,
        bit-copy_bit_self 1 5 s refl refl,
        bit-bit_and 5 s1 (not64 (2 ^ 1)),
        bit-bit_or 5 s2 (2 ^ 8),
      ),
      omega (arith, bit-bit_and 1 s1 (not64 (2 ^ 1)), bit-bit_or 1 s2 (2 ^ 8)),
      omega (arith, bit-bit_or 8 s2 (2 ^ 8)),
    )

pub returned_s_bits :
    (s : ℕ)
    → (bit 1 (returned_s s) ≡ bit 5 s) × (bit 5 (returned_s s) ≡ 1) × (bit 8 (returned_s s) ≡ 0)
unfolding returned_s
returned_s_bits s =
    let s1 = copy_bit 5 1 s in
    let s2 = bit_or s1 (2 ^ 5) in
    let last = not64 (2 ^ 8) in
    (
      omega (
        arith,
        bit-copy_bit_self 5 1 s refl refl,
        bit-bit_or 1 s1 (2 ^ 5),
        bit-bit_and 1 s2 last,
      ),
      omega (arith, bit-bit_or 5 s1 (2 ^ 5), bit-bit_and 5 s2 last),
      omega (arith, bit-bit_and 8 s2 last),
    )
