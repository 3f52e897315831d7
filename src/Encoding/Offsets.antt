-- ===== src/Encoding/Offsets.antt =====
-- The sign extensions of source/cpu.cpp, and the words that an assembler writes for an offset.
use rremu.Base.{
  ℕ, zero, suc, sym, ◌≡⟨◌⟩◌, ◌∎, ◌+◌, ◌-◌, ◌*◌, ◌/◌, ◌%◌, ◌^◌, ◌<◌, ◌≡◌, ◌↔◌, refl, ap, bit_or, ltb,
  if◌then◌else◌, sext32, arith,
}
use rremu.Bits.{bit_and_mask, bit_and_single, bit_or_sum, bit_or_comm, bit_or_assoc}
use rremu.Isa.{
  sign_extend_12b, sign_extend_13b, sign_extend_20b, parse_s, parse_b, parse_j, InstructionFields,
}
use rremu.Encoding.Immediates.{field, parse_s_imm, parse_b_imm, parse_j_imm}

-- The `uint64_t` of a two's complement number of `n` bits.
abbrev pub signed_value : ℕ → ℕ → ℕ
signed_value n imm = if ltb imm (2 ^ (n - 1)) then imm else imm + 2 ^ 64 - 2 ^ n

-- The immediates of the I and the B format are sign-extended correctly to 64 bits.
pub sign_extend_12b_lem :
    (imm : ℕ) → imm < 2 ^ 12 → sext32 (sign_extend_12b imm) ≡ signed_value 12 imm
unfolding sign_extend_12b
sign_extend_12b_lem imm h =
    ground (arith, bit_and_single 11 imm, bit_or_comm imm 0xfffff000, bit_or_sum 12 0xfffff imm h)

-- `sign_extend_13b` extends the 13-bit immediate of a branch to the 64-bit pattern of the same
-- two's complement number.
pub sign_extend_13b_lem :
    (imm : ℕ) → imm < 2 ^ 13 → sext32 (sign_extend_13b imm) ≡ signed_value 13 imm
unfolding sign_extend_13b
sign_extend_13b_lem imm h =
    ground (arith, bit_and_single 12 imm, bit_or_comm imm 0xffffe000, bit_or_sum 13 0x7ffff imm h)

absorbed : (b : ℕ) → b < 2 → bit_or 0xfff00000 (b * 2 ^ 20) ≡ 0xfff * 2 ^ 20
absorbed zero h = refl
absorbed (suc zero) h = refl
absorbed (suc (suc b)) h = absurd (omega arith)

-- The mask that the J format is extended with covers bit 20 too.
or_mask20 : (imm : ℕ) → imm < 2 ^ 21 → bit_or imm 0xfff00000 ≡ 0xfff * 2 ^ 20 + imm % 2 ^ 20
or_mask20 imm h =
    bit_or imm 0xfff00000
    ≡⟨ bit_or_comm imm 0xfff00000 ⟩ bit_or 0xfff00000 imm
    ≡⟨ ap (bit_or 0xfff00000) split ⟩ bit_or 0xfff00000 (bit_or (b * 2 ^ 20) r)
    ≡⟨ sym (bit_or_assoc 0xfff00000 (b * 2 ^ 20) r) ⟩ bit_or (bit_or 0xfff00000 (b * 2 ^ 20)) r
    ≡⟨ ap (λ t. bit_or t r) (absorbed b (omega arith)) ⟩ bit_or (0xfff * 2 ^ 20) r
    ≡⟨ bit_or_sum 20 0xfff r (omega arith) ⟩ 0xfff * 2 ^ 20 + r ∎
  where
    b : ℕ
    b = imm / 2 ^ 20

    r : ℕ
    r = imm % 2 ^ 20

    split : imm ≡ bit_or (b * 2 ^ 20) r
    split = omega (arith, bit_or_sum 20 b r (omega arith))

-- For a 21-bit immediate of the J format, the sign extension is right exactly when bits 19 and 20
-- agree, that is for offsets within 512 KiB, since `sign_extend_20b` looks at bit 19.
pub sign_extend_20b_iff :
    (imm : ℕ)
    → imm < 2 ^ 21
    → (sext32 (sign_extend_20b imm) ≡ signed_value 21 imm) ↔ (field 19 1 imm ≡ field 20 1 imm)
unfolding sign_extend_20b
sign_extend_20b_iff imm h = ground (arith, bit_and_single 19 imm, or_mask20 imm h)

-- The word of a branch with the given fields and a 13-bit offset, as the RISC-V manual lays it out.
abbrev pub encode_b : InstructionFields → ℕ
encode_b f =
    f.opcode
    + field 11 1 f.imm * 2 ^ 7
    + field 1 4 f.imm * 2 ^ 8
    + f.funct3 * 2 ^ 12
    + f.rs1 * 2 ^ 15
    + f.rs2 * 2 ^ 20
    + field 5 6 f.imm * 2 ^ 25
    + field 12 1 f.imm * 2 ^ 31

-- The word of a jump with a 21-bit offset.
abbrev pub encode_j : InstructionFields → ℕ
encode_j f =
    f.opcode
    + f.rd * 2 ^ 7
    + field 12 8 f.imm * 2 ^ 12
    + field 11 1 f.imm * 2 ^ 20
    + field 1 10 f.imm * 2 ^ 21
    + field 20 1 f.imm * 2 ^ 31

abbrev pub encode_s : InstructionFields → ℕ
encode_s f =
    f.opcode
    + field 0 5 f.imm * 2 ^ 7
    + f.funct3 * 2 ^ 12
    + f.rs1 * 2 ^ 15
    + f.rs2 * 2 ^ 20
    + field 5 7 f.imm * 2 ^ 25

-- The fields fit their places.
pub record Fits (f : InstructionFields) (width step : ℕ) : Type 0 where
  pub opcode : f.opcode < 2 ^ 7
  pub rd : f.rd < 2 ^ 5
  pub funct3 : f.funct3 < 2 ^ 3
  pub rs1 : f.rs1 < 2 ^ 5
  pub rs2 : f.rs2 < 2 ^ 5
  pub imm : f.imm < 2 ^ width
  pub aligned : f.imm % step ≡ 0

-- Parsing a branch gives back every field and the even 13-bit offset that it was encoded with,
-- where the fields fit their places.
pub parse_b-encode_b :
    (f : InstructionFields)
    → Fits f 13 2
    → let g = parse_b (encode_b f) in
      (g.opcode ≡ f.opcode)
      × (g.funct3 ≡ f.funct3)
      × (g.rs1 ≡ f.rs1)
      × (g.rs2 ≡ f.rs2)
      × (g.imm ≡ f.imm)
parse_b-encode_b f h =
    let w = encode_b f in
    (
      (unfold parse_b in omega (arith, bit_and_mask 7 (w / 2 ^ 0))),
      (unfold parse_b in omega (arith, bit_and_mask 3 (w / 2 ^ 12))),
      (unfold parse_b in omega (arith, bit_and_mask 5 (w / 2 ^ 15))),
      (unfold parse_b in omega (arith, bit_and_mask 5 (w / 2 ^ 20))),
      omega (arith, parse_b_imm w),
    )

-- Parsing a jump gives back the register and the even 21-bit offset that it was encoded with, where
-- the fields fit their places.
pub parse_j-encode_j :
    (f : InstructionFields)
    → Fits f 21 2
    → let g = parse_j (encode_j f) in (g.opcode ≡ f.opcode) × (g.rd ≡ f.rd) × (g.imm ≡ f.imm)
parse_j-encode_j f h =
    let w = encode_j f in
    (
      (unfold parse_j in omega (arith, bit_and_mask 7 (w / 2 ^ 0))),
      (unfold parse_j in omega (arith, bit_and_mask 5 (w / 2 ^ 7))),
      omega (arith, parse_j_imm w),
    )

-- Parsing a store gives back every field and the 12-bit offset that it was encoded with, where the
-- fields fit their places.
pub parse_s-encode_s :
    (f : InstructionFields)
    → Fits f 12 1
    → let g = parse_s (encode_s f) in
      (g.opcode ≡ f.opcode)
      × (g.funct3 ≡ f.funct3)
      × (g.rs1 ≡ f.rs1)
      × (g.rs2 ≡ f.rs2)
      × (g.imm ≡ f.imm)
parse_s-encode_s f h =
    let w = encode_s f in
    (
      (unfold parse_s in omega (arith, bit_and_mask 7 (w / 2 ^ 0))),
      (unfold parse_s in omega (arith, bit_and_mask 3 (w / 2 ^ 12))),
      (unfold parse_s in omega (arith, bit_and_mask 5 (w / 2 ^ 15))),
      (unfold parse_s in omega (arith, bit_and_mask 5 (w / 2 ^ 20))),
      omega (arith, parse_s_imm w),
    )
