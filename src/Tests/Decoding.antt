-- ===== src/Tests/Decoding.antt =====
-- Decoding and the formats of the words.
use rremu.Base.{◌-◌, ◌^◌, ◌≡◌, ◌↔◌, refl, inr, inl, arith, sext32}
use rremu.Action.{done}
use rremu.Isa.{
  instructions, InstructionFields, parse_b, parse_j, parse_s, sign_extend_12b, sign_extend_13b,
  sign_extend_20b,
}
use rremu.Isa.Jumps.{lui}
use rremu.Step.{decode}
use rremu.Step.Decoding.{decode-Decodes, decode_unique, Decodes, IsEntry}
use rremu.Encoding.Offsets.{
  sign_extend_12b_lem, sign_extend_13b_lem, sign_extend_20b_iff, parse_b-encode_b, parse_j-encode_j,
  parse_s-encode_s, encode_b, encode_j, encode_s, Fits, signed_value,
}
use rremu.Encoding.Immediates.{field}
use rremu.Tests.Machine.{start}

decode-Decodes_example : Decodes instructions 0x00400093 start (decode 0x00400093 start)
decode-Decodes_example = decode-Decodes 0x00400093 start

lui-IsEntry : IsEntry lui instructions
unfolding instructions
lui-IsEntry = inr (inr (inl refl))

-- `lui x1, 1`
decode_unique_example : decode 0x000010b7 start ≡ done lui start
unfolding lui
decode_unique_example =
    decode_unique 0x000010b7 lui start (omega arith) (omega arith) lui-IsEntry refl

immediate_minus_one : sext32 (sign_extend_12b 0xfff) ≡ 2 ^ 64 - 1
immediate_minus_one = sign_extend_12b_lem 0xfff (omega arith)

offset_minus_two : sext32 (sign_extend_13b 0x1ffe) ≡ 2 ^ 64 - 2
offset_minus_two = sign_extend_13b_lem 0x1ffe (omega arith)

-- An offset of 512 KiB.
sign_extend_20b_iff_example :
    (sext32 (sign_extend_20b 0x80000) ≡ signed_value 21 0x80000)
    ↔ (field 19 1 0x80000 ≡ field 20 1 0x80000)
sign_extend_20b_iff_example = sign_extend_20b_iff 0x80000 (omega arith)

-- `bne x5, x6, -4`
abbrev bne_fields : InstructionFields
bne_fields = record {
  opcode = 0x63;
  rd = 0;
  funct3 = 1;
  rs1 = 5;
  rs2 = 6;
  funct7 = 0;
  imm = 0x1ffc;
}

bne_Fits : Fits bne_fields 13 2
bne_Fits = record {
  opcode = omega arith;
  rd = omega arith;
  funct3 = omega arith;
  rs1 = omega arith;
  rs2 = omega arith;
  imm = omega arith;
  aligned = refl;
}

parse_b-encode_b_example :
    let g = parse_b (encode_b bne_fields) in
    (g.opcode ≡ 0x63) × (g.funct3 ≡ 1) × (g.rs1 ≡ 5) × (g.rs2 ≡ 6) × (g.imm ≡ 0x1ffc)
parse_b-encode_b_example = parse_b-encode_b bne_fields bne_Fits

-- `jal x1, 2048`
abbrev jal_fields : InstructionFields
jal_fields = record { opcode = 0x6f; rd = 1; funct3 = 0; rs1 = 0; rs2 = 0; funct7 = 0; imm = 2048 }

jal_Fits : Fits jal_fields 21 2
jal_Fits = record {
  opcode = omega arith;
  rd = omega arith;
  funct3 = omega arith;
  rs1 = omega arith;
  rs2 = omega arith;
  imm = omega arith;
  aligned = refl;
}

parse_j-encode_j_example :
    let g = parse_j (encode_j jal_fields) in (g.opcode ≡ 0x6f) × (g.rd ≡ 1) × (g.imm ≡ 2048)
parse_j-encode_j_example = parse_j-encode_j jal_fields jal_Fits

-- `sd x6, 8(x5)`
abbrev sd_fields : InstructionFields
sd_fields = record { opcode = 0x23; rd = 0; funct3 = 3; rs1 = 5; rs2 = 6; funct7 = 0; imm = 8 }

sd_Fits : Fits sd_fields 12 1
sd_Fits = record {
  opcode = omega arith;
  rd = omega arith;
  funct3 = omega arith;
  rs1 = omega arith;
  rs2 = omega arith;
  imm = omega arith;
  aligned = refl;
}

store_fields :
    let g = parse_s (encode_s sd_fields) in
    (g.opcode ≡ 0x23) × (g.funct3 ≡ 3) × (g.rs1 ≡ 5) × (g.rs2 ≡ 6) × (g.imm ≡ 8)
store_fields = parse_s-encode_s sd_fields sd_Fits
