-- ===== src/Encode/Full/Offsets.antt =====
-- Branches, jumps and upper immediates against the manual's layouts.
use assembler_project.Base.{
  ℕ, ◌%◌, ◌^◌, ◌<◌, bit_and, ◌≡◌, ◌⊎◌, inl, inr, true, false, arith, ◌!=◌, Bool-cases,
}
use assembler_project.Base.Int.{ℤ, pos, negsuc}
use assembler_project.Base.Word.{bits64, bits32, asr}
use assembler_project.Base.Bits.{bit_and_mask, bit_and_high}
use assembler_project.Encode.Full.{
  encode_btype, encode_jtype, encode_uitype, pack_b, pack_j, pack_u,
}
use assembler_project.Encode.Full.Fields.{
  pack_b_sum, pack_j_sum, pack_u_sum, table-IsNarrow, s_fields,
}
use assembler_project.Encode.Isa.{
  decode_b, decode_j, decode_u, IsIn, IsMultiple, Accepts, range_cases,
}
use assembler_project.Encode.Table.{encoding_table}
use assembler_project.Ir.Opcode.{Opcode}

-- The tests of the low bits, with what they mean.
even_cases :
    (imm : ℤ)
    → (¬ IsMultiple 2 imm) × ((bit_and (bits64 imm) 1 != 0) ≡ true)
      ⊎ IsMultiple 2 imm × ((bit_and (bits64 imm) 1 != 0) ≡ false)
even_cases imm = elim (Bool-cases (bit_and (bits64 imm) 1 != 0)) [
  | inl odd ↦ inl ((λ h. ground (arith, bit_and_mask 1 (bits64 imm))), odd)
  | inr even ↦ inr (ground (arith, bit_and_mask 1 (bits64 imm)), even)
]

page_cases :
    (imm : ℤ)
    → (¬ IsMultiple 4096 imm) × ((bit_and (bits64 imm) 0xfff != 0) ≡ true)
      ⊎ IsMultiple 4096 imm × ((bit_and (bits64 imm) 0xfff != 0) ≡ false)
page_cases imm = elim (Bool-cases (bit_and (bits64 imm) 0xfff != 0)) [
  | inl odd ↦ inl ((λ h. ground (arith, bit_and_mask 12 (bits64 imm))), odd)
  | inr even ↦ inr (ground (arith, bit_and_mask 12 (bits64 imm)), even)
]

b_word :
    (op : Opcode) (rs1 rs2 : ℕ) (imm : ℤ)
    → rs1 < 32
    → rs2 < 32
    → IsMultiple 2 imm
    → IsIn (negsuc 4095) (pos 4094) imm
    → decode_b (
        pack_b
          (bit_and (bits64 (asr imm 1)) 0xfff)
          rs2
          rs1
          (encoding_table op).funct3
          (encoding_table op).opcode)
      ≡ s_fields op rs1 rs2 imm
b_word op rs1 rs2 imm a b even fits =
    let i = encoding_table op in
    let u = bits64 (asr imm 1) % 4096 in
    rw (bit_and_mask 12 (bits64 (asr imm 1)))
      (ground (arith, table-IsNarrow op, pack_b_sum u rs2 rs1 i.funct3 i.opcode))

-- A branch offset that is even and fits 13 bits is encoded in the manual's scattered places and
-- reads back with its sign; an odd or a distant one is refused.
pub encode_btype-decode :
    (op : Opcode) (rs1 rs2 : ℕ) (imm : ℤ)
    → rs1 < 32
    → rs2 < 32
    → Accepts
        (IsMultiple 2 imm × IsIn (negsuc 4095) (pos 4094) imm)
        (λ w. decode_b w ≡ s_fields op rs1 rs2 imm)
        (encode_btype op rs1 rs2 imm)
unfolding encode_btype
encode_btype-decode op rs1 rs2 imm a b = elim (even_cases imm) [
  | inl (odd, t) ↦ inr ((λ h. odd h.0), rw t)
  | inr (even, t) ↦ elim (range_cases (negsuc 4095) (pos 4094) imm) [
    | inl (far, t') ↦ inr ((λ h. far h.1), rw (t, t'))
    | inr (near, t') ↦ inl ((even, near), (_, rw (t, t'), b_word op rs1 rs2 imm a b even near))
  ]
]

j_word :
    (op : Opcode) (rd : ℕ) (imm : ℤ)
    → rd < 32
    → IsMultiple 2 imm
    → IsIn (negsuc 1048575) (pos 1048574) imm
    → decode_j (pack_j (bit_and (bits64 (asr imm 1)) 0xfffff) rd (encoding_table op).opcode)
      ≡ record { opcode = (encoding_table op).opcode; rd = rd; imm = imm }
j_word op rd imm a even fits =
    let u = bits64 (asr imm 1) % 2 ^ 20 in
    rw (bit_and_mask 20 (bits64 (asr imm 1)))
      (ground (arith, table-IsNarrow op, pack_j_sum u rd (encoding_table op).opcode))

-- A jump offset that is even and fits 21 bits is encoded in the manual's scattered places and
-- reads back with its sign; an odd or a distant one is refused.
pub encode_jtype-decode :
    (op : Opcode) (rd : ℕ) (imm : ℤ)
    → rd < 32
    → Accepts
        (IsMultiple 2 imm × IsIn (negsuc 1048575) (pos 1048574) imm)
        (λ w. decode_j w ≡ record { opcode = (encoding_table op).opcode; rd = rd; imm = imm })
        (encode_jtype op rd imm)
unfolding encode_jtype
encode_jtype-decode op rd imm a = elim (even_cases imm) [
  | inl (odd, t) ↦ inr ((λ h. odd h.0), rw t)
  | inr (even, t) ↦ elim (range_cases (negsuc 1048575) (pos 1048574) imm) [
    | inl (far, t') ↦ inr ((λ h. far h.1), rw (t, t'))
    | inr (near, t') ↦ inl ((even, near), (_, rw (t, t'), j_word op rd imm a even near))
  ]
]

u_word :
    (op : Opcode) (rd : ℕ) (imm : ℤ)
    → rd < 32
    → IsMultiple 4096 imm
    → IsIn (negsuc 2147483647) (pos 2147483647) imm
    → decode_u (pack_u (bit_and (bits32 imm) 0xfffff000) rd (encoding_table op).opcode)
      ≡ record { opcode = (encoding_table op).opcode; rd = rd; imm = imm }
u_word op rd imm a even fits =
    let low : bits32 imm % 4096 ≡ 0 = ground arith in
    rw (bit_and_high (bits32 imm) (ground arith) low)
      (ground (arith, table-IsNarrow op, pack_u_sum (bits32 imm) rd (encoding_table op).opcode low))

-- An upper immediate that is a multiple of 4096 and fits 32 bits stands in the top twenty bits and
-- reads back with its sign; any other is refused.
pub encode_uitype-decode :
    (op : Opcode) (rd : ℕ) (imm : ℤ)
    → rd < 32
    → Accepts
        (IsMultiple 4096 imm × IsIn (negsuc 2147483647) (pos 2147483647) imm)
        (λ w. decode_u w ≡ record { opcode = (encoding_table op).opcode; rd = rd; imm = imm })
        (encode_uitype op rd imm)
unfolding encode_uitype
encode_uitype-decode op rd imm a = elim (page_cases imm) [
  | inl (odd, t) ↦ inr ((λ h. odd h.0), rw t)
  | inr (even, t) ↦ elim (range_cases (negsuc 2147483647) (pos 2147483647) imm) [
    | inl (far, t') ↦ inr ((λ h. far h.1), rw (t, t'))
    | inr (near, t') ↦ inl ((even, near), (_, rw (t, t'), u_word op rd imm a even near))
  ]
]
