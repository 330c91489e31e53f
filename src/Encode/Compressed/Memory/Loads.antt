-- ===== src/Encode/Compressed/Memory/Loads.antt =====
-- The compressed loads and stores at a register's address, read back by the manual's layouts.
use assembler_project.Base.{
  ℕ, ◌-◌, ◌%◌, ◌≤◌, ◌≡◌, refl, ◌⊎◌, inl, inr, true, false, arith, Bool-cases,
}
use assembler_project.Base.Int.{ℤ, pos, pos_part, neg_part, ◌≤ℤ◌}
use assembler_project.Base.Word.{bits32}
use assembler_project.Base.Bits.{bit_and_mask}
use assembler_project.Encode.CTable.{c_encoding_table}
use assembler_project.Encode.Compressed.Half.Registers.{IsPrime, regp_lem}
use assembler_project.Encode.Compressed.Half.{require_c_for_op, c_build_tags}
use assembler_project.Encode.Compressed.Memory.{
  encode_cltype, encode_cstype, cl_case, cs_case, bad_offset, put_word_offset, put_double_offset,
  put_registers,
}
use assembler_project.Encode.Compressed.Memory.Words.{
  MemoryFields, decode_word, decode_double, decode-word, decode-double,
}
use assembler_project.Encode.Isa.{Accepts}
use assembler_project.Ir.Opcode.{index, op_c_lw, op_c_ld, op_c_sw, op_c_sd}
use assembler_project.Pass.{Arch}

-- A multiple of `k` from 0 to `top`.
abbrev pub IsOffset : ℕ → ℕ → ℤ → Type 0
IsOffset k top imm = (neg_part imm ≡ 0) × (pos_part imm % k ≡ 0) × (pos_part imm ≤ top)

word_cases :
    (imm : ℤ)
    → imm ≤ℤ pos 4294967295
    → (¬ IsOffset 4 124 imm) × (bad_offset 0x3 124 imm ≡ true)
      ⊎ IsOffset 4 124 imm × (bad_offset 0x3 124 imm ≡ false) × (bits32 imm ≡ pos_part imm)
word_cases imm h = elim (Bool-cases (bad_offset 0x3 124 imm)) [
  | inl bad ↦ inl ((λ fit. ground (arith, bit_and_mask 2 (bits32 imm))), bad)
  | inr fine ↦ inr (ground (arith, bit_and_mask 2 (bits32 imm)), fine, ground arith)
]

double_cases :
    (imm : ℤ)
    → imm ≤ℤ pos 4294967295
    → (¬ IsOffset 8 248 imm) × (bad_offset 0x7 248 imm ≡ true)
      ⊎ IsOffset 8 248 imm × (bad_offset 0x7 248 imm ≡ false) × (bits32 imm ≡ pos_part imm)
double_cases imm h = elim (Bool-cases (bad_offset 0x7 248 imm)) [
  | inl bad ↦ inl ((λ fit. ground (arith, bit_and_mask 3 (bits32 imm))), bad)
  | inr fine ↦ inr (ground (arith, bit_and_mask 3 (bits32 imm)), fine, ground arith)
]

abbrev pub memory_fields : ℕ → ℕ → ℕ → ℤ → MemoryFields
memory_fields f3 rs1 reg imm = record {
  funct3 = f3;
  base = rs1;
  reg = reg;
  offset = pos_part imm;
  quadrant = 0;
}

lw_case :
    (rs1 rd : ℕ) (imm : ℤ)
    → IsPrime rs1
    → IsPrime rd
    → imm ≤ℤ pos 4294967295
    → Accepts
        (IsOffset 4 124 imm)
        (λ h. decode_word h ≡ memory_fields 2 rs1 rd imm)
        (cl_case op_c_lw (c_build_tags (c_encoding_table op_c_lw)) (rs1 - 8) (rd - 8) imm)
unfolding cl_case c_build_tags c_encoding_table index
lw_case rs1 rd imm p q small =
    let b = regp_lem rs1 p in
    let r = regp_lem rd q in
    elim (word_cases imm small) [
      | inl (bad, t) ↦ inr (bad, rw t refl)
      | inr (fine, t, u) ↦
          let even : bits32 imm % 4 ≡ 0 = omega (arith, u, fine) in
          let low : bits32 imm ≤ 124 = omega (arith, u, fine) in
          inl (
            fine,
            (
              put_registers (put_word_offset 16384 (bits32 imm)) (rs1 - 8) (rd - 8),
              rw t refl,
              ground (
                arith,
                fine,
                u,
                b,
                r,
                decode-word 2 0 (rs1 - 8) (rd - 8) (bits32 imm) (omega arith) (omega arith) (b.1)
                    (r.1) even low,
              ),
            ),
          )
    ]

ld_case :
    (rs1 rd : ℕ) (imm : ℤ)
    → IsPrime rs1
    → IsPrime rd
    → imm ≤ℤ pos 4294967295
    → Accepts
        (IsOffset 8 248 imm)
        (λ h. decode_double h ≡ memory_fields 3 rs1 rd imm)
        (cl_case op_c_ld (c_build_tags (c_encoding_table op_c_ld)) (rs1 - 8) (rd - 8) imm)
unfolding cl_case c_build_tags c_encoding_table index
ld_case rs1 rd imm p q small =
    let b = regp_lem rs1 p in
    let r = regp_lem rd q in
    elim (double_cases imm small) [
      | inl (bad, t) ↦ inr (bad, rw t refl)
      | inr (fine, t, u) ↦
          let even : bits32 imm % 8 ≡ 0 = omega (arith, u, fine) in
          let low : bits32 imm ≤ 248 = omega (arith, u, fine) in
          inl (
            fine,
            (
              put_registers (put_double_offset 24576 (bits32 imm)) (rs1 - 8) (rd - 8),
              rw t refl,
              ground (
                arith,
                fine,
                u,
                b,
                r,
                decode-double 3 0 (rs1 - 8) (rd - 8) (bits32 imm) (omega arith) (omega arith) (b.1)
                    (r.1) even low,
              ),
            ),
          )
    ]

sw_case :
    (rs1 rs2 : ℕ) (imm : ℤ)
    → IsPrime rs1
    → IsPrime rs2
    → imm ≤ℤ pos 4294967295
    → Accepts
        (IsOffset 4 124 imm)
        (λ h. decode_word h ≡ memory_fields 6 rs1 rs2 imm)
        (cs_case op_c_sw (c_build_tags (c_encoding_table op_c_sw)) (rs1 - 8) (rs2 - 8) imm)
unfolding cs_case c_build_tags c_encoding_table index
sw_case rs1 rs2 imm p q small =
    let b = regp_lem rs1 p in
    let r = regp_lem rs2 q in
    elim (word_cases imm small) [
      | inl (bad, t) ↦ inr (bad, rw t refl)
      | inr (fine, t, u) ↦
          let even : bits32 imm % 4 ≡ 0 = omega (arith, u, fine) in
          let low : bits32 imm ≤ 124 = omega (arith, u, fine) in
          inl (
            fine,
            (
              put_registers (put_word_offset 49152 (bits32 imm)) (rs1 - 8) (rs2 - 8),
              rw t refl,
              ground (
                arith,
                fine,
                u,
                b,
                r,
                decode-word 6 0 (rs1 - 8) (rs2 - 8) (bits32 imm) (omega arith) (omega arith) (b.1)
                    (r.1) even low,
              ),
            ),
          )
    ]

sd_case :
    (rs1 rs2 : ℕ) (imm : ℤ)
    → IsPrime rs1
    → IsPrime rs2
    → imm ≤ℤ pos 4294967295
    → Accepts
        (IsOffset 8 248 imm)
        (λ h. decode_double h ≡ memory_fields 7 rs1 rs2 imm)
        (cs_case op_c_sd (c_build_tags (c_encoding_table op_c_sd)) (rs1 - 8) (rs2 - 8) imm)
unfolding cs_case c_build_tags c_encoding_table index
sd_case rs1 rs2 imm p q small =
    let b = regp_lem rs1 p in
    let r = regp_lem rs2 q in
    elim (double_cases imm small) [
      | inl (bad, t) ↦ inr (bad, rw t refl)
      | inr (fine, t, u) ↦
          let even : bits32 imm % 8 ≡ 0 = omega (arith, u, fine) in
          let low : bits32 imm ≤ 248 = omega (arith, u, fine) in
          inl (
            fine,
            (
              put_registers (put_double_offset 57344 (bits32 imm)) (rs1 - 8) (rs2 - 8),
              rw t refl,
              ground (
                arith,
                fine,
                u,
                b,
                r,
                decode-double 7 0 (rs1 - 8) (rs2 - 8) (bits32 imm) (omega arith) (omega arith) (b.1)
                    (r.1) even low,
              ),
            ),
          )
    ]

-- Where the target has it, c.lw between registers x8 to x15 takes the offsets that are multiples
-- of 4 up to 124, and its halfword reads back as the registers and the offset by the manual's
-- layout; every other offset below 2 ^ 32 is an error.
pub encode_cltype-decode_word :
    (a : Arch) (rs1 rd : ℕ) (imm : ℤ)
    → require_c_for_op a op_c_lw ≡ true
    → IsPrime rs1
    → IsPrime rd
    → imm ≤ℤ pos 4294967295
    → Accepts
        (IsOffset 4 124 imm)
        (λ h. decode_word h ≡ memory_fields 2 rs1 rd imm)
        (encode_cltype a op_c_lw rd rs1 imm)
unfolding encode_cltype
encode_cltype-decode_word a rs1 rd imm ok p q small =
    rw (ok, (regp_lem rd q).0, (regp_lem rs1 p).0) (lw_case rs1 rd imm p q small)

-- Where the target has it, c.ld between registers x8 to x15 takes the offsets that are multiples
-- of 8 up to 248, and its halfword reads back as the registers and the offset by the manual's
-- layout; every other offset below 2 ^ 32 is an error.
pub encode_cltype-decode_double :
    (a : Arch) (rs1 rd : ℕ) (imm : ℤ)
    → require_c_for_op a op_c_ld ≡ true
    → IsPrime rs1
    → IsPrime rd
    → imm ≤ℤ pos 4294967295
    → Accepts
        (IsOffset 8 248 imm)
        (λ h. decode_double h ≡ memory_fields 3 rs1 rd imm)
        (encode_cltype a op_c_ld rd rs1 imm)
unfolding encode_cltype
encode_cltype-decode_double a rs1 rd imm ok p q small =
    rw (ok, (regp_lem rd q).0, (regp_lem rs1 p).0) (ld_case rs1 rd imm p q small)

-- Where the target has it, c.sw between registers x8 to x15 takes the offsets that are multiples
-- of 4 up to 124, and its halfword reads back as the registers and the offset by the manual's
-- layout; every other offset below 2 ^ 32 is an error.
pub encode_cstype-decode_word :
    (a : Arch) (rs1 rs2 : ℕ) (imm : ℤ)
    → require_c_for_op a op_c_sw ≡ true
    → IsPrime rs1
    → IsPrime rs2
    → imm ≤ℤ pos 4294967295
    → Accepts
        (IsOffset 4 124 imm)
        (λ h. decode_word h ≡ memory_fields 6 rs1 rs2 imm)
        (encode_cstype a op_c_sw rs1 rs2 imm)
unfolding encode_cstype
encode_cstype-decode_word a rs1 rs2 imm ok p q small =
    rw (ok, (regp_lem rs1 p).0, (regp_lem rs2 q).0) (sw_case rs1 rs2 imm p q small)

-- Where the target has it, c.sd between registers x8 to x15 takes the offsets that are multiples
-- of 8 up to 248, and its halfword reads back as the registers and the offset by the manual's
-- layout; every other offset below 2 ^ 32 is an error.
pub encode_cstype-decode_double :
    (a : Arch) (rs1 rs2 : ℕ) (imm : ℤ)
    → require_c_for_op a op_c_sd ≡ true
    → IsPrime rs1
    → IsPrime rs2
    → imm ≤ℤ pos 4294967295
    → Accepts
        (IsOffset 8 248 imm)
        (λ h. decode_double h ≡ memory_fields 7 rs1 rs2 imm)
        (encode_cstype a op_c_sd rs1 rs2 imm)
unfolding encode_cstype
encode_cstype-decode_double a rs1 rs2 imm ok p q small =
    rw (ok, (regp_lem rs1 p).0, (regp_lem rs2 q).0) (sd_case rs1 rs2 imm p q small)
