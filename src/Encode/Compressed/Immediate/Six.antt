-- ===== src/Encode/Compressed/Immediate/Six.antt =====
-- The compressed instructions with a signed six-bit immediate, read back by the manual's CI layout.
use assembler_project.Base.{
  ℕ, ◌+◌, ◌*◌, ◌/◌, ◌%◌, ◌<◌, ◌≡◌, refl, inl, inr, true, false, arith, ◌==◌,
}
use assembler_project.Base.Int.{ℤ, pos, negsuc}
use assembler_project.Base.Word.{bits64, signed, field}
use assembler_project.Base.Bits.{bit_and_mask}
use assembler_project.Encode.CTable.{c_encoding_table}
use assembler_project.Encode.Compressed.Half.{require_c_for_op, c_build_tags}
use assembler_project.Encode.Compressed.Half.Put.{put_sum}
use assembler_project.Encode.Compressed.Immediate.{encode_citype, ci_case, rd_imm6, put_imm5_0_ci}
use assembler_project.Encode.Isa.{Accepts, IsIn, range_cases}
use assembler_project.Ir.Opcode.{op_c_addi}
use assembler_project.Pass.{Arch}

pub record CiFields : Type 0 where
  pub funct3 : ℕ
  pub rd : ℕ
  pub imm : ℤ
  pub quadrant : ℕ

abbrev pub ci_fields : ℕ → ℕ → ℤ → ℕ → CiFields
ci_fields f3 rd imm q = record { funct3 = f3; rd = rd; imm = imm; quadrant = q }

abbrev pub decode_ci : ℕ → CiFields
decode_ci h =
    ci_fields (field 13 3 h) (field 7 5 h) (signed 6 (field 12 1 h * 32 + field 2 5 h))
      (field 0 2 h)

module _ (f3 q rd : ℕ) (hf : f3 < 8) (hq : q < 4) (h1 : rd < 32) where
  rd_imm6_sum :
      (imm : ℤ)
      → rd_imm6 (f3 * 8192 + q) rd imm
        ≡ f3 * 8192 + q + rd * 128 + bits64 imm / 32 % 2 * 4096 + bits64 imm % 32 * 4
  unfolding rd_imm6 put_imm5_0_ci
  rd_imm6_sum imm =
      let u = bits64 imm % 64 in
      let w0 = f3 * 8192 + q in
      let w1 = w0 + rd % 32 % 32 * 128 in
      let w2 = w1 + u / 32 % 2 % 2 * 4096 in
      rw
        (
          bit_and_mask 6 (bits64 imm),
          bit_and_mask 5 rd,
          bit_and_mask 1 (u / 32),
          bit_and_mask 5 u,
          put_sum 7 4 w0 (rd % 32) (omega arith) (omega arith) (omega arith),
          put_sum 12 0 w1 (u / 32 % 2) (omega arith) (omega arith) (omega arith),
          put_sum 2 4 w2 (u % 32) (omega arith) (omega arith) (omega arith),
        )
        (omega arith)

  decode-rd_imm6 :
      (imm : ℤ)
      → IsIn (negsuc 31) (pos 31) imm
      → decode_ci (rd_imm6 (f3 * 8192 + q) rd imm) ≡ ci_fields f3 rd imm q
  decode-rd_imm6 imm fit = ground (arith, rd_imm6_sum imm, fit)

-- Where the target has C, c.addi with a destination other than x0 takes the immediates from -32 to
-- 31, and its halfword reads back as register and signed immediate by the manual's CI layout; every
-- other immediate is an error.
pub encode_citype-decode :
    (a : Arch) (rd rs1 : ℕ) (imm : ℤ)
    → require_c_for_op a op_c_addi ≡ true
    → 0 < rd
    → rd < 32
    → Accepts
        (IsIn (negsuc 31) (pos 31) imm)
        (λ h. decode_ci h ≡ ci_fields 0 rd imm 1)
        (encode_citype a op_c_addi rd rs1 imm)
unfolding encode_citype ci_case c_build_tags c_encoding_table
encode_citype-decode a rd rs1 imm ok some_rd small =
    let target : (rd == 0) ≡ false = ground arith in
    elim (range_cases (negsuc 31) (pos 31) imm) [
      | inl (bad, t) ↦ inr (bad, rw (ok, target, t) refl)
      | inr (fit, t) ↦ inl (
        fit,
        (
          rd_imm6 1 rd imm,
          rw (ok, target, t) refl,
          decode-rd_imm6 0 1 rd (omega arith) (omega arith) small imm fit,
        ),
      )
    ]
