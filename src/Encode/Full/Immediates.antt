-- ===== src/Encode/Full/Immediates.antt =====
-- The 32-bit encoders against the manual's layouts: each accepts exactly the operands that fit,
-- and the word it makes reads back as the operands.
use assembler_project.Base.{ℕ, ◌%◌, ◌<◌, bit_and, ◌≡◌, refl, inl, inr, false, ◌||◌, some, arith}
use assembler_project.Base.Int.{ℤ, pos, negsuc}
use assembler_project.Base.Word.{◌>>◌, bits64}
use assembler_project.Base.Bits.{bit_and_mask}
use assembler_project.Encode.Full.{
  encode_rtype, encode_stype, encode_imm12, encode_itype, is_shift, pack_r, pack_i,
}
use assembler_project.Encode.Full.Fields.{pack_r_sum, pack_i_sum, table-IsNarrow, s_fields}
use assembler_project.Encode.Isa.{decode_r, decode_s, IFields, decode_i, IsIn, Accepts, range_cases}
use assembler_project.Encode.Table.{encoding_table}
use assembler_project.Ir.Opcode.{Opcode, ◌is◌, op_ebreak, op_ecall}

-- An R-type word carries the three registers and the table's codes in the manual's places.
pub encode_rtype-decode :
    (op : Opcode) (rd rs1 rs2 : ℕ)
    → rd < 32
    → rs1 < 32
    → rs2 < 32
    → (w : ℕ) × (encode_rtype op rd rs1 rs2 ≡ some w)
      × (decode_r w ≡ record {
        opcode = (encoding_table op).opcode;
        rd = rd;
        funct3 = (encoding_table op).funct3;
        rs1 = rs1;
        rs2 = rs2;
        funct7 = (encoding_table op).funct7;
      })
unfolding encode_rtype
encode_rtype-decode op rd rs1 rs2 a b c =
    let i = encoding_table op in
    let n = table-IsNarrow op in
    (
      pack_r i.funct7 rs2 rs1 i.funct3 rd i.opcode,
      refl,
      ground (arith, n, pack_r_sum i.funct7 rs2 rs1 i.funct3 rd i.opcode),
    )

-- A store whose offset fits 12 bits is encoded with it in the manual's two pieces; any other
-- offset is refused.
pub encode_stype-decode :
    (op : Opcode) (rs1 rs2 : ℕ) (imm : ℤ)
    → rs1 < 32
    → rs2 < 32
    → Accepts
        (IsIn (negsuc 2047) (pos 2047) imm)
        (λ w. decode_s w ≡ s_fields op rs1 rs2 imm)
        (encode_stype op rs1 rs2 imm)
unfolding encode_stype
encode_stype-decode op rs1 rs2 imm a b =
    let i = encoding_table op in
    let n = table-IsNarrow op in
    let uimm = bit_and (bits64 imm) 0xfff in
    elim (range_cases (negsuc 2047) (pos 2047) imm) [
      | inl (bad, t) ↦ inr (bad, rw t)
      | inr (fine, t) ↦ inl (
        fine,
        (
          pack_r (uimm >> 5) rs2 rs1 i.funct3 uimm i.opcode,
          rw t,
          ground (
            arith,
            n,
            bit_and_mask 12 (bits64 imm),
            pack_r_sum (uimm >> 5) rs2 rs1 i.funct3 uimm i.opcode,
          ),
        ),
      )
    ]

abbrev pub i_fields : Opcode → ℕ → ℕ → ℤ → IFields
i_fields op rd rs1 imm = record {
  opcode = (encoding_table op).opcode;
  rd = rd;
  funct3 = (encoding_table op).funct3;
  rs1 = rs1;
  imm = imm;
}

encode_imm12-decode :
    (op : Opcode) (rd rs1 : ℕ) (imm : ℤ)
    → rd < 32
    → rs1 < 32
    → Accepts
        (IsIn (negsuc 2047) (pos 2047) imm)
        (λ w. decode_i w ≡ i_fields op rd rs1 imm)
        (encode_imm12 op rd rs1 imm)
unfolding encode_imm12
encode_imm12-decode op rd rs1 imm a b =
    let i = encoding_table op in
    let n = table-IsNarrow op in
    let uimm = bits64 imm % 4096 in
    elim (range_cases (negsuc 2047) (pos 2047) imm) [
      | inl (bad, t) ↦ inr (bad, rw t)
      | inr (fine, t) ↦ inl (
        fine,
        (
          pack_i (bit_and (bits64 imm) 0xfff) rs1 i.funct3 rd i.opcode,
          rw t,
          rw (bit_and_mask 12 (bits64 imm))
              (ground (arith, n, pack_i_sum uimm rs1 i.funct3 rd i.opcode)),
        ),
      )
    ]

-- Any I-type instruction but a shift, `ebreak` and `ecall`: an immediate that fits 12 bits is
-- encoded and reads back with its sign; any other is refused.
pub encode_itype-decode :
    (xlen : ℕ) (op : Opcode) (rd rs1 : ℕ) (imm : ℤ)
    → is_shift op ≡ false
    → (op is op_ebreak || op is op_ecall) ≡ false
    → rd < 32
    → rs1 < 32
    → Accepts
        (IsIn (negsuc 2047) (pos 2047) imm)
        (λ w. decode_i w ≡ i_fields op rd rs1 imm)
        (encode_itype xlen op rd rs1 imm)
unfolding encode_itype
encode_itype-decode xlen op rd rs1 imm s t a b = rw (s, t) (encode_imm12-decode op rd rs1 imm a b)
