-- ===== src/Encode/Full/Fields.antt =====
-- The 32-bit words of the encoders as sums of their fields.
use assembler_project.Base.{ℕ, ◌+◌, ◌*◌, ◌/◌, ◌%◌, ◌^◌, ◌<◌, ◌≡◌, arith}
use assembler_project.Base.Int.{ℤ}
use assembler_project.Base.Bits.{bit_or_sum, bit_and_mask}
use assembler_project.Encode.Isa.{SFields}
use assembler_project.Encode.Table.{EncodingInfo, encoding_table}
use assembler_project.Ir.Opcode.{Opcode, op_add}
use assembler_project.Encode.Full.{pack_r, pack_i, pack_shift6, pack_b, pack_j, pack_u}

abbrev pub IsNarrow : EncodingInfo → Type 0
IsNarrow i = (i.opcode < 128) × (i.funct3 < 8) × (i.funct7 < 128)

pub table-IsNarrow : (op : Opcode) → IsNarrow (encoding_table op)
unfolding encoding_table
table-IsNarrow op_add = omega arith
table-IsNarrow _ = omega arith

pub pack_r_sum :
    (f7 rs2 rs1 f3 rd opc : ℕ)
    → pack_r f7 rs2 rs1 f3 rd opc
      ≡ f7 % 128 * 2 ^ 25
        + rs2 % 32 * 2 ^ 20
        + rs1 % 32 * 2 ^ 15
        + f3 % 8 * 2 ^ 12
        + rd % 32 * 2 ^ 7
        + opc % 128
pack_r_sum f7 rs2 rs1 f3 rd opc =
    let a = f7 % 128 * 2 ^ 25 in
    let b = rs2 % 32 * 2 ^ 20 in
    let c = rs1 % 32 * 2 ^ 15 in
    let d = f3 % 8 * 2 ^ 12 in
    let e = rd % 32 * 2 ^ 7 in
    rw (
      bit_and_mask 7 f7,
      bit_and_mask 5 rs2,
      bit_and_mask 5 rs1,
      bit_and_mask 3 f3,
      bit_and_mask 5 rd,
      bit_and_mask 7 opc,
      bit_or_sum 25 a b (omega arith) (omega arith),
      bit_or_sum 20 (a + b) c (omega arith) (omega arith),
      bit_or_sum 15 (a + b + c) d (omega arith) (omega arith),
      bit_or_sum 12 (a + b + c + d) e (omega arith) (omega arith),
      bit_or_sum 7 (a + b + c + d + e) (opc % 128) (omega arith) (omega arith),
    )

pub pack_i_sum :
    (uimm rs1 f3 rd opc : ℕ)
    → uimm < 4096
    → pack_i uimm rs1 f3 rd opc
      ≡ uimm * 2 ^ 20 + rs1 % 32 * 2 ^ 15 + f3 % 8 * 2 ^ 12 + rd % 32 * 2 ^ 7 + opc % 128
pack_i_sum uimm rs1 f3 rd opc h0 =
    let a = uimm * 2 ^ 20 in
    let c = rs1 % 32 * 2 ^ 15 in
    let d = f3 % 8 * 2 ^ 12 in
    let e = rd % 32 * 2 ^ 7 in
    rw (
      bit_and_mask 5 rs1,
      bit_and_mask 3 f3,
      bit_and_mask 5 rd,
      bit_and_mask 7 opc,
      bit_or_sum 20 a c (omega arith) (omega arith),
      bit_or_sum 15 (a + c) d (omega arith) (omega arith),
      bit_or_sum 12 (a + c + d) e (omega arith) (omega arith),
      bit_or_sum 7 (a + c + d + e) (opc % 128) (omega arith) (omega arith),
    )

pub pack_shift6_sum :
    (f6 shamt rs1 f3 rd opc : ℕ)
    → f6 < 64
    → pack_shift6 f6 shamt rs1 f3 rd opc
      ≡ f6 * 2 ^ 26
        + shamt % 64 * 2 ^ 20
        + rs1 % 32 * 2 ^ 15
        + f3 % 8 * 2 ^ 12
        + rd % 32 * 2 ^ 7
        + opc % 128
pack_shift6_sum f6 shamt rs1 f3 rd opc h0 =
    let a = f6 * 2 ^ 26 in
    let b = shamt % 64 * 2 ^ 20 in
    let c = rs1 % 32 * 2 ^ 15 in
    let d = f3 % 8 * 2 ^ 12 in
    let e = rd % 32 * 2 ^ 7 in
    rw (
      bit_and_mask 6 shamt,
      bit_and_mask 5 rs1,
      bit_and_mask 3 f3,
      bit_and_mask 5 rd,
      bit_and_mask 7 opc,
      bit_or_sum 26 a b (omega arith) (omega arith),
      bit_or_sum 20 (a + b) c (omega arith) (omega arith),
      bit_or_sum 15 (a + b + c) d (omega arith) (omega arith),
      bit_or_sum 12 (a + b + c + d) e (omega arith) (omega arith),
      bit_or_sum 7 (a + b + c + d + e) (opc % 128) (omega arith) (omega arith),
    )

pub pack_b_sum :
    (uimm rs2 rs1 f3 opc : ℕ)
    → pack_b uimm rs2 rs1 f3 opc
      ≡ uimm / 2 ^ 11 % 2 * 2 ^ 31
        + uimm / 2 ^ 4 % 64 * 2 ^ 25
        + rs2 % 32 * 2 ^ 20
        + rs1 % 32 * 2 ^ 15
        + f3 % 8 * 2 ^ 12
        + uimm % 16 * 2 ^ 8
        + uimm / 2 ^ 10 % 2 * 2 ^ 7
        + opc % 128
pack_b_sum uimm rs2 rs1 f3 opc =
    let a = uimm / 2 ^ 11 % 2 * 2 ^ 31 in
    let b = uimm / 2 ^ 4 % 64 * 2 ^ 25 in
    let c = rs2 % 32 * 2 ^ 20 in
    let d = rs1 % 32 * 2 ^ 15 in
    let e = f3 % 8 * 2 ^ 12 in
    let f = uimm % 16 * 2 ^ 8 in
    let g = uimm / 2 ^ 10 % 2 * 2 ^ 7 in
    rw (
      bit_and_mask 1 (uimm / 2 ^ 11),
      bit_and_mask 6 (uimm / 2 ^ 4),
      bit_and_mask 5 rs2,
      bit_and_mask 5 rs1,
      bit_and_mask 3 f3,
      bit_and_mask 4 uimm,
      bit_and_mask 1 (uimm / 2 ^ 10),
      bit_and_mask 7 opc,
      bit_or_sum 31 a b (omega arith) (omega arith),
      bit_or_sum 25 (a + b) c (omega arith) (omega arith),
      bit_or_sum 20 (a + b + c) d (omega arith) (omega arith),
      bit_or_sum 15 (a + b + c + d) e (omega arith) (omega arith),
      bit_or_sum 12 (a + b + c + d + e) f (omega arith) (omega arith),
      bit_or_sum 8 (a + b + c + d + e + f) g (omega arith) (omega arith),
      bit_or_sum 7 (a + b + c + d + e + f + g) (opc % 128) (omega arith) (omega arith),
    )

pub pack_j_sum :
    (uimm rd opc : ℕ)
    → pack_j uimm rd opc
      ≡ uimm / 2 ^ 19 % 2 * 2 ^ 31
        + uimm % 1024 * 2 ^ 21
        + uimm / 2 ^ 10 % 2 * 2 ^ 20
        + uimm / 2 ^ 11 % 256 * 2 ^ 12
        + rd % 32 * 2 ^ 7
        + opc % 128
pack_j_sum uimm rd opc =
    let a = uimm / 2 ^ 19 % 2 * 2 ^ 31 in
    let b = uimm % 1024 * 2 ^ 21 in
    let c = uimm / 2 ^ 10 % 2 * 2 ^ 20 in
    let d = uimm / 2 ^ 11 % 256 * 2 ^ 12 in
    let e = rd % 32 * 2 ^ 7 in
    rw (
      bit_and_mask 1 (uimm / 2 ^ 19),
      bit_and_mask 10 uimm,
      bit_and_mask 1 (uimm / 2 ^ 10),
      bit_and_mask 8 (uimm / 2 ^ 11),
      bit_and_mask 5 rd,
      bit_and_mask 7 opc,
      bit_or_sum 31 a b (omega arith) (omega arith),
      bit_or_sum 21 (a + b) c (omega arith) (omega arith),
      bit_or_sum 20 (a + b + c) d (omega arith) (omega arith),
      bit_or_sum 12 (a + b + c + d) e (omega arith) (omega arith),
      bit_or_sum 7 (a + b + c + d + e) (opc % 128) (omega arith) (omega arith),
    )

pub pack_u_sum :
    (upper rd opc : ℕ)
    → upper % 2 ^ 12 ≡ 0
    → pack_u upper rd opc ≡ upper + rd % 32 * 2 ^ 7 + opc % 128
pack_u_sum upper rd opc h0 =
    let e = rd % 32 * 2 ^ 7 in
    rw (
      bit_and_mask 5 rd,
      bit_and_mask 7 opc,
      bit_or_sum 12 upper e (omega arith) (omega arith),
      bit_or_sum 7 (upper + e) (opc % 128) (omega arith) (omega arith),
    )

-- The fields that a store or a branch is to have.
abbrev pub s_fields : Opcode → ℕ → ℕ → ℤ → SFields
s_fields op rs1 rs2 imm = record {
  opcode = (encoding_table op).opcode;
  funct3 = (encoding_table op).funct3;
  rs1 = rs1;
  rs2 = rs2;
  imm = imm;
}
