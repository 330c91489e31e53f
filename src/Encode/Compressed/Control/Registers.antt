-- ===== src/Encode/Compressed/Control/Registers.antt =====
-- The compressed operations on registers, read back by the manual's CA layout.
use assembler_project.Base.{
  ℕ, ◌+◌, ◌-◌, ◌*◌, ◌%◌, ◌^◌, ◌≡◌, refl, inl, inr, true, arith, ◌!=◌, Bool-cases,
}
use assembler_project.Base.Word.{field}
use assembler_project.Base.Bits.{bit_and_mask, bit_or_sum}
use assembler_project.Encode.CTable.{CEncodingInfo, c_encoding_table}
use assembler_project.Encode.Compressed.Control.{ca_word, encode_catype}
use assembler_project.Encode.Compressed.Half.{require_c_for_op}
use assembler_project.Encode.Compressed.Half.Registers.{IsPrime, regp_lem}
use assembler_project.Encode.Isa.{Accepts}
use assembler_project.Ir.Opcode.{Opcode}
use assembler_project.Pass.{Arch}

pub record CaFields : Type 0 where
  pub funct6 : ℕ
  pub rd : ℕ
  pub funct2 : ℕ
  pub rs2 : ℕ
  pub quadrant : ℕ

abbrev pub decode_ca : ℕ → CaFields
decode_ca h = record {
  funct6 = field 10 6 h;
  rd = field 7 3 h + 8;
  funct2 = field 5 2 h;
  rs2 = field 2 3 h + 8;
  quadrant = field 0 2 h;
}

-- The fixed fields come from the table's row.
abbrev pub ca_fields : Opcode → ℕ → ℕ → CaFields
ca_fields op rd rs2 =
    let i = c_encoding_table op in
    record {
      funct6 = i.funct3 % 8 * 8 + i.op12 % 2 * 4 + i.op11_10 % 4;
      rd = rd;
      funct2 = i.op6_5 % 4;
      rs2 = rs2;
      quadrant = i.quadrant % 4;
    }

ca_word_sum :
    (i : CEncodingInfo) (rdp r2p : ℕ)
    → ca_word i rdp r2p
      ≡ i.funct3 % 8 * 2 ^ 13
        + i.op12 % 2 * 2 ^ 12
        + i.op11_10 % 4 * 2 ^ 10
        + rdp % 8 * 2 ^ 7
        + i.op6_5 % 4 * 2 ^ 5
        + r2p % 8 * 2 ^ 2
        + i.quadrant % 4
unfolding ca_word
ca_word_sum i rdp r2p =
    let a = i.funct3 % 8 * 2 ^ 13 in
    let b = i.op12 % 2 * 2 ^ 12 in
    let c = i.op11_10 % 4 * 2 ^ 10 in
    let d = rdp % 8 * 2 ^ 7 in
    let e = i.op6_5 % 4 * 2 ^ 5 in
    let f = r2p % 8 * 2 ^ 2 in
    rw (
      bit_and_mask 3 i.funct3,
      bit_and_mask 1 i.op12,
      bit_and_mask 2 i.op11_10,
      bit_and_mask 3 rdp,
      bit_and_mask 2 i.op6_5,
      bit_and_mask 3 r2p,
      bit_and_mask 2 i.quadrant,
      bit_or_sum 13 a b (omega arith) (omega arith),
      bit_or_sum 12 (a + b) c (omega arith) (omega arith),
      bit_or_sum 10 (a + b + c) d (omega arith) (omega arith),
      bit_or_sum 7 (a + b + c + d) e (omega arith) (omega arith),
      bit_or_sum 5 (a + b + c + d + e) f (omega arith) (omega arith),
      bit_or_sum 2 (a + b + c + d + e + f) (i.quadrant % 4) (omega arith) (omega arith),
    )

-- Where the target has the operation, with all operands among x8 to x15, it is accepted exactly when
-- the destination is the first operand, and its halfword carries both registers and the fixed fields
-- of the table in the places of the manual's CA layout.
pub encode_catype-decode :
    (a : Arch) (op : Opcode) (rd rs1 rs2 : ℕ)
    → require_c_for_op a op ≡ true
    → IsPrime rd
    → IsPrime rs1
    → IsPrime rs2
    → Accepts (rd ≡ rs1) (λ h. decode_ca h ≡ ca_fields op rd rs2) (encode_catype a op rd rs1 rs2)
unfolding encode_catype
encode_catype-decode a op rd rs1 rs2 ok p q r =
    let d = regp_lem rd p in
    let b = regp_lem rs1 q in
    let s = regp_lem rs2 r in
    let i = c_encoding_table op in
    rw (ok, d.0, b.0, s.0)
      (elim (Bool-cases ((rd - 8) != (rs1 - 8))) [
        | inl other ↦ inr ((λ e. ground (arith, b, d, e, other)), rw other refl)
        | inr same ↦ inl (
          ground (arith, b, d, same),
          (
            ca_word i (rd - 8) (rs2 - 8),
            rw same refl,
            ground (arith, d, s, ca_word_sum i (rd - 8) (rs2 - 8)),
          ),
        )
      ])
