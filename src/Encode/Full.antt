-- ===== src/Encode/Full.antt =====
-- The encoders of the 32-bit formats (Assembler/src/pass2.c). `none` is the exit that prints an
-- error, sets `had_error` and returns false; `some w` stores `w` through `out` and returns true.
pub mod Fields
pub mod Immediates
pub mod Offsets
pub mod Shifts
use assembler_project.Base.{
  ℕ, ◌+◌, bit_and, bit_or, Bool, true, false, ◌&&◌, ◌||◌, not, Option, none, some, ◌==◌, ◌!=◌, ltb,
  if◌then◌else◌,
}
use assembler_project.Base.Int.{ℤ, pos, negsuc, ltb_ℤ}
use assembler_project.Base.Word.{u32, bits64, bits32, asr, ◌<<◌, ◌>>◌}
use assembler_project.Encode.Table.{EncodingInfo, encoding_table}
use assembler_project.Ir.Entry.{Fmt, if_r, if_i, if_s, if_b, if_j, if_ui}
use assembler_project.Ir.Opcode.{
  Opcode, ◌is◌, op_slli, op_srli, op_srai, op_slliw, op_srliw, op_sraiw, op_ebreak, op_ecall,
}

-- The shape that the 32-bit formats with three registers share: `a << 25 | b << 20 | …`.
abbrev pub pack_r : ℕ → ℕ → ℕ → ℕ → ℕ → ℕ → ℕ
pack_r f7 rs2 rs1 f3 rd opc =
    bit_or
      (bit_or
        (bit_or
          (bit_or (bit_or (bit_and f7 0x7f << 25) (bit_and rs2 0x1f << 20))
            (bit_and rs1 0x1f << 15))
          (bit_and f3 0x07 << 12))
        (bit_and rd 0x1f << 7))
      (bit_and opc 0x7f)

-- The other shapes: an I-type immediate, a six-bit shift, and the scattered offsets of branches
-- and jumps (`uimm` is the offset without its lowest bit).
abbrev pub pack_i : ℕ → ℕ → ℕ → ℕ → ℕ → ℕ
pack_i uimm rs1 f3 rd opc =
    bit_or
      (bit_or (bit_or (bit_or (uimm << 20) (bit_and rs1 0x1f << 15)) (bit_and f3 0x07 << 12))
        (bit_and rd 0x1f << 7))
      (bit_and opc 0x7f)

abbrev pub pack_shift6 : ℕ → ℕ → ℕ → ℕ → ℕ → ℕ → ℕ
pack_shift6 f6 shamt rs1 f3 rd opc =
    bit_or
      (bit_or
        (bit_or (bit_or (bit_or (f6 << 26) (bit_and shamt 0x3f << 20)) (bit_and rs1 0x1f << 15))
          (bit_and f3 0x07 << 12))
        (bit_and rd 0x1f << 7))
      (bit_and opc 0x7f)

abbrev pub pack_b : ℕ → ℕ → ℕ → ℕ → ℕ → ℕ
pack_b uimm rs2 rs1 f3 opc =
    bit_or
      (bit_or
        (bit_or
          (bit_or
            (bit_or
              (bit_or (bit_or (bit_and (uimm >> 11) 0x1 << 31) (bit_and (uimm >> 4) 0x3f << 25))
                (bit_and rs2 0x1f << 20))
              (bit_and rs1 0x1f << 15))
            (bit_and f3 0x07 << 12))
          (bit_and uimm 0xf << 8))
        (bit_and (uimm >> 10) 0x1 << 7))
      (bit_and opc 0x7f)

abbrev pub pack_j : ℕ → ℕ → ℕ → ℕ
pack_j uimm rd opc =
    bit_or
      (bit_or
        (bit_or
          (bit_or (bit_or (bit_and (uimm >> 19) 0x1 << 31) (bit_and uimm 0x3ff << 21))
            (bit_and (uimm >> 10) 0x1 << 20))
          (bit_and (uimm >> 11) 0xff << 12))
        (bit_and rd 0x1f << 7))
      (bit_and opc 0x7f)

abbrev pub pack_u : ℕ → ℕ → ℕ → ℕ
pack_u upper rd opc = bit_or (bit_or upper (bit_and rd 0x1f << 7)) (bit_and opc 0x7f)

unfoldable pub encode_rtype : Opcode → ℕ → ℕ → ℕ → Option ℕ
encode_rtype op rd rs1 rs2 =
    let i = encoding_table op in some (pack_r i.funct7 rs2 rs1 i.funct3 rd i.opcode)

abbrev pub is_word_shift : Opcode → Bool
is_word_shift op = op is op_slliw || op is op_srliw || op is op_sraiw

abbrev pub is_shift : Opcode → Bool
is_shift op =
    op is op_slli
    || op is op_srli
    || op is op_srai
    || op is op_slliw
    || op is op_srliw
    || op is op_sraiw

-- `max_shamt`
abbrev pub max_shamt : Bool → ℕ → ℕ
max_shamt is_word xlen = if is_word then 31 else if xlen == 64 then 63 else 31

-- The shifts by an immediate: a six-bit amount for RV64, a five-bit one otherwise.
unfoldable pub encode_shift : ℕ → Opcode → ℕ → ℕ → ℤ → Option ℕ
encode_shift xlen op rd rs1 imm =
    let i = encoding_table op in
    let is_word = is_word_shift op in
    let shamt = bits32 imm in
    let f6 = if op is op_srai then 0x10 else bit_and i.funct7 0x3f in
    if ltb_ℤ imm (pos 0) || ltb (max_shamt is_word xlen) (bits64 imm)
    then none
    else if not is_word && xlen == 64
    then some (pack_shift6 f6 shamt rs1 i.funct3 rd i.opcode)
    else some (pack_r i.funct7 shamt rs1 i.funct3 rd i.opcode)

-- The regular I-type immediates.
unfoldable pub encode_imm12 : Opcode → ℕ → ℕ → ℤ → Option ℕ
encode_imm12 op rd rs1 imm =
    let i = encoding_table op in
    let uimm = bit_and (bits64 imm) 0xfff in
    if ltb_ℤ imm (negsuc 2047) || ltb_ℤ (pos 2047) imm
    then none
    else some (pack_i uimm rs1 i.funct3 rd i.opcode)

unfoldable pub encode_itype : ℕ → Opcode → ℕ → ℕ → ℤ → Option ℕ
unfolding encode_shift encode_imm12
encode_itype xlen op rd rs1 imm =
    if is_shift op
    then encode_shift xlen op rd rs1 imm
    else if op is op_ebreak || op is op_ecall
    then encode_imm12 op 0 0 (if op is op_ebreak then pos 1 else pos 0)
    else encode_imm12 op rd rs1 imm

unfoldable pub encode_stype : Opcode → ℕ → ℕ → ℤ → Option ℕ
encode_stype op rs1 rs2 imm =
    let i = encoding_table op in
    let uimm = bit_and (bits64 imm) 0xfff in
    if ltb_ℤ imm (negsuc 2047) || ltb_ℤ (pos 2047) imm
    then none
    else some (pack_r (uimm >> 5) rs2 rs1 i.funct3 uimm i.opcode)

unfoldable pub encode_btype : Opcode → ℕ → ℕ → ℤ → Option ℕ
encode_btype op rs1 rs2 imm =
    let i = encoding_table op in
    let uimm = bit_and (bits64 (asr imm 1)) 0xfff in
    if bit_and (bits64 imm) 1 != 0
    then none
    else if ltb_ℤ imm (negsuc 4095) || ltb_ℤ (pos 4094) imm
    then none
    else some (pack_b uimm rs2 rs1 i.funct3 i.opcode)

unfoldable pub encode_jtype : Opcode → ℕ → ℤ → Option ℕ
encode_jtype op rd imm =
    let i = encoding_table op in
    let uimm = bit_and (bits64 (asr imm 1)) 0xfffff in
    if bit_and (bits64 imm) 1 != 0
    then none
    else if ltb_ℤ imm (negsuc 1048575) || ltb_ℤ (pos 1048574) imm
    then none
    else some (pack_j uimm rd i.opcode)

unfoldable pub encode_uitype : Opcode → ℕ → ℤ → Option ℕ
encode_uitype op rd imm =
    let i = encoding_table op in
    if bit_and (bits64 imm) 0xfff != 0
    then none
    else if ltb_ℤ imm (negsuc 2147483647) || ltb_ℤ (pos 2147483647) imm
    then none
    else some (pack_u (bit_and (bits32 imm) 0xfffff000) rd i.opcode)

unfoldable pub encode_instruction : ℕ → Opcode → Fmt → ℕ → ℕ → ℕ → ℤ → Option ℕ
unfolding encode_rtype encode_itype encode_stype encode_btype encode_jtype encode_uitype
encode_instruction xlen op if_r rd rs1 rs2 imm = encode_rtype op rd rs1 rs2
encode_instruction xlen op if_i rd rs1 rs2 imm = encode_itype xlen op rd rs1 imm
encode_instruction xlen op if_s rd rs1 rs2 imm = encode_stype op rs1 rs2 imm
encode_instruction xlen op if_b rd rs1 rs2 imm = encode_btype op rs1 rs2 imm
encode_instruction xlen op if_j rd rs1 rs2 imm = encode_jtype op rd imm
encode_instruction xlen op if_ui rd rs1 rs2 imm = encode_uitype op rd imm
encode_instruction xlen op _ rd rs1 rs2 imm = none
