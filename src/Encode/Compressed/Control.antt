-- ===== src/Encode/Compressed/Control.antt =====
-- `encode_crtype`, `encode_catype`, `encode_cbtype` and `encode_cjtype` (Assembler/src/pass2.c): the
-- compressed register operations, branches and jumps.
pub mod Registers
use assembler_project.Base.{
  ℕ, bit_and, bit_or, Bool, true, not, ◌&&◌, ◌||◌, Option, none, some, ◌==◌, ◌!=◌, if◌then◌else◌,
}
use assembler_project.Base.Int.{ℤ, pos, negsuc, ltb_ℤ}
use assembler_project.Base.Word.{◌<<◌, ◌>>◌, bits64, bits32, asr, to_int32}
use assembler_project.Encode.CTable.{CEncodingInfo, c_encoding_table}
use assembler_project.Encode.Compressed.Half.{require_c_for_op, c_regp, put, c_build_tags}
use assembler_project.Ir.Opcode.{Opcode, ◌is◌, op_c_mv, op_c_add, op_c_jr, op_c_jalr, op_c_ebreak}
use assembler_project.Pass.{Arch}

-- The operands that the chain of tests refuses.
abbrev pub bad_cr : Opcode → ℕ → ℕ → ℕ → Bool
bad_cr op rd rs1 rs2 =
    if op is op_c_mv && (rd == 0 || rs2 == 0 || rs1 != 0)
    then true
    else if op is op_c_add && (rd == 0 || rs2 == 0 || rs1 != rd)
    then true
    else if op is op_c_jr || op is op_c_jalr
    then rs1 == 0 || rs2 != 0
    else op is op_c_ebreak && (rd != 0 || rs1 != 0 || rs2 != 0)

-- The jumps carry rs1 in the place of rd.
unfoldable pub encode_crtype : Arch → Opcode → ℕ → ℕ → ℕ → Option ℕ
encode_crtype a op rd rs1 rs2 =
    let info = c_encoding_table op in
    let rd' = if op is op_c_jr || op is op_c_jalr then rs1 else rd in
    if not (require_c_for_op a op)
    then none
    else if bad_cr op rd rs1 rs2
    then none
    else some (
        bit_or
          (bit_or
            (bit_or (bit_or (bit_and info.funct3 0x7 << 13) (bit_and info.op12 0x1 << 12))
              (bit_and rd' 0x1f << 7))
            (bit_and rs2 0x1f << 2))
          (bit_and info.quadrant 0x3))

unfoldable pub ca_word : CEncodingInfo → ℕ → ℕ → ℕ
ca_word info rd rs2 =
    bit_or
      (bit_or
        (bit_or
          (bit_or
            (bit_or (bit_or (bit_and info.funct3 0x7 << 13) (bit_and info.op12 0x1 << 12))
              (bit_and info.op11_10 0x3 << 10))
            (bit_and rd 0x7 << 7))
          (bit_and info.op6_5 0x3 << 5))
        (bit_and rs2 0x7 << 2))
      (bit_and info.quadrant 0x3)

unfoldable pub encode_catype : Arch → Opcode → ℕ → ℕ → ℕ → Option ℕ
unfolding ca_word
encode_catype a op rd rs1 rs2 = if not (require_c_for_op a op) then none else elim (c_regp rd) [
  | none ↦ none
  | some rdp ↦ elim (c_regp rs1) [
    | none ↦ none
    | some r1p ↦ elim (c_regp rs2) [
      | none ↦ none
      | some r2p ↦ if rdp != r1p then none else some (ca_word (c_encoding_table op) rdp r2p)
    ]
  ]
]

-- `(imm & 1) != 0 || imm < lo || imm > hi`
abbrev pub bad_displacement : ℤ → ℤ → ℤ → Bool
bad_displacement lo hi imm = bit_and (bits64 imm) 1 != 0 || ltb_ℤ imm lo || ltb_ℤ hi imm

-- The halved displacement `u`, as the branches and the jumps place it.
unfoldable pub put_cb : ℕ → ℕ → ℕ → ℕ
put_cb w r1p u =
    put
      (put
        (put (put (put w 12 12 (bit_and (u >> 7) 0x1)) 11 10 (bit_and (u >> 5) 0x3)) 9 7
          (bit_and r1p 0x7))
        6 3 (bit_and u 0xf))
      2 2 (bit_and (u >> 4) 0x1)

unfoldable pub encode_cbtype : Arch → Opcode → ℕ → ℤ → Option ℕ
unfolding put_cb
encode_cbtype a op rs1 imm = if not (require_c_for_op a op) then none else elim (c_regp rs1) [
  | none ↦ none
  | some r1p ↦
      if bad_displacement (negsuc 255) (pos 254) imm
      then none
      else some (
          put_cb (c_build_tags (c_encoding_table op)) r1p
            (bit_and (bits32 (asr (to_int32 imm) 1)) 0xff))
]

unfoldable pub put_cj : ℕ → ℕ → ℕ
put_cj w u =
    put
      (put
        (put
          (put
            (put
              (put (put (put w 12 12 (bit_and (u >> 10) 0x1)) 11 11 (bit_and (u >> 3) 0x1)) 10 9
                (bit_and (u >> 8) 0x3))
              8 8 (bit_and (u >> 9) 0x1))
            7 7 (bit_and (u >> 6) 0x1))
          6 6 (bit_and (u >> 7) 0x1))
        5 3 (bit_and (u >> 1) 0x7))
      2 2 (bit_and (u >> 5) 0x1)

unfoldable pub encode_cjtype : Arch → Opcode → ℤ → Option ℕ
unfolding put_cj
encode_cjtype a op imm =
    if not (require_c_for_op a op)
    then none
    else if bad_displacement (negsuc 2047) (pos 2046) imm
    then none
    else some (
        put_cj (c_build_tags (c_encoding_table op)) (bit_and (bits32 (asr (to_int32 imm) 1)) 0x7ff))
