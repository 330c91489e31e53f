-- ===== src/Encode/Compressed/Memory.antt =====
-- `encode_cltype`, `encode_cstype` and `encode_csstype` (Assembler/src/pass2.c): the compressed
-- loads, stores, and stores to the stack.
pub mod Words
pub mod Loads
use assembler_project.Base.{
  ℕ, bit_and, Bool, not, ◌||◌, Option, none, some, ltb, ◌!=◌, if◌then◌else◌,
}
use assembler_project.Base.Int.{ℤ, pos, ltb_ℤ}
use assembler_project.Base.Word.{◌>>◌, bits32}
use assembler_project.Encode.CTable.{c_encoding_table}
use assembler_project.Encode.Compressed.Half.{require_c_for_op, c_regp, put, c_build_tags}
use assembler_project.Ir.Opcode.{
  Opcode, ◌is◌, op_c_lw, op_c_ld, op_c_sw, op_c_sd, op_c_swsp, op_c_sdsp,
}
use assembler_project.Pass.{Arch}

-- `imm < 0 || (u & mask) != 0 || u > top`, for `u = (uint32_t)imm`
abbrev pub bad_offset : ℕ → ℕ → ℤ → Bool
bad_offset mask top imm =
    ltb_ℤ imm (pos 0) || bit_and (bits32 imm) mask != 0 || ltb top (bits32 imm)

-- The offset of a word, offset[5:3|2|6], and of a double word, offset[5:3|7:6].
unfoldable pub put_word_offset : ℕ → ℕ → ℕ
put_word_offset w u =
    put (put (put w 12 10 (bit_and (u >> 3) 0x7)) 6 6 (bit_and (u >> 2) 0x1)) 5 5
      (bit_and (u >> 6) 0x1)

unfoldable pub put_double_offset : ℕ → ℕ → ℕ
put_double_offset w u = put (put w 12 10 (bit_and (u >> 3) 0x7)) 6 5 (bit_and (u >> 6) 0x3)

-- The two three-bit registers of a load or a store.
unfoldable pub put_registers : ℕ → ℕ → ℕ → ℕ
put_registers w r1p r2p = put (put w 9 7 (bit_and r1p 0x7)) 4 2 (bit_and r2p 0x7)

unfoldable pub cl_case : Opcode → ℕ → ℕ → ℕ → ℤ → Option ℕ
unfolding put_word_offset put_double_offset put_registers
cl_case op w r1p rdp imm =
    if op is op_c_lw
    then (if bad_offset 0x3 124 imm
        then none
        else some (put_registers (put_word_offset w (bits32 imm)) r1p rdp))
    else if op is op_c_ld
    then (if bad_offset 0x7 248 imm
        then none
        else some (put_registers (put_double_offset w (bits32 imm)) r1p rdp))
    else none

unfoldable pub encode_cltype : Arch → Opcode → ℕ → ℕ → ℤ → Option ℕ
unfolding cl_case
encode_cltype a op rd rs1 imm = if not (require_c_for_op a op) then none else elim (c_regp rd) [
  | none ↦ none
  | some rdp ↦ elim (c_regp rs1) [
    | none ↦ none
    | some r1p ↦ cl_case op (c_build_tags (c_encoding_table op)) r1p rdp imm
  ]
]

unfoldable pub cs_case : Opcode → ℕ → ℕ → ℕ → ℤ → Option ℕ
unfolding put_word_offset put_double_offset put_registers
cs_case op w r1p r2p imm =
    if op is op_c_sw
    then (if bad_offset 0x3 124 imm
        then none
        else some (put_registers (put_word_offset w (bits32 imm)) r1p r2p))
    else if op is op_c_sd
    then (if bad_offset 0x7 248 imm
        then none
        else some (put_registers (put_double_offset w (bits32 imm)) r1p r2p))
    else none

unfoldable pub encode_cstype : Arch → Opcode → ℕ → ℕ → ℤ → Option ℕ
unfolding cs_case
encode_cstype a op rs1 rs2 imm = if not (require_c_for_op a op) then none else elim (c_regp rs1) [
  | none ↦ none
  | some r1p ↦ elim (c_regp rs2) [
    | none ↦ none
    | some r2p ↦ cs_case op (c_build_tags (c_encoding_table op)) r1p r2p imm
  ]
]

unfoldable pub css_case : Opcode → ℕ → ℕ → ℤ → Option ℕ
css_case op w rs2 imm =
    let u = bits32 imm in
    if op is op_c_swsp
    then (if bad_offset 0x3 252 imm
        then none
        else some (
            put (put (put w 12 12 (bit_and (u >> 7) 0x1)) 6 2 (bit_and (u >> 2) 0x1f)) 11 7
              (bit_and rs2 0x1f)))
    else if op is op_c_sdsp
    then (if bad_offset 0x7 504 imm
        then none
        else some (
            put (put (put w 12 10 (bit_and (u >> 6) 0x7)) 6 2 (bit_and (u >> 3) 0x1f)) 11 7
              (bit_and rs2 0x1f)))
    else none

unfoldable pub encode_csstype : Arch → Opcode → ℕ → ℕ → ℤ → Option ℕ
unfolding css_case
encode_csstype a op rs1 rs2 imm =
    if not (require_c_for_op a op)
    then none
    else if rs1 != 2
    then none
    else css_case op (c_build_tags (c_encoding_table op)) rs2 imm
