-- ===== src/Encode/Compressed/Immediate.antt =====
-- `encode_citype` (Assembler/src/pass2.c): the compressed instructions with a six-bit immediate, and
-- the loads from the stack.
pub mod Six
use assembler_project.Base.{
  ℕ, bit_and, Bool, not, ◌&&◌, ◌||◌, Option, none, some, ltb, ◌==◌, ◌!=◌, if◌then◌else◌,
}
use assembler_project.Base.Int.{ℤ, pos, negsuc, ltb_ℤ, eqb_ℤ}
use assembler_project.Base.Word.{◌>>◌, bits64, bits32}
use assembler_project.Encode.CTable.{c_encoding_table}
use assembler_project.Encode.Compressed.Half.{require_c_for_op, c_regp, put, c_build_tags}
use assembler_project.Ir.Opcode.{
  Opcode, op_c_addi, op_c_addiw, op_c_lui, op_c_slli, op_c_srli, op_c_srai, op_c_andi, op_c_lwsp,
  op_c_ldsp, op_c_li,
}
use assembler_project.Pass.{Arch}

unfoldable pub put_imm5_0_ci : ℕ → ℕ → ℕ
put_imm5_0_ci w u6 = put (put w 12 12 (bit_and (u6 >> 5) 0x1)) 6 2 (bit_and u6 0x1f)

-- `imm < -32 || imm > 31`
abbrev pub out_of_imm6 : ℤ → Bool
out_of_imm6 imm = ltb_ℤ imm (negsuc 31) || ltb_ℤ (pos 31) imm

-- `imm < 0 || (uint64_t)imm > max_sh`
abbrev pub out_of_shamt : ℕ → ℤ → Bool
out_of_shamt xlen imm = ltb_ℤ imm (pos 0) || ltb (if xlen == 64 then 63 else 31) (bits64 imm)

-- rd in bits [11:7] and the immediate, into the tags `w`.
unfoldable pub rd_imm6 : ℕ → ℕ → ℤ → ℕ
unfolding put_imm5_0_ci
rd_imm6 w rd imm = put_imm5_0_ci (put w 11 7 (bit_and rd 0x1f)) (bit_and (bits64 imm) 0x3f)

-- The case for each opcode, after the check of the target; `w` is the tags.
unfoldable pub ci_case : ℕ → Opcode → ℕ → ℕ → ℕ → ℤ → Option ℕ
unfolding rd_imm6 c_regp
ci_case xlen op_c_addi w rd rs1 imm =
    if rd == 0 && eqb_ℤ imm (pos 0)
    then some (put_imm5_0_ci (put w 11 7 0) 0)
    else if rd == 0
    then none
    else if out_of_imm6 imm
    then none
    else some (rd_imm6 w rd imm)
ci_case xlen op_c_addiw w rd rs1 imm =
    if xlen != 64
    then none
    else if rd == 0
    then none
    else if out_of_imm6 imm
    then none
    else some (rd_imm6 w rd imm)
ci_case xlen op_c_lui w rd rs1 imm =
    if rd == 0 || rd == 2
    then none
    else if eqb_ℤ imm (pos 0) || out_of_imm6 imm
    then none
    else some (rd_imm6 w rd imm)
ci_case xlen op_c_slli w rd rs1 imm =
    if rd == 0
    then none
    else if out_of_shamt xlen imm
    then none
    else some (put_imm5_0_ci (put w 11 7 (bit_and rd 0x1f)) (bit_and (bits32 imm) 0x3f))
ci_case xlen op_c_srli w rd rs1 imm = elim (c_regp rd) [
  | none ↦ none
  | some rp ↦
      if out_of_shamt xlen imm
      then none
      else some (put_imm5_0_ci (put w 9 7 (bit_and rp 0x7)) (bit_and (bits32 imm) 0x3f))
]
ci_case xlen op_c_srai w rd rs1 imm = elim (c_regp rd) [
  | none ↦ none
  | some rp ↦
      if out_of_shamt xlen imm
      then none
      else some (put_imm5_0_ci (put w 9 7 (bit_and rp 0x7)) (bit_and (bits32 imm) 0x3f))
]
ci_case xlen op_c_andi w rd rs1 imm = elim (c_regp rd) [
  | none ↦ none
  | some rp ↦
      if out_of_imm6 imm
      then none
      else some (put_imm5_0_ci (put w 9 7 (bit_and rp 0x7)) (bit_and (bits64 imm) 0x3f))
]
ci_case xlen op_c_lwsp w rd rs1 imm =
    let u = bits32 imm in
    if rs1 != 2
    then none
    else if rd == 0
    then none
    else if ltb_ℤ imm (pos 0) || bit_and (bits64 imm) 0x3 != 0 || ltb_ℤ (pos 252) imm
    then none
    else some (
        put
          (put (put (put w 11 7 (bit_and rd 0x1f)) 12 12 (bit_and (u >> 5) 0x1)) 6 4
            (bit_and (u >> 2) 0x7))
          3 2 (bit_and (u >> 6) 0x3))
ci_case xlen op_c_ldsp w rd rs1 imm =
    let u = bits32 imm in
    if xlen != 64
    then none
    else if rs1 != 2
    then none
    else if rd == 0
    then none
    else if ltb_ℤ imm (pos 0) || bit_and (bits64 imm) 0x7 != 0 || ltb_ℤ (pos 504) imm
    then none
    else some (
        put (put (put w 12 12 (bit_and (u >> 5) 0x1)) 6 5 (bit_and (u >> 3) 0x3)) 4 2
          (bit_and (u >> 6) 0x7))
ci_case xlen op_c_li w rd rs1 imm =
    if rd == 0
    then none
    else if out_of_imm6 imm || eqb_ℤ imm (pos 0)
    then none
    else some (rd_imm6 w rd imm)
ci_case xlen _ w rd rs1 imm = none

unfoldable pub encode_citype : Arch → Opcode → ℕ → ℕ → ℤ → Option ℕ
unfolding ci_case
encode_citype a op rd rs1 imm =
    if not (require_c_for_op a op)
    then none
    else ci_case a.xlen op (c_build_tags (c_encoding_table op)) rd rs1 imm
