-- ===== src/Encode/Compressed.antt =====
-- The encoders of the 16-bit formats (Assembler/src/pass2.c). `none` is the exit that prints an
-- error, sets `had_error` and returns false; `some h` stores `h` through `out` and returns true.
pub mod Half
pub mod Immediate
pub mod Memory
pub mod Control
use assembler_project.Base.{ℕ, Option, none}
use assembler_project.Base.Int.{ℤ}
use assembler_project.Encode.Compressed.Control.{
  encode_crtype, encode_catype, encode_cbtype, encode_cjtype,
}
use assembler_project.Encode.Compressed.Immediate.{encode_citype}
use assembler_project.Encode.Compressed.Memory.{encode_cltype, encode_cstype, encode_csstype}
use assembler_project.Ir.Entry.{Fmt, if_ca, if_cb, if_ci, if_cj, if_cl, if_cr, if_cs, if_css}
use assembler_project.Ir.Opcode.{Opcode}
use assembler_project.Pass.{Arch}

unfoldable pub c_encode_instruction : Arch → Opcode → Fmt → ℕ → ℕ → ℕ → ℤ → Option ℕ
unfolding encode_catype encode_citype encode_crtype encode_cstype encode_csstype encode_cbtype
    encode_cjtype encode_cltype
c_encode_instruction a op if_ca rd rs1 rs2 imm = encode_catype a op rd rs1 rs2
c_encode_instruction a op if_ci rd rs1 rs2 imm = encode_citype a op rd rs1 imm
c_encode_instruction a op if_cr rd rs1 rs2 imm = encode_crtype a op rd rs1 rs2
c_encode_instruction a op if_cs rd rs1 rs2 imm = encode_cstype a op rs1 rs2 imm
c_encode_instruction a op if_css rd rs1 rs2 imm = encode_csstype a op rs1 rs2 imm
c_encode_instruction a op if_cb rd rs1 rs2 imm = encode_cbtype a op rs1 imm
c_encode_instruction a op if_cj rd rs1 rs2 imm = encode_cjtype a op imm
c_encode_instruction a op if_cl rd rs1 rs2 imm = encode_cltype a op rd rs1 imm
c_encode_instruction a op _ rd rs1 rs2 imm = none
