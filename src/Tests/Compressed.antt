-- ===== src/Tests/Compressed.antt =====
-- The 16-bit encoders at concrete operands.
use assembler_project.Base.{ℕ, ◌≡◌, true, arith, refl}
use assembler_project.Base.Int.{pos, negsuc}
use assembler_project.Encode.CTable.{c_encoding_table}
use assembler_project.Encode.Compressed.Control.{encode_catype}
use assembler_project.Encode.Compressed.Control.Registers.{
  decode_ca, ca_fields, encode_catype-decode,
}
use assembler_project.Encode.Compressed.Immediate.{encode_citype}
use assembler_project.Encode.Compressed.Immediate.Six.{decode_ci, ci_fields, encode_citype-decode}
use assembler_project.Encode.Compressed.Half.{require_c_for_op}
use assembler_project.Encode.Compressed.Memory.{encode_cltype, encode_cstype}
use assembler_project.Encode.Compressed.Memory.Loads.{
  IsOffset, memory_fields, encode_cltype-decode_word, encode_cltype-decode_double,
  encode_cstype-decode_word, encode_cstype-decode_double,
}
use assembler_project.Encode.Compressed.Memory.Words.{decode_word, decode_double}
use assembler_project.Encode.Isa.{Accepts, IsIn}
use assembler_project.Ir.Opcode.{op_c_lw, op_c_ld, op_c_sw, op_c_sd, op_c_sub, op_c_addi}
use assembler_project.Pass.{Arch, start}

abbrev rv64c : Arch
rv64c = record (start.arch) { xlen = 64; ext_c = true }

encode_cltype-decode_word_example :
    Accepts
      (IsOffset 4 124 (pos 68))
      (λ h. decode_word h ≡ memory_fields 2 8 9 (pos 68))
      (encode_cltype rv64c op_c_lw 9 8 (pos 68))
unfolding require_c_for_op c_encoding_table
encode_cltype-decode_word_example =
    encode_cltype-decode_word rv64c 8 9 (pos 68) refl (omega arith, omega arith)
      (omega arith, omega arith) (omega arith)

encode_cltype-decode_double_example :
    Accepts
      (IsOffset 8 248 (pos 72))
      (λ h. decode_double h ≡ memory_fields 3 8 9 (pos 72))
      (encode_cltype rv64c op_c_ld 9 8 (pos 72))
unfolding require_c_for_op c_encoding_table
encode_cltype-decode_double_example =
    encode_cltype-decode_double rv64c 8 9 (pos 72) refl (omega arith, omega arith)
      (omega arith, omega arith) (omega arith)

encode_cstype-decode_word_example :
    Accepts
      (IsOffset 4 124 (pos 68))
      (λ h. decode_word h ≡ memory_fields 6 8 9 (pos 68))
      (encode_cstype rv64c op_c_sw 8 9 (pos 68))
unfolding require_c_for_op c_encoding_table
encode_cstype-decode_word_example =
    encode_cstype-decode_word rv64c 8 9 (pos 68) refl (omega arith, omega arith)
      (omega arith, omega arith) (omega arith)

encode_cstype-decode_double_example :
    Accepts
      (IsOffset 8 248 (pos 72))
      (λ h. decode_double h ≡ memory_fields 7 8 9 (pos 72))
      (encode_cstype rv64c op_c_sd 8 9 (pos 72))
unfolding require_c_for_op c_encoding_table
encode_cstype-decode_double_example =
    encode_cstype-decode_double rv64c 8 9 (pos 72) refl (omega arith, omega arith)
      (omega arith, omega arith) (omega arith)

abbrev rd8 : ℕ
rd8 = 8

encode_catype-decode_example :
    Accepts
      (rd8 ≡ 8)
      (λ h. decode_ca h ≡ ca_fields op_c_sub 8 9)
      (encode_catype rv64c op_c_sub 8 8 9)
unfolding require_c_for_op c_encoding_table
encode_catype-decode_example =
    encode_catype-decode rv64c op_c_sub 8 8 9 refl (omega arith, omega arith)
      (omega arith, omega arith) (omega arith, omega arith)

encode_citype-decode_example :
    Accepts
      (IsIn (negsuc 31) (pos 31) (negsuc 16))
      (λ h. decode_ci h ≡ ci_fields 0 5 (negsuc 16) 1)
      (encode_citype rv64c op_c_addi 5 5 (negsuc 16))
unfolding require_c_for_op c_encoding_table
encode_citype-decode_example =
    encode_citype-decode rv64c 5 5 (negsuc 16) refl (omega arith) (omega arith)
