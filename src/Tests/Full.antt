-- ===== src/Tests/Full.antt =====
-- The 32-bit encoders and the alignment of addresses at concrete inputs.
use assembler_project.Base.{ℕ, ◌+◌, ◌%◌, ◌^◌, ◌≤◌, ◌<◌, ◌≡◌, refl, some, arith}
use assembler_project.Base.Int.{pos, negsuc}
use assembler_project.Encode.Full.{
  encode_rtype, encode_itype, encode_stype, encode_btype, encode_jtype, encode_uitype,
  encode_instruction,
}
use assembler_project.Encode.Full.Fields.{s_fields}
use assembler_project.Encode.Full.Immediates.{
  i_fields, encode_rtype-decode, encode_stype-decode, encode_itype-decode,
}
use assembler_project.Encode.Full.Offsets.{
  encode_btype-decode, encode_jtype-decode, encode_uitype-decode,
}
use assembler_project.Encode.Full.Shifts.{encode_itype-shift, encode_itype-system, WideShift}
use assembler_project.Encode.Isa.{
  Accepts, IsIn, IsMultiple, decode_r, decode_s, decode_b, decode_j, decode_u, decode_i,
}
use assembler_project.Encode.Table.{encoding_table}
use assembler_project.Ir.Opcode.{
  index, op_add, op_sw, op_addi, op_beq, op_jal, op_lui, op_srai, op_ecall, op_ebreak,
}
use assembler_project.Ir.Entry.{if_r, if_i, if_b}
use assembler_project.Pass.{pass_align_to_pow2, pass_align_pad}
use assembler_project.Pass.Align.{pass_align_lem}

-- add x3, x1, x2; addi x1, x0, -1; beq x0, x0, -4
three_words :
    (encode_instruction 32 op_add if_r 3 1 2 (pos 0) ≡ some 0x002081b3)
    × (encode_instruction 32 op_addi if_i 1 0 0 (negsuc 0) ≡ some 0xfff00093)
    × (encode_instruction 32 op_beq if_b 0 0 0 (negsuc 3) ≡ some 0xfe000ee3)
unfolding encode_instruction index encoding_table
three_words = (refl, refl, refl)

encode_rtype-decode_example :
    (w : ℕ) × (encode_rtype op_add 3 1 2 ≡ some w)
    × (decode_r w ≡ record {
      opcode = (encoding_table op_add).opcode;
      rd = 3;
      funct3 = (encoding_table op_add).funct3;
      rs1 = 1;
      rs2 = 2;
      funct7 = (encoding_table op_add).funct7;
    })
encode_rtype-decode_example =
    encode_rtype-decode op_add 3 1 2 (omega arith) (omega arith) (omega arith)

pass_align_lem_example :
    (5 ≤ pass_align_to_pow2 5 3)
    × (pass_align_to_pow2 5 3 < 5 + 2 ^ 3)
    × (pass_align_to_pow2 5 3 % 2 ^ 3 ≡ 0)
    × (5 + pass_align_pad 5 3 ≡ pass_align_to_pow2 5 3)
pass_align_lem_example = pass_align_lem 5 3 (omega arith) (omega arith)

encode_stype-decode_example :
    Accepts
      (IsIn (negsuc 2047) (pos 2047) (negsuc 7))
      (λ w. decode_s w ≡ s_fields op_sw 2 8 (negsuc 7))
      (encode_stype op_sw 2 8 (negsuc 7))
encode_stype-decode_example = encode_stype-decode op_sw 2 8 (negsuc 7) (omega arith) (omega arith)

encode_itype-decode_example :
    Accepts
      (IsIn (negsuc 2047) (pos 2047) (pos 5000))
      (λ w. decode_i w ≡ i_fields op_addi 1 2 (pos 5000))
      (encode_itype 32 op_addi 1 2 (pos 5000))
encode_itype-decode_example =
    encode_itype-decode 32 op_addi 1 2 (pos 5000) (unfold index in refl) (unfold index in refl)
      (omega arith) (omega arith)

encode_btype-decode_example :
    Accepts
      (IsMultiple 2 (negsuc 3) × IsIn (negsuc 4095) (pos 4094) (negsuc 3))
      (λ w. decode_b w ≡ s_fields op_beq 8 0 (negsuc 3))
      (encode_btype op_beq 8 0 (negsuc 3))
encode_btype-decode_example = encode_btype-decode op_beq 8 0 (negsuc 3) (omega arith) (omega arith)

encode_jtype-decode_example :
    Accepts
      (IsMultiple 2 (pos 2048) × IsIn (negsuc 1048575) (pos 1048574) (pos 2048))
      (λ w. decode_j w ≡ record { opcode = (encoding_table op_jal).opcode; rd = 1; imm = pos 2048 })
      (encode_jtype op_jal 1 (pos 2048))
encode_jtype-decode_example = encode_jtype-decode op_jal 1 (pos 2048) (omega arith)

encode_uitype-decode_example :
    Accepts
      (IsMultiple 4096 (pos 8192) × IsIn (negsuc 2147483647) (pos 2147483647) (pos 8192))
      (λ w. decode_u w ≡ record { opcode = (encoding_table op_lui).opcode; rd = 1; imm = pos 8192 })
      (encode_uitype op_lui 1 (pos 8192))
encode_uitype-decode_example = encode_uitype-decode op_lui 1 (pos 8192) (omega arith)

encode_itype-shift_example :
    Accepts
      (IsIn (pos 0) (pos 63) (pos 40))
      (WideShift 64 op_srai 5 6 (pos 40))
      (encode_itype 64 op_srai 5 6 (pos 40))
unfolding index
encode_itype-shift_example =
    encode_itype-shift 64 op_srai 5 6 (pos 40) refl (omega arith) (omega arith) (omega arith)

encode_itype-system_example :
    (encode_itype 32 op_ecall 7 7 (pos 9) ≡ some 0x00000073)
    × (encode_itype 32 op_ebreak 7 7 (pos 9) ≡ some 0x00100073)
encode_itype-system_example = encode_itype-system 32 7 7 (pos 9)
