-- ===== src/Encode/Table.antt =====
-- `encoding_info_t` and `encoding_table`: the fixed fields of the 32-bit instructions
-- (Assembler/src/pass2.c, Assembler/include/pass2.h). The C table ends at OP_JAL: its rows for the
-- compressed opcodes do not exist and are zero here; no 32-bit format carries such an opcode.
use assembler_project.Base.{ℕ}
use assembler_project.Ir.Opcode.{
  Opcode, op_add, op_sub, op_sll, op_slt, op_sltu, op_xor, op_srl, op_sra, op_or, op_and, op_mul,
  op_mulh, op_mulhsu, op_mulhu, op_div, op_divu, op_rem, op_remu, op_addw, op_subw, op_sllw,
  op_srlw, op_sraw, op_mulw, op_divw, op_divuw, op_remw, op_remuw, op_addi, op_slli, op_lw, op_slti,
  op_sltiu, op_xori, op_ori, op_andi, op_srli, op_srai, op_jalr, op_lb, op_lh, op_lbu, op_lhu,
  op_ecall, op_ebreak, op_addiw, op_slliw, op_srliw, op_sraiw, op_lwu, op_ld, op_auipc, op_lui,
  op_sw, op_sh, op_sb, op_sd, op_beq, op_bne, op_blt, op_bge, op_bltu, op_bgeu, op_jal,
}

pub record EncodingInfo : Type 0 where
  pub opcode : ℕ
  pub funct3 : ℕ
  pub funct7 : ℕ

abbrev pub info : ℕ → ℕ → ℕ → EncodingInfo
info a b c = record { opcode = a; funct3 = b; funct7 = c }

unfoldable pub encoding_table : Opcode → EncodingInfo
encoding_table op_add = info 0x33 0 0
encoding_table op_sub = info 0x33 0 0x20
encoding_table op_sll = info 0x33 0x1 0
encoding_table op_slt = info 0x33 0x2 0
encoding_table op_sltu = info 0x33 0x3 0
encoding_table op_xor = info 0x33 0x4 0
encoding_table op_srl = info 0x33 0x5 0
encoding_table op_sra = info 0x33 0x5 0x20
encoding_table op_or = info 0x33 0x6 0
encoding_table op_and = info 0x33 0x7 0
encoding_table op_mul = info 0x33 0 0x1
encoding_table op_mulh = info 0x33 0x1 0x1
encoding_table op_mulhsu = info 0x33 0x2 0x1
encoding_table op_mulhu = info 0x33 0x3 0x1
encoding_table op_div = info 0x33 0x4 0x1
encoding_table op_divu = info 0x33 0x5 0x1
encoding_table op_rem = info 0x33 0x6 0x1
encoding_table op_remu = info 0x33 0x7 0x1
encoding_table op_addw = info 0x3B 0 0
encoding_table op_subw = info 0x3B 0 0x20
encoding_table op_sllw = info 0x3B 0x1 0
encoding_table op_srlw = info 0x3B 0x5 0
encoding_table op_sraw = info 0x3B 0x5 0x20
encoding_table op_mulw = info 0x3B 0 0x1
encoding_table op_divw = info 0x3B 0x4 0x1
encoding_table op_divuw = info 0x3B 0x5 0x1
encoding_table op_remw = info 0x3B 0x6 0x1
encoding_table op_remuw = info 0x3B 0x7 0x1
encoding_table op_addi = info 0x13 0 0
encoding_table op_slli = info 0x13 0x1 0
encoding_table op_lw = info 0x3 0x2 0
encoding_table op_slti = info 0x13 0x2 0
encoding_table op_sltiu = info 0x13 0x3 0
encoding_table op_xori = info 0x13 0x4 0
encoding_table op_ori = info 0x13 0x6 0
encoding_table op_andi = info 0x13 0x7 0
encoding_table op_srli = info 0x13 0x5 0
encoding_table op_srai = info 0x13 0x5 0x20
encoding_table op_jalr = info 0x67 0 0
encoding_table op_lb = info 0x3 0 0
encoding_table op_lh = info 0x3 0x1 0
encoding_table op_lbu = info 0x3 0x4 0
encoding_table op_lhu = info 0x3 0x5 0
encoding_table op_ecall = info 0x73 0 0
encoding_table op_ebreak = info 0x73 0 0
encoding_table op_addiw = info 0x1B 0 0
encoding_table op_slliw = info 0x1B 0x1 0
encoding_table op_srliw = info 0x1B 0x5 0
encoding_table op_sraiw = info 0x1B 0x5 0x20
encoding_table op_lwu = info 0x3 0x6 0
encoding_table op_ld = info 0x3 0x3 0
encoding_table op_auipc = info 0x17 0 0
encoding_table op_lui = info 0x37 0 0
encoding_table op_sw = info 0x23 0x2 0
encoding_table op_sh = info 0x23 0x1 0
encoding_table op_sb = info 0x23 0 0
encoding_table op_sd = info 0x23 0x3 0
encoding_table op_beq = info 0x63 0 0
encoding_table op_bne = info 0x63 0x1 0
encoding_table op_blt = info 0x63 0x4 0
encoding_table op_bge = info 0x63 0x5 0
encoding_table op_bltu = info 0x63 0x6 0
encoding_table op_bgeu = info 0x63 0x7 0
encoding_table op_jal = info 0x6F 0 0
encoding_table _ = info 0 0 0
