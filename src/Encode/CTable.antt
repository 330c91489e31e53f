-- ===== src/Encode/CTable.antt =====
-- `c_encoding_info_t` and `c_encoding_table`: the fixed fields of the compressed instructions
-- (Assembler/src/pass2.c, Assembler/include/pass2.h). A row that the C table does not list is zero.
use assembler_project.Base.{ℕ}
use assembler_project.Ir.Entry.{Fmt, if_r, if_ca, if_cb, if_ci, if_cj, if_cl, if_cr, if_cs, if_css}
use assembler_project.Ir.Opcode.{
  Opcode, op_c_sub, op_c_xor, op_c_or, op_c_and, op_c_subw, op_c_addw, op_c_add, op_c_jalr,
  op_c_ebreak, op_c_jr, op_c_mv, op_c_addi, op_c_addiw, op_c_srli, op_c_srai, op_c_andi, op_c_lui,
  op_c_lwsp, op_c_ldsp, op_c_slli, op_c_li, op_c_lw, op_c_ld, op_c_sw, op_c_sd, op_c_beqz,
  op_c_bnez, op_c_jal, op_c_j, op_c_swsp, op_c_sdsp,
}

abbrev pub c_any : ℕ
c_any = 0xff

-- `c_rv_mask_t`
abbrev pub c_rv_32 : ℕ
c_rv_32 = 1

abbrev pub c_rv_64 : ℕ
c_rv_64 = 2

abbrev pub c_rv_any : ℕ
c_rv_any = 3

pub record CEncodingInfo : Type 0 where
  pub fmt : Fmt
  pub quadrant : ℕ
  pub funct3 : ℕ
  pub op12 : ℕ
  pub op11_10 : ℕ
  pub op6_5 : ℕ
  pub rv_req : ℕ
  pub needs_c : ℕ

abbrev pub c_info : Fmt → ℕ → ℕ → ℕ → ℕ → ℕ → ℕ → ℕ → CEncodingInfo
c_info f q f3 b12 b11_10 b6_5 rv n = record {
  fmt = f;
  quadrant = q;
  funct3 = f3;
  op12 = b12;
  op11_10 = b11_10;
  op6_5 = b6_5;
  rv_req = rv;
  needs_c = n;
}

unfoldable pub c_encoding_table : Opcode → CEncodingInfo
c_encoding_table op_c_sub = c_info if_ca 0x1 0x4 0x1 0x3 0x0 c_rv_any 1
c_encoding_table op_c_xor = c_info if_ca 0x1 0x4 0x1 0x3 0x1 c_rv_any 1
c_encoding_table op_c_or = c_info if_ca 0x1 0x4 0x1 0x3 0x2 c_rv_any 1
c_encoding_table op_c_and = c_info if_ca 0x1 0x4 0x1 0x3 0x3 c_rv_any 1
c_encoding_table op_c_subw = c_info if_ca 0x1 0x4 0x1 0x1 0x0 c_rv_64 1
c_encoding_table op_c_addw = c_info if_ca 0x1 0x4 0x1 0x1 0x1 c_rv_64 1
c_encoding_table op_c_add = c_info if_cr 0x2 0x4 0x1 c_any c_any c_rv_any 1
c_encoding_table op_c_jalr = c_info if_cr 0x2 0x4 0x1 c_any c_any c_rv_any 1
c_encoding_table op_c_ebreak = c_info if_cr 0x2 0x4 0x1 c_any c_any c_rv_any 1
c_encoding_table op_c_jr = c_info if_cr 0x2 0x4 0x0 c_any c_any c_rv_any 1
c_encoding_table op_c_mv = c_info if_cr 0x2 0x4 0x0 c_any c_any c_rv_any 1
c_encoding_table op_c_addi = c_info if_ci 0x1 0x0 c_any c_any c_any c_rv_any 1
c_encoding_table op_c_addiw = c_info if_ci 0x1 0x1 c_any c_any c_any c_rv_64 1
c_encoding_table op_c_srli = c_info if_ci 0x1 0x4 c_any 0x0 c_any c_rv_any 1
c_encoding_table op_c_srai = c_info if_ci 0x1 0x4 c_any 0x1 c_any c_rv_any 1
c_encoding_table op_c_andi = c_info if_ci 0x1 0x4 c_any 0x2 c_any c_rv_any 1
c_encoding_table op_c_lui = c_info if_ci 0x1 0x3 c_any c_any c_any c_rv_any 1
c_encoding_table op_c_lwsp = c_info if_ci 0x2 0x2 c_any c_any c_any c_rv_any 1
c_encoding_table op_c_ldsp = c_info if_ci 0x2 0x3 c_any c_any c_any c_rv_64 1
c_encoding_table op_c_slli = c_info if_ci 0x2 0x0 c_any c_any c_any c_rv_any 1
c_encoding_table op_c_li = c_info if_ci 0x1 0x2 c_any c_any c_any c_rv_any 1
c_encoding_table op_c_lw = c_info if_cl 0x0 0x2 c_any c_any c_any c_rv_any 1
c_encoding_table op_c_ld = c_info if_cl 0x0 0x3 c_any c_any c_any c_rv_64 1
c_encoding_table op_c_sw = c_info if_cs 0x0 0x6 c_any c_any c_any c_rv_any 1
c_encoding_table op_c_sd = c_info if_cs 0x0 0x7 c_any c_any c_any c_rv_64 1
c_encoding_table op_c_beqz = c_info if_cb 0x1 0x6 c_any c_any c_any c_rv_any 1
c_encoding_table op_c_bnez = c_info if_cb 0x1 0x7 c_any c_any c_any c_rv_any 1
c_encoding_table op_c_jal = c_info if_cj 0x1 0x1 c_any c_any c_any c_rv_32 1
c_encoding_table op_c_j = c_info if_cj 0x1 0x5 c_any c_any c_any c_rv_any 1
c_encoding_table op_c_swsp = c_info if_css 0x2 0x6 c_any c_any c_any c_rv_any 1
c_encoding_table op_c_sdsp = c_info if_css 0x2 0x7 c_any c_any c_any c_rv_64 1
c_encoding_table _ = c_info if_r 0 0 0 0 0 0 0
