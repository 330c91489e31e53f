-- ===== src/CRules/MemoryRules.antt =====
-- The rules of c_rules.c for loads, stores, branches and jumps.
use assembler_project.Base.{
  bit_and, Bool, not, ◌&&◌, ◌||◌, Option, none, some, ◌==◌, ◌!=◌, if◌then◌else◌,
}
use assembler_project.Base.Int.{pos, negsuc, ltb_ℤ}
use assembler_project.Base.Word.{bits64}
use assembler_project.Ir.Entry.{Entry, Choice, if_cb, if_ci, if_cj, if_cl, if_cs, if_css}
use assembler_project.Ir.Opcode.{
  ◌is◌, op_lw, op_ld, op_sw, op_sd, op_beq, op_bne, op_jal, op_c_lw, op_c_ld, op_c_sw, op_c_sd,
  op_c_lwsp, op_c_ldsp, op_c_swsp, op_c_sdsp, op_c_beqz, op_c_bnez, op_c_j, op_c_jal,
}
use assembler_project.Pass.{Arch}
use assembler_project.CRules.Rules.{plain, not_prime, not_offset}

abbrev pub bad_cl_load : Entry → Bool
bad_cl_load n =
    (not (n.op is op_lw) && not (n.op is op_ld))
    || (not_prime n.rd || not_prime n.rs1)
    || ltb_ℤ n.imm (pos 0)

unfoldable pub c_map_cl_load : Arch → Entry → Option Choice
c_map_cl_load a n =
    if bad_cl_load n
    then none
    else if n.op is op_lw
    then (if not_offset 0x3 124 n.imm then none else some (plain op_c_lw if_cl n.rd n.rs1 0 n.imm))
    else if a.xlen != 64 || not_offset 0x7 248 n.imm
    then none
    else some (plain op_c_ld if_cl n.rd n.rs1 0 n.imm)

abbrev pub bad_cs_store : Entry → Bool
bad_cs_store n =
    (not (n.op is op_sw) && not (n.op is op_sd))
    || (not_prime n.rs2 || not_prime n.rs1)
    || ltb_ℤ n.imm (pos 0)

unfoldable pub c_map_cs_store : Entry → Option Choice
c_map_cs_store n =
    if bad_cs_store n
    then none
    else if n.op is op_sw
    then (if not_offset 0x3 124 n.imm then none else some (plain op_c_sw if_cs 0 n.rs1 n.rs2 n.imm))
    else if not_offset 0x7 248 n.imm
    then none
    else some (plain op_c_sd if_cs 0 n.rs1 n.rs2 n.imm)

abbrev pub bad_sp_load : Entry → Bool
bad_sp_load n =
    (not (n.op is op_lw) && not (n.op is op_ld)) || (n.rd == 0 || n.rs1 != 2) || ltb_ℤ n.imm (pos 0)

unfoldable pub c_map_ci_sp_load : Arch → Entry → Option Choice
c_map_ci_sp_load a n =
    if bad_sp_load n
    then none
    else if n.op is op_lw
    then (if not_offset 0x3 252 n.imm then none else some (plain op_c_lwsp if_ci n.rd 2 0 n.imm))
    else if a.xlen != 64 || not_offset 0x7 504 n.imm
    then none
    else some (plain op_c_ldsp if_ci n.rd 2 0 n.imm)

abbrev pub bad_sp_store : Entry → Bool
bad_sp_store n =
    (not (n.op is op_sw) && not (n.op is op_sd))
    || (n.rs2 == 0 || n.rs1 != 2)
    || ltb_ℤ n.imm (pos 0)

unfoldable pub c_map_css_sp_store : Entry → Option Choice
c_map_css_sp_store n =
    if bad_sp_store n
    then none
    else if n.op is op_sw
    then (if not_offset 0x3 252 n.imm then none else some (plain op_c_swsp if_css 0 2 n.rs2 n.imm))
    else if not_offset 0x7 504 n.imm
    then none
    else some (plain op_c_sdsp if_css 0 2 n.rs2 n.imm)

-- The two rules that carry the label and the relocation over.
unfoldable pub c_map_cb_branchz : Entry → Option Choice
c_map_cb_branchz n =
    if (not (n.op is op_beq) && not (n.op is op_bne))
      || n.rs2 != 0
      || not_prime n.rs1
      || bit_and (bits64 n.imm) 1 != 0
      || (ltb_ℤ n.imm (negsuc 255) || ltb_ℤ (pos 254) n.imm)
    then none
    else some (record {
      op = if n.op is op_beq then op_c_beqz else op_c_bnez;
      fmt = if_cb;
      rd = 0;
      rs1 = n.rs1;
      rs2 = 0;
      imm = n.imm;
      label = n.label;
      reloc = n.reloc;
    })

unfoldable pub c_map_cj_jump : Arch → Entry → Option Choice
c_map_cj_jump a n =
    if not (n.op is op_jal)
      || (n.rd != 0 && n.rd != 1)
      || (n.rd == 1 && a.xlen != 32)
      || bit_and (bits64 n.imm) 1 != 0
      || (ltb_ℤ n.imm (negsuc 2047) || ltb_ℤ (pos 2046) n.imm)
    then none
    else some (record {
      op = if n.rd == 0 then op_c_j else op_c_jal;
      fmt = if_cj;
      rd = n.rd;
      rs1 = 0;
      rs2 = 0;
      imm = n.imm;
      label = n.label;
      reloc = n.reloc;
    })
