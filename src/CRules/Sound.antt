-- ===== src/CRules/Sound.antt =====
-- Every rule replaces an instruction by one with the same meaning.
pub mod Outcome
pub mod Arith
pub mod Memory
use assembler_project.Base.{◌≡◌, some}
use assembler_project.CRules.{c_try_map, ◌or_else◌}
use assembler_project.CRules.Meaning.{meaning, expand, IsSound}
use assembler_project.CRules.Rules.{
  c_map_addi_self, c_map_li_via_addi, c_map_nop, c_map_slli, c_map_srxi_prime, c_map_andi_prime,
  c_map_mv, c_map_add_cr, c_map_jr, c_map_jalr, c_map_ebreak, c_map_ca_alu, c_map_caw_alu64,
}
use assembler_project.CRules.MemoryRules.{
  bad_cl_load, bad_cs_store, bad_sp_load, bad_sp_store, c_map_cl_load, c_map_cs_store,
  c_map_ci_sp_load, c_map_css_sp_store, c_map_cb_branchz, c_map_cj_jump,
}
use assembler_project.Ir.Entry.{Entry, Choice}
use assembler_project.Ir.Opcode.{
  Opcode, ◌is◌, is_eq, op_addi, op_slli, op_srai, op_srli, op_andi, op_add, op_jalr, op_ebreak,
  op_sub, op_xor, op_or, op_and, op_subw, op_addw, op_lw, op_ld, op_sw, op_sd, op_beq, op_bne,
  op_jal,
}
use assembler_project.Pass.{Arch}
use mathlib.Core.Path.{subst}
use mathlib.Core.Option.{some-injective}
use assembler_project.CRules.Sound.Outcome.{Yields, stored, branch, within, past, or_else-Yields}
use assembler_project.CRules.Sound.Arith.{
  addi_self_lem, li_via_addi_lem, nop_lem, slli_lem, andi_prime_lem, mv_lem, add_cr_lem, jr_lem,
  jalr_lem, ebreak_lem, srxi_prime_lem, caw_alu64_lem, ca_alu_lem,
}
use assembler_project.CRules.Sound.Memory.{
  cl_load_lem, cs_store_lem, ci_sp_load_lem, css_sp_store_lem, cb_branchz_lem, cj_jump_lem,
}

-- Whatever the rules choose for an instruction is a 16-bit form, and the manual expands it to an
-- instruction with the same opcode and the same operands that count; a label is dropped or goes along
-- with its relocation.
pub c_try_map-IsSound :
    (a : Arch) (n : Entry) (ch : Choice) → c_try_map a n ≡ some ch → IsSound n ch
unfolding c_try_map
c_try_map-IsSound a n = or_else-Yields n _ _ (addi_self_lem n) (
    or_else-Yields n _ _ (li_via_addi_lem n) (
      or_else-Yields n _ _ (nop_lem n) (
        or_else-Yields n _ _ (slli_lem a n) (
          or_else-Yields n _ _ (srxi_prime_lem a n) (
            or_else-Yields n _ _ (andi_prime_lem n) (
              or_else-Yields n _ _ (mv_lem n) (
                or_else-Yields n _ _ (add_cr_lem n) (
                  or_else-Yields n _ _ (jr_lem n) (
                    or_else-Yields n _ _ (jalr_lem n) (
                      or_else-Yields n _ _ (ebreak_lem n) (
                        or_else-Yields n _ _ (ca_alu_lem n) (
                          or_else-Yields n _ _ (caw_alu64_lem a n) (
                            or_else-Yields n _ _ (cl_load_lem a n) (
                              or_else-Yields n _ _ (cs_store_lem n) (
                                or_else-Yields n _ _ (ci_sp_load_lem a n) (
                                  or_else-Yields n _ _ (css_sp_store_lem n) (
                                    or_else-Yields n _ _ (cb_branchz_lem n)
                                      (cj_jump_lem a n))))))))))))))))))
