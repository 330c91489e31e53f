-- ===== src/CRules.antt =====
-- The choice of a compressed form for a 32-bit instruction (Assembler/src/c_rules.c). A rule's
-- `none` is `return false`, which leaves `out` as it was; `some ch` is what it stores in `out`.
pub mod Rules
pub mod MemoryRules
pub mod Meaning
pub mod Sound
use assembler_project.Base.{Option, none, some}
use assembler_project.CRules.Rules.{
  c_map_addi_self, c_map_li_via_addi, c_map_nop, c_map_slli, c_map_srxi_prime, c_map_andi_prime,
  c_map_mv, c_map_add_cr, c_map_jr, c_map_jalr, c_map_ebreak, c_map_ca_alu, c_map_caw_alu64,
}
use assembler_project.CRules.MemoryRules.{
  c_map_cl_load, c_map_cs_store, c_map_ci_sp_load, c_map_css_sp_store, c_map_cb_branchz,
  c_map_cj_jump,
}
use assembler_project.Ir.Entry.{Entry, Choice}
use assembler_project.Pass.{Arch}

infixr 30 ◌or_else◌
-- `||` on rules: the first that succeeds has filled in the choice.
abbrev pub ◌or_else◌ : Option Choice → Option Choice → Option Choice
none or_else c = c
some ch or_else c = some ch

unfoldable pub c_try_map : Arch → Entry → Option Choice
c_try_map a n =
    c_map_addi_self n
    or_else c_map_li_via_addi n
    or_else c_map_nop n
    or_else c_map_slli a n
    or_else c_map_srxi_prime a n
    or_else c_map_andi_prime n
    or_else c_map_mv n
    or_else c_map_add_cr n
    or_else c_map_jr n
    or_else c_map_jalr n
    or_else c_map_ebreak n
    or_else c_map_ca_alu n
    or_else c_map_caw_alu64 a n
    or_else c_map_cl_load a n
    or_else c_map_cs_store n
    or_else c_map_ci_sp_load a n
    or_else c_map_css_sp_store n
    or_else c_map_cb_branchz n
    or_else c_map_cj_jump a n
