-- ===== src/Tests/CRules.antt =====
-- The rules for compressed forms at concrete instructions.
use assembler_project.Base.{◌≡◌, refl, none, some}
use assembler_project.Base.Int.{pos, negsuc}
use assembler_project.CRules.{c_try_map}
use assembler_project.CRules.Meaning.{IsSound}
use assembler_project.CRules.Rules.{
  plain, c_map_addi_self, c_map_li_via_addi, c_map_nop, c_map_slli, c_map_srxi_prime,
  c_map_andi_prime, c_map_mv, c_map_add_cr, c_map_jr, c_map_jalr, c_map_ebreak, c_map_ca_alu,
}
use assembler_project.CRules.Sound.{c_try_map-IsSound}
use assembler_project.Ir.Buffer.{new_instr}
use assembler_project.Ir.Entry.{Entry, if_r, if_i, if_ci, if_ca, reloc_none, sec_text}
use assembler_project.Ir.Opcode.{index, op_addi, op_sub, op_c_addi, op_c_sub}
use assembler_project.Pass.{Arch, start}

abbrev rv32 : Arch
rv32 = start.arch

-- addi x5, x5, -3
abbrev small_add : Entry
small_add = new_instr op_addi if_i 5 5 0 (negsuc 2) none reloc_none sec_text 0 4 1

-- sub x8, x8, x9
abbrev small_sub : Entry
small_sub = new_instr op_sub if_r 8 8 9 (pos 0) none reloc_none sec_text 0 4 1

adds : c_try_map rv32 small_add ≡ some (plain op_c_addi if_ci 5 5 0 (negsuc 2))
unfolding c_try_map new_instr index c_map_addi_self
adds = refl

subtracts : c_try_map rv32 small_sub ≡ some (plain op_c_sub if_ca 8 8 9 (pos 0))
unfolding c_try_map new_instr index c_map_addi_self c_map_li_via_addi c_map_nop c_map_slli
    c_map_srxi_prime c_map_andi_prime c_map_mv c_map_add_cr c_map_jr c_map_jalr c_map_ebreak
    c_map_ca_alu
subtracts = refl

c_try_map-IsSound_example : IsSound small_sub (plain op_c_sub if_ca 8 8 9 (pos 0))
c_try_map-IsSound_example =
    c_try_map-IsSound rv32 small_sub (plain op_c_sub if_ca 8 8 9 (pos 0)) subtracts
