-- ===== src/Tests/Layout.antt =====
-- The layout of a jump to a label at address 100, for which c.j is chosen.
use assembler_project.Base.{◌≡◌, refl, some, List, [], ◌∷◌, All, arith, true}
use assembler_project.Base.Int.{ℤ, pos}
use assembler_project.Ir.Buffer.{new_instr}
use assembler_project.Ir.Entry.{Entry, Choice, Label, if_j, if_cj, reloc_jtgt, sec_text}
use assembler_project.Ir.Opcode.{op_jal, op_c_j}
use assembler_project.Layout.{pass2_relayout_and_validate}
use assembler_project.Layout.Places.{Laid}
use assembler_project.Layout.Reach.{Reaches}
use assembler_project.Layout.Rounds.{pass2_relayout_and_validate-ends}
use assembler_project.Layout.Settled.{
  pass2_relayout_and_validate-Laid, pass2_relayout_and_validate-Reaches,
}
use assembler_project.Pass.{Arch, start}

abbrev rv32c : Arch
rv32c = record (start.arch) { ext_c = true; auto_c = true }

abbrev at_100 : Label → ℤ
at_100 l = pos 100

abbrev near_jump : Choice
near_jump = record {
  op = op_c_j;
  fmt = if_cj;
  rd = 0;
  rs1 = 0;
  rs2 = 0;
  imm = pos 0;
  label = some (97 ∷ []);
  reloc = reloc_jtgt;
}

abbrev one_jump : List Entry
one_jump =
    record (new_instr op_jal if_j 0 0 0 (pos 0) (some (97 ∷ [])) reloc_jtgt sec_text 0 4 1) {
      has_c_choice = true;
      choice = near_jump;
    }
    ∷ []

pass2_relayout_and_validate-ends_example :
    (pass2_relayout_and_validate rv32c at_100 sec_text 8 one_jump).0 ≡ true
unfolding new_instr
pass2_relayout_and_validate-ends_example =
    pass2_relayout_and_validate-ends rv32c at_100 sec_text 8 one_jump (omega arith)

pass2_relayout_and_validate-Laid_example :
    Laid sec_text 0 ((pass2_relayout_and_validate rv32c at_100 sec_text 8 one_jump).1)
pass2_relayout_and_validate-Laid_example =
    pass2_relayout_and_validate-Laid rv32c at_100 sec_text 8 one_jump
      pass2_relayout_and_validate-ends_example

pass2_relayout_and_validate-Reaches_example :
    All (Reaches at_100 sec_text) ((pass2_relayout_and_validate rv32c at_100 sec_text 8 one_jump).1)
pass2_relayout_and_validate-Reaches_example =
    pass2_relayout_and_validate-Reaches rv32c at_100 sec_text 8 one_jump refl refl
      pass2_relayout_and_validate-ends_example
