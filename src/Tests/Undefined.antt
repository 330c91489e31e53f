-- ===== src/Tests/Undefined.antt =====
-- A jump to a label that is not defined.
use assembler_project.Base.{◌≡◌, refl, inl, false, some, [], ◌∷◌}
use assembler_project.Base.Int.{pos}
use assembler_project.Emit.{c_materialize, pass2_run}
use assembler_project.Emit.Undefined.{Uses, pass2_run-undefined}
use assembler_project.Ir.Buffer.{new_instr}
use assembler_project.Ir.Entry.{Entry, Label, if_j, reloc_jtgt, sec_text}
use assembler_project.Ir.Opcode.{op_jal}
use assembler_project.Pass.{start}
use assembler_project.Tests.Emit.{begun, no_labels, no_file}

abbrev target : Label
target = 120 ∷ []

abbrev jump : Entry
jump = new_instr op_jal if_j 1 0 0 (pos 0) (some target) reloc_jtgt sec_text 0 4 1

jump-Uses : Uses target (jump ∷ [])
unfolding c_materialize new_instr
jump-Uses = inl (refl, refl)

pass2_run-undefined_example : (pass2_run no_file start.arch no_labels (jump ∷ []) begun).0 ≡ false
pass2_run-undefined_example =
    pass2_run-undefined no_file start.arch no_labels (jump ∷ []) begun target refl jump-Uses refl
