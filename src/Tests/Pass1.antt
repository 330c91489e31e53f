-- ===== src/Tests/Pass1.antt =====
-- Pass 1 on a program of one label, one instruction and some data.
use assembler_project.Base.{◌≤◌, ◌≡◌, refl, ◌⊎◌, none, List, [], ◌∷◌, arith, All}
use assembler_project.Base.Int.{pos}
use assembler_project.Ir.Buffer.{ir_append_align}
use assembler_project.Ir.Capacity.{ensure_capacity, ensure_capacity_lem}
use assembler_project.Ir.Entry.{Label, if_r, reloc_none, sec_text, sec_data}
use assembler_project.Ir.Opcode.{op_add}
use assembler_project.Ir.WellFormed.{WellFormed}
use assembler_project.Pass.{start, pass_align_pad, pass_align_to_pow2}
use assembler_project.Pass1.{
  Front, Action, instruction, data_word, space, define, section, acts, act, pass1_initialize,
  pass1_emit_align, pass1_emit_instruction, align_directive,
}
use assembler_project.Pass1.Entries.{pass1-WellFormed}
use assembler_project.Pass1.InStep.{InOrder, pass1-InOrder}
use assembler_project.Pass1.Labels.{search_sym-acts}
use assembler_project.Pass1.Padding.{pass1_emit_align-directive}
use assembler_project.Symtab.{create_symtab, search_sym}
use assembler_project.Symtab.Nodes.{str_eq}
use assembler_project.Tests.Symtab.{isqrt, isqrt-IsSqrt}

abbrev front : Front
front = record { pass = start; symtab = create_symtab; ir = [] }

abbrev label : Label
label = 108 ∷ []

abbrev program : List Action
program =
    instruction op_add if_r 3 1 2 (pos 0) none reloc_none 1
    ∷ (define label
        ∷ (section sec_data ∷ (data_word (pos 7) 4 2 ∷ (space 3 3 ∷ (define label ∷ [])))))

pass1-InOrder_example : InOrder (acts isqrt program (pass1_initialize front))
pass1-InOrder_example =
    pass1-InOrder isqrt program front refl refl (tt, (tt, (tt, (tt, (tt, (tt, tt))))))

pass1-WellFormed_example : All WellFormed (acts isqrt program (pass1_initialize front)).ir
pass1-WellFormed_example = pass1-WellFormed isqrt program front

search_sym-acts_example :
    search_sym (acts isqrt program (pass1_initialize front)).symtab label ≡ pos 4
unfolding str_eq pass1_initialize act pass1_emit_instruction
search_sym-acts_example = search_sym-acts isqrt program front label isqrt-IsSqrt

abbrev begun : Front
begun = record { pass = record start { pc_text = 6 }; symtab = create_symtab; ir = [] }

pass1_emit_align-directive_example :
    ((pass1_emit_align 2 1 begun).pass ≡ (align_directive 2 1 begun).pass)
    × ((pass1_emit_align 2 1 begun).ir ≡ ir_append_align [] sec_text 6 (pass_align_pad 6 2) 1)
    × ((align_directive 2 1 begun).ir ≡ ir_append_align [] sec_text 6 (pass_align_to_pow2 6 2) 1)
pass1_emit_align-directive_example =
    pass1_emit_align-directive 2 1 begun (omega arith) (omega arith)

ensure_capacity_lem_example :
    (300 ≤ ensure_capacity 299 128 1)
    × (128 ≤ ensure_capacity 299 128 1)
    × ((ensure_capacity 299 128 1 ≤ 128)
        ⊎ ((ensure_capacity 299 128 1 ≤ 128) ⊎ (ensure_capacity 299 128 1 ≤ 600)))
ensure_capacity_lem_example = ensure_capacity_lem 299 128 1 (omega arith)
