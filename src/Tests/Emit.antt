-- ===== src/Tests/Emit.antt =====
-- The emission of an ELF file with two instructions, and the halves of a pc-relative address.
use assembler_project.Base.{ℕ, ◌%◌, ◌≡◌, refl, sym, none, List, [], ◌∷◌, arith, true, false}
use assembler_project.Base.Int.{ℤ, pos, negsuc, ◌+ℤ◌, ◌-ℤ◌, ◌≤ℤ◌}
use assembler_project.Base.Word.{bits32}
use mathlib.Core.Bool.{false≢true}
use assembler_project.Encode.Full.{encode_instruction}
use assembler_project.Emit.{
  Emit, emit_entries, emit_entry, emit_kind, pass2_emit_node, pass2_emit_instr, c_materialize,
  encode_word,
}
use assembler_project.Emit.Resolve.{relocate, operand, require_for_op}
use assembler_project.Emit.Place.{emit_entries-addr}
use assembler_project.Emit.{lay_out}
use assembler_project.Emit.Whole.{lay_out-WellFormed, lay_out-Laid, IsSettled}
use assembler_project.Layout.{
  pass2_assign_addresses, assign_from, place, pass2_plan_choices, plan_entries,
}
use assembler_project.Layout.Rounds.{pass2_relayout_and_validate-ends}
use assembler_project.Base.{All}
use assembler_project.Pass.{Arch}
use assembler_project.Emit.Run.{Ready}
use assembler_project.Emit.Relocs.{relocate-halves}
use assembler_project.Ir.Buffer.{new_instr, ir_is_explicit_c}
use assembler_project.Ir.Entry.{
  Entry, Label, if_r, reloc_none, sec_text, sec_data, reloc_hi20, reloc_lo12,
}
use assembler_project.Ir.Opcode.{op_add}
use assembler_project.Ir.WellFormed.{WellFormed, new_instr-WellFormed}
use assembler_project.Layout.{pass2_node_size_now}
use assembler_project.Layout.Places.{Laid}
use assembler_project.Out.{out_begin, out_elf, write_word_le}
use assembler_project.Out.Bytes.{held}
use assembler_project.Pass.{start}

abbrev first : Entry
first = new_instr op_add if_r 3 1 2 (pos 0) none reloc_none sec_text 0 4 1

abbrev second : Entry
second = new_instr op_add if_r 4 3 2 (pos 0) none reloc_none sec_text 4 4 2

abbrev pub begun : Emit
begun = record {
  had_error = false;
  outfile = true;
  out_section = sec_text;
  seen_text = true;
  out = out_begin out_elf 32;
}

abbrev pub no_labels : Label → ℤ
no_labels l = negsuc 0

abbrev pub no_file : List ℕ → List ℕ → ℕ
no_file f bytes = 0

begun-Ready : Ready begun
unfolding out_begin
begun-Ready = record { elf = refl; cur = refl }

first_ok : (emit_entries no_file start.arch no_labels (first ∷ []) begun).0 ≡ true
unfolding emit_entries new_instr emit_entry emit_kind pass2_emit_node pass2_emit_instr c_materialize
    require_for_op encode_word operand encode_instruction write_word_le out_begin
first_ok = refl

first-Laid : Laid sec_text 0 (first ∷ second ∷ [])
unfolding new_instr pass2_node_size_now ir_is_explicit_c
first-Laid =
    (λ h. absurd (false≢true (sym h)), λ h. ((refl, refl), (λ h. tt, λ h. ((refl, refl), tt))))

emit_entries-addr_example :
    held sec_text (emit_entries no_file start.arch no_labels (first ∷ []) begun).1.out ≡ 4
unfolding new_instr out_begin c_materialize
emit_entries-addr_example =
    emit_entries-addr no_file start.arch no_labels (first ∷ []) second [] begun
      (
        new_instr-WellFormed op_add if_r 3 1 2 (pos 0) none reloc_none sec_text 0 4 1,
        (new_instr-WellFormed op_add if_r 4 3 2 (pos 0) none reloc_none sec_text 4 4 2, tt),
      )
      first-Laid (omega arith) begun-Ready refl first_ok

-- A target 0x12ffe bytes ahead of the instruction at 0x1000.
relocate-halves_example :
    (relocate reloc_hi20 (pos 0x13ffe) 0x1000 +ℤ relocate reloc_lo12 (pos 0x13ffe) 0x1000
      ≡ pos 0x13ffe -ℤ pos 0x1000)
    × (negsuc 2047 ≤ℤ relocate reloc_lo12 (pos 0x13ffe) 0x1000)
    × (relocate reloc_lo12 (pos 0x13ffe) 0x1000 ≤ℤ pos 2047)
    × (bits32 (relocate reloc_hi20 (pos 0x13ffe) 0x1000) % 4096 ≡ 0)
unfolding ◌-ℤ◌
relocate-halves_example = relocate-halves (pos 0x13ffe) 0x1000 (ground arith) (ground arith)

abbrev program : List Entry
program = first ∷ second ∷ []

abbrev rv32c : Arch
rv32c = record (start.arch) { ext_c = true; auto_c = true }

program-WellFormed : All WellFormed program
program-WellFormed = (
  new_instr-WellFormed op_add if_r 3 1 2 (pos 0) none reloc_none sec_text 0 4 1,
  (new_instr-WellFormed op_add if_r 4 3 2 (pos 0) none reloc_none sec_text 4 4 2, tt),
)

lay_out-WellFormed_example : All WellFormed (lay_out rv32c no_labels program)
lay_out-WellFormed_example = lay_out-WellFormed rv32c no_labels program program-WellFormed

program-IsSettled : IsSettled rv32c no_labels program
unfolding pass2_plan_choices pass2_assign_addresses assign_from plan_entries new_instr place
program-IsSettled on =
    pass2_relayout_and_validate-ends rv32c no_labels sec_text 8
      (pass2_plan_choices rv32c (pass2_assign_addresses sec_data program)) (ground arith)

lay_out-Laid_example : Laid sec_text 0 (lay_out rv32c no_labels program)
lay_out-Laid_example = lay_out-Laid rv32c no_labels program program-IsSettled
