-- ===== src/Emit.antt =====
-- The emission of pass 2 (Assembler/src/pass2.c): labels are resolved, instructions encoded and
-- bytes written, entry by entry. The functions return the verdict with the new state; the messages
-- on stderr are left out. `fwrite` is the C library's (Out), `search_sym` the symbol table's look-up.
pub mod Resolve
pub mod Relocs
pub mod Sizes
pub mod Run
pub mod Place
pub mod Image
pub mod Bytes
pub mod Whole
pub mod Undefined
use assembler_project.Base.{
  ℕ, zero, suc, ◌+◌, ◌-◌, ◌*◌, ◌/◌, ◌%◌, ◌^◌, ◌≤◌, ◌<◌, bit_and, bit_or, ◌≡◌, refl, sym, ap, ◌∙◌,
  ◌≢◌, ◌↔◌, ◌⊎◌, inl, inr, Bool, true, false, not, ◌&&◌, ◌||◌, Option, none, some, List, [], ◌∷◌,
  ◌++◌, arith, ltb, leb, ◌==◌, ◌!=◌, if◌then◌else◌, ==_iff, Bool-cases, Option-cases, length,
  get_elem?, get_or, set, replicate, length-append, length-replicate, length-set, All,
}
use assembler_project.Base.Int.{
  ℤ, pos, negsuc, pos_part, neg_part, sub_ℕ, ◌+ℤ◌, ◌-ℤ◌, ◌≤ℤ◌, ltb_ℤ, eqb_ℤ, +ℤ_parts, -ℤ_parts,
  eq_of_parts, int_laws,
}
use assembler_project.Base.Word.{
  u8, u16, u32, u64, ◌<<◌, ◌>>◌, bits64, bits32, asr, signed, to_int32, field,
}
use assembler_project.Emit.Resolve.{operand, require_for_op}
use assembler_project.Encode.Compressed.{c_encode_instruction}
use assembler_project.Encode.Compressed.Half.{require_c_for_op}
use assembler_project.Encode.Full.{encode_instruction}
use assembler_project.Ir.Entry.{
  Entry, Choice, Label, Kind, Section, Reloc, Fmt, ir_data, ir_align, ir_instr, sec_text, sec_data,
  same_section, reloc_none, reloc_hi20, reloc_lo12, reloc_boff, reloc_jtgt, is_c_fmt,
}
use assembler_project.Ir.Opcode.{
  Opcode, op_addw, op_subw, op_sllw, op_srlw, op_sraw, op_addiw, op_srliw, op_sraiw, op_slliw,
  op_lwu, op_ld, op_sd, op_mul, op_mulh, op_mulhsu, op_mulhu, op_div, op_divu, op_rem, op_remu,
  op_mulw, op_divw, op_divuw, op_remw, op_remuw,
}
use assembler_project.Layout.{
  needs_pc_rel, pass2_assign_addresses, pass2_plan_choices, pass2_relayout_and_validate,
}
use assembler_project.Out.{
  Out, out_begin_section, write_word_le, write_half_le, write_value_le, write_zeros,
}
use assembler_project.Pass.{Arch}

-- The variables of pass2.c, with the sink. `outfile` says whether the file is set.
pub record Emit : Type 0 where
  pub had_error : Bool
  pub outfile : Bool
  pub out_section : Section
  pub seen_text : Bool
  pub out : Out

-- `pass2_initialize`, with the sink as `out_begin` leaves it; `pass2_set_output`, and
-- `pass2_report_error`.
unfoldable pub pass2_initialize : Out → Emit
pass2_initialize g = record {
  had_error = false;
  outfile = false;
  out_section = sec_text;
  seen_text = false;
  out = g;
}

unfoldable pub pass2_set_output : Emit → Emit
pass2_set_output s = record s { outfile = true }

unfoldable pub pass2_report_error : Emit → Emit
pass2_report_error s = record s { had_error = true }

-- `had_error = 1; return false;`
abbrev pub fail : Emit → Bool × Emit
fail s = (false, record s { had_error = true })

abbrev pub written : Emit → Bool × Out → Bool × Emit
written s o = (o.0, record s { out = o.1 })

-- The ends of the two branches of `pass2_emit_instr`.
abbrev pub emit_half : (List ℕ → List ℕ → ℕ) → Emit → Option ℕ → Bool × Emit
emit_half fwrite s none = fail s
emit_half fwrite s (some half) = written s (write_half_le fwrite half s.out)

abbrev pub emit_word : (List ℕ → List ℕ → ℕ) → Emit → Option ℕ → Bool × Emit
emit_word fwrite s none = fail s
emit_word fwrite s (some word) = written s (write_word_le fwrite word s.out)

unfoldable pub encode_half : Arch → Choice → Option ℤ → Option ℕ
encode_half a i none = none
encode_half a i (some imm) = c_encode_instruction a i.op i.fmt i.rd i.rs1 i.rs2 imm

unfoldable pub encode_word : Arch → Choice → Option ℤ → Option ℕ
encode_word a i none = none
encode_word a i (some imm) = encode_instruction a.xlen i.op i.fmt i.rd i.rs1 i.rs2 imm

-- The operands come as one record. A compressed form that the target lacks is refused without an
-- error being recorded.
unfoldable pub pass2_emit_instr :
    (List ℕ → List ℕ → ℕ) → Arch → (Label → ℤ) → Choice → ℕ → Emit → Bool × Emit
pass2_emit_instr fwrite a search_sym i addr s =
    let val = operand search_sym i.imm i.label i.reloc addr in
    if s.had_error
    then (false, s)
    else if not s.outfile
    then fail s
    else if is_c_fmt i.fmt
    then (if not (require_c_for_op a i.op)
        then (false, s)
        else emit_half fwrite s (encode_half a i val))
    else if not (require_for_op a i.op)
    then fail s
    else emit_word fwrite s (encode_word a i val)

unfoldable pub c_materialize : Entry → Choice
c_materialize e =
    if e.has_c_choice
    then (if needs_pc_rel e.choice.op
        then record (e.choice) { label = none; reloc = reloc_none }
        else e.choice)
    else record {
      op = e.op;
      fmt = e.fmt;
      rd = e.rd;
      rs1 = e.rs1;
      rs2 = e.rs2;
      imm = e.imm;
      label = e.label;
      reloc = e.reloc;
    }

unfoldable pub pass2_emit_node :
    (List ℕ → List ℕ → ℕ) → Arch → (Label → ℤ) → Entry → Emit → Bool × Emit
pass2_emit_node fwrite a search_sym e s =
    let i = c_materialize e in
    let use_imm : ℤ = elim i.label [ some l ↦ pos 0 | none ↦ i.imm ] in
    pass2_emit_instr fwrite a search_sym (record i { imm = use_imm }) e.addr s

unfoldable pub pass2_emit_section : Section → Emit → Bool × Emit
pass2_emit_section sect s = if s.seen_text && same_section sect sec_data then fail s else (
  true,
  record s {
    seen_text = if same_section sect sec_text then true else s.seen_text;
    out_section = sect;
    out = out_begin_section sect s.out;
  },
)

unfoldable pub pass2_emit_data : (List ℕ → List ℕ → ℕ) → ℤ → ℕ → Emit → Bool × Emit
pass2_emit_data fwrite value size s =
    if s.had_error
    then (false, s)
    else if not s.outfile || not (same_section s.out_section sec_data)
    then fail s
    else written s (write_value_le fwrite value size s.out)

unfoldable pub pass2_emit_align : (List ℕ → List ℕ → ℕ) → ℕ → Emit → Bool × Emit
pass2_emit_align fwrite pad_bytes s =
    if pad_bytes == 0
    then (true, s)
    else if s.had_error
    then (false, s)
    else if not s.outfile
    then fail s
    else written s (write_zeros fwrite pad_bytes s.out)

unfoldable pub emit_kind :
    (List ℕ → List ℕ → ℕ) → Arch → (Label → ℤ) → Kind → Entry → Emit → Bool × Emit
emit_kind fwrite a search_sym ir_align e s = pass2_emit_align fwrite e.size s
emit_kind fwrite a search_sym ir_data e s = pass2_emit_data fwrite e.imm e.size s
emit_kind fwrite a search_sym ir_instr e s = pass2_emit_node fwrite a search_sym e s

-- One turn of the loop of `pass2_run`.
unfoldable pub emit_entry : (List ℕ → List ℕ → ℕ) → Arch → (Label → ℤ) → Entry → Emit → Bool × Emit
emit_entry fwrite a search_sym e s =
    let moved = pass2_emit_section e.sect s in
    if same_section e.sect s.out_section
    then emit_kind fwrite a search_sym e.kind e s
    else if moved.0
    then emit_kind fwrite a search_sym e.kind e moved.1
    else moved

unfoldable pub emit_entries :
    (List ℕ → List ℕ → ℕ) → Arch → (Label → ℤ) → List Entry → Emit → Bool × Emit
emit_entries fwrite a search_sym [] s = (not s.had_error, s)
emit_entries fwrite a search_sym (e ∷ es) s =
    let out = emit_entry fwrite a search_sym e s in
    let rest = emit_entries fwrite a search_sym es out.1 in if out.0 then rest else out

-- The layout that `pass2_run` makes, and the section it starts in.
unfoldable pub lay_out : Arch → (Label → ℤ) → List Entry → List Entry
lay_out a search_sym es =
    let es' = pass2_assign_addresses sec_data es in
    if a.ext_c && a.auto_c
    then (pass2_relayout_and_validate a search_sym sec_text 8 (pass2_plan_choices a es')).1
    else pass2_assign_addresses sec_text es'

abbrev first_section : List Entry → Emit → Bool × Emit
first_section [] s = (true, s)
first_section (e ∷ es) s = pass2_emit_section e.sect s

unfoldable pub pass2_run :
    (List ℕ → List ℕ → ℕ) → Arch → (Label → ℤ) → List Entry → Emit → Bool × Emit
pass2_run fwrite a search_sym es s =
    let es' = lay_out a search_sym es in
    let begun = first_section es' s in
    if s.had_error
    then (false, s)
    else if not s.outfile
    then fail s
    else if begun.0
    then emit_entries fwrite a search_sym es' begun.1
    else begun
