-- ===== src/Pass1.antt =====
-- Pass 1 (Assembler/src/pass1.c): the calls that the grammar's actions make, on the section and the
-- program counters, the symbol table and the IR. `Action` is what an action of Assembler/src/assembler.y
-- does to this state; its order is the parser's. A directive whose value is out of range is reported and
-- is no action. Printing is left out.
pub mod InStep
pub mod Padding
pub mod Labels
pub mod Entries
use assembler_project.Base.{
  ℕ, zero, suc, ◌+◌, ◌-◌, ◌*◌, ◌/◌, ◌%◌, ◌^◌, ◌≤◌, ◌<◌, bit_and, bit_or, ◌≡◌, refl, sym, ap, ◌∙◌,
  ◌≢◌, ◌↔◌, ◌⊎◌, inl, inr, Bool, true, false, not, ◌&&◌, ◌||◌, Option, none, some, List, [], ◌∷◌,
  ◌++◌, arith, ltb, leb, ◌==◌, ◌!=◌, if◌then◌else◌, ==_iff, Bool-cases, Option-cases, length,
  get_elem?, get_or, set, replicate, length-append, length-replicate, length-set, All,
}
use assembler_project.Base.Int.{
  ℤ, pos, negsuc, pos_part, neg_part, sub_ℕ, ◌+ℤ◌, ◌-ℤ◌, ◌≤ℤ◌, ltb_ℤ, eqb_ℤ, +ℤ_parts, -ℤ_parts,
  eq_of_parts, int_laws,
}
use assembler_project.Base.Word.{
  u8, u16, u32, u64, ◌<<◌, ◌>>◌, bits64, bits32, asr, signed, to_int32, field,
}
use assembler_project.Ir.Buffer.{ir_append_instr, ir_append_align, ir_append_data, ir_init}
use assembler_project.Ir.Entry.{Entry, Fmt, Label, Reloc, Section, is_c_fmt}
use assembler_project.Ir.Opcode.{Opcode}
use assembler_project.Pass.{
  Pass, pass_advance_pc, pass_align_current_pc, pass_current_pc, pass_set_section,
}
use assembler_project.Symtab.{Symtab, create_symtab, insert_sym}

pub record Front : Type 0 where
  pub pass : Pass
  pub symtab : Symtab
  pub ir : List Entry

unfoldable pub pass1_initialize : Front → Front
unfolding ir_init
pass1_initialize s = record s {
  pass = record (s.pass) { pass_num = 1 };
  symtab = create_symtab;
  ir = [];
}

abbrev advance : ℕ → Front → Front
advance bytes s = record s { pass = pass_advance_pc bytes s.pass }

unfoldable pub pass1_emit_instruction :
    Opcode → Fmt → ℕ → ℕ → ℕ → ℤ → Option Label → Reloc → ℕ → Front → Front
unfolding pass_advance_pc pass_current_pc
pass1_emit_instruction op fmt rd rs1 rs2 imm label reloc lineno s =
    let size = if is_c_fmt fmt then 2 else 4 in
    let ir =
      ir_append_instr s.ir op fmt rd rs1 rs2 imm label reloc s.pass.cur_section
        (pass_current_pc s.pass) size lineno in
    advance size (record s { ir = ir })

-- `(align - (addr % align)) % align`
unfoldable pub padding : ℕ → ℕ → ℕ
padding addr pow2 = let align = 1 << pow2 in (align - addr % align) % align

unfoldable pub pass1_emit_align : ℕ → ℕ → Front → Front
unfolding pass_advance_pc pass_current_pc padding
pass1_emit_align pow2 lineno s =
    let addr = pass_current_pc s.pass in
    let pad = padding addr (if ltb 31 pow2 then 31 else pow2) in
    if pad == 0
    then s
    else advance pad (record s { ir = ir_append_align s.ir s.pass.cur_section addr pad lineno })

unfoldable pub pass1_emit_data : ℤ → ℕ → ℕ → Front → Front
unfolding pass_advance_pc pass_current_pc
pass1_emit_data word size lineno s =
    let addr = pass_current_pc s.pass in
    advance size (record s { ir = ir_append_data s.ir s.pass.cur_section addr word size lineno })

-- The rule `label` of the grammar does the same. A duplicate is reported on stderr only.
unfoldable pub pass1_emit_label : (ℕ → ℕ) → Label → Front → Front
unfolding insert_sym pass_current_pc
pass1_emit_label sqrt label s =
    let addr = signed 32 (u32 (pass_current_pc s.pass)) in
    record s { symtab = (insert_sym sqrt label addr s.symtab).1 }

-- The 64-bit count is cut to the `uint32_t` that both calls take.
unfoldable pub pass1_emit_space : ℕ → ℕ → Front → Front
unfolding pass_advance_pc pass_current_pc
pass1_emit_space num_bytes lineno s =
    let addr = pass_current_pc s.pass in
    advance (u32 num_bytes)
      (record s { ir = ir_append_align s.ir s.pass.cur_section addr (u32 num_bytes) lineno })

-- The action of the directive `.align`. Its `pad` is what `pass_align_current_pc` returns.
unfoldable pub align_directive : ℕ → ℕ → Front → Front
unfolding pass_align_current_pc pass_current_pc
align_directive pow2 lineno s =
    let before = pass_current_pc s.pass in
    let aligned = pass_align_current_pc pow2 s.pass in
    let pad = aligned.0 in
    record s { pass = aligned.1; ir = ir_append_align s.ir s.pass.cur_section before pad lineno }

pub data Action : Type 0 where
  instruction : Opcode → Fmt → ℕ → ℕ → ℕ → ℤ → Option Label → Reloc → ℕ → Action
  data_word : ℤ → ℕ → ℕ → Action
  space alignment : ℕ → ℕ → Action
  define : Label → Action
  section : Section → Action

unfoldable pub act : (ℕ → ℕ) → Action → Front → Front
act sqrt (instruction op fmt rd rs1 rs2 imm label reloc line) s =
    pass1_emit_instruction op fmt rd rs1 rs2 imm label reloc line s
act sqrt (data_word word size line) s = pass1_emit_data word size line s
act sqrt (space n line) s = pass1_emit_space n line s
act sqrt (alignment pow2 line) s = align_directive pow2 line s
act sqrt (define label) s = pass1_emit_label sqrt label s
act sqrt (section sect) s = record s { pass = pass_set_section sect s.pass }

unfoldable pub acts : (ℕ → ℕ) → List Action → Front → Front
unfolding act
acts sqrt [] s = s
acts sqrt (a ∷ as') s = acts sqrt as' (act sqrt a s)
