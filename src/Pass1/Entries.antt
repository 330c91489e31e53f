-- ===== src/Pass1/Entries.antt =====
-- Every entry that pass 1 appends is well formed.
use assembler_project.Base.{ℕ, inl, inr, List, [], ◌∷◌, ◌++◌, ◌==◌, Bool-cases, All}
use assembler_project.Base.Word.{u32}
use assembler_project.Ir.Buffer.{new_align, ir_append_instr, ir_append_align, ir_append_data}
use assembler_project.Ir.Entry.{Entry, Section}
use assembler_project.Ir.WellFormed.{
  WellFormed, new_instr-WellFormed, new_align-WellFormed, new_data-WellFormed,
}
use assembler_project.Pass.{pass_current_pc}
use assembler_project.Pass1.{
  Front, Action, instruction, data_word, space, alignment, define, section, act, acts,
  pass1_initialize, pass1_emit_instruction, pass1_emit_data, pass1_emit_space, pass1_emit_label,
  align_directive,
}

append_one :
    (es : List Entry) (e : Entry) → All WellFormed es → WellFormed e → All WellFormed (es ++ e ∷ [])
append_one [] e ws w = (w, tt)
append_one (f ∷ es) e (v, ws) w = (v, append_one es e ws w)

align_one :
    (es : List Entry) (sect : Section) (addr pad line : ℕ)
    → All WellFormed es
    → All WellFormed (ir_append_align es sect addr pad line)
unfolding ir_append_align
align_one es sect addr pad line ws = elim (Bool-cases (pad == 0)) [
  | inl nothing ↦ rw nothing ws
  | inr some_bytes ↦
      rw some_bytes
        (append_one es (new_align sect addr pad line) ws (new_align-WellFormed sect addr pad line))
]

act-WellFormed :
    (sqrt : ℕ → ℕ) (a : Action) (s : Front) → All WellFormed s.ir → All WellFormed (act sqrt a s).ir
unfolding act pass1_emit_instruction pass1_emit_data pass1_emit_space pass1_emit_label
    align_directive ir_append_instr ir_append_data pass_current_pc
act-WellFormed sqrt (instruction op fmt rd rs1 rs2 imm label reloc line) s ws =
    append_one s.ir _ ws (new_instr-WellFormed op fmt rd rs1 rs2 imm label reloc _ _ _ line)
act-WellFormed sqrt (data_word word size line) s ws =
    append_one s.ir _ ws (new_data-WellFormed s.pass.cur_section _ word size line)
act-WellFormed sqrt (space n line) s ws = align_one s.ir _ _ (u32 n) line ws
act-WellFormed sqrt (alignment pow2 line) s ws = align_one s.ir _ _ _ line ws
act-WellFormed sqrt (define label) s ws = ws
act-WellFormed sqrt (section sect) s ws = ws

acts-WellFormed :
    (sqrt : ℕ → ℕ) (as' : List Action) (s : Front)
    → All WellFormed s.ir
    → All WellFormed (acts sqrt as' s).ir
unfolding acts
acts-WellFormed sqrt [] s ws = ws
acts-WellFormed sqrt (a ∷ as') s ws =
    acts-WellFormed sqrt as' (act sqrt a s) (act-WellFormed sqrt a s ws)

-- Whatever the source text, pass 2 is given well formed entries.
pub pass1-WellFormed :
    (sqrt : ℕ → ℕ) (as' : List Action) (s : Front)
    → All WellFormed (acts sqrt as' (pass1_initialize s)).ir
unfolding pass1_initialize
pass1-WellFormed sqrt as' s = acts-WellFormed sqrt as' (pass1_initialize s) tt
