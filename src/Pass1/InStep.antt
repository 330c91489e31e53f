-- ===== src/Pass1/InStep.antt =====
-- The addresses of the entries and the program counters move together.
use assembler_project.Base.{
  ℕ, ◌+◌, ◌^◌, ◌<◌, ◌≡◌, refl, sym, ◌∙◌, inl, inr, true, List, [], ◌∷◌, ◌++◌, arith, ◌==◌,
  if◌then◌else◌, ==_iff, Bool-cases, All,
}
use assembler_project.Base.Word.{u32}
use assembler_project.Ir.Buffer.{
  new_instr, new_align, new_data, ir_append_instr, ir_append_align, ir_append_data,
}
use assembler_project.Ir.Entry.{Entry, Section, sec_text, sec_data, same_section, is_c_fmt}
use assembler_project.Pass.{
  Pass, current_pc, add_pc, pass_current_pc, pass_advance_pc, pass_set_section,
}
use assembler_project.Pass1.{
  Front, Action, instruction, data_word, space, alignment, define, section, act, acts,
  pass1_initialize, pass1_emit_instruction, pass1_emit_data, pass1_emit_space, pass1_emit_label,
}
use mathlib.Core.Bool.{false≢true}

-- The program counter behind the entries of a section.
abbrev pub end_of : Section → ℕ → List Entry → ℕ
end_of sect pc [] = pc
end_of sect pc (e ∷ es) =
    end_of sect (if same_section e.sect sect then u32 (pc + e.size) else pc) es

-- Each entry of the section starts where the one before it ends, the first at `pc`.
abbrev pub InStep : Section → ℕ → List Entry → Type 0
InStep sect pc [] = Unit
InStep sect pc (e ∷ es) =
    (same_section e.sect sect ≡ true → e.addr ≡ pc)
    × InStep sect (if same_section e.sect sect then u32 (pc + e.size) else pc) es

end_of-append :
    (sect : Section) (pc : ℕ) (es fs : List Entry)
    → end_of sect pc (es ++ fs) ≡ end_of sect (end_of sect pc es) fs
end_of-append sect pc [] fs = refl
end_of-append sect pc (e ∷ es) fs =
    end_of-append sect (if same_section e.sect sect then u32 (pc + e.size) else pc) es fs

InStep-append :
    (sect : Section) (pc : ℕ) (es : List Entry) (e : Entry)
    → InStep sect pc es
    → (same_section e.sect sect ≡ true → e.addr ≡ end_of sect pc es)
    → InStep sect pc (es ++ e ∷ [])
InStep-append sect pc [] e h at = (at, tt)
InStep-append sect pc (f ∷ es) e (first, h) at = (
  first,
  InStep-append sect (if same_section f.sect sect then u32 (pc + f.size) else pc) es e h at,
)

-- Both sections are in step with their counters.
pub record InOrder (s : Front) : Type 0 where
  pub in_step : (sect : Section) → InStep sect 0 s.ir
  pub pcs : (sect : Section) → end_of sect 0 s.ir ≡ current_pc sect s.pass

current_pc-add_pc :
    (sect cur : Section) (n : ℕ) (p : Pass)
    → current_pc sect (add_pc cur n p)
      ≡ (if same_section cur sect then u32 (current_pc sect p + n) else current_pc sect p)
current_pc-add_pc sec_text sec_text n p = refl
current_pc-add_pc sec_text sec_data n p = refl
current_pc-add_pc sec_data sec_text n p = refl
current_pc-add_pc sec_data sec_data n p = refl

same_pc :
    (sect cur : Section) (p : Pass)
    → same_section cur sect ≡ true
    → current_pc cur p ≡ current_pc sect p
same_pc sec_text sec_text p h = refl
same_pc sec_text sec_data p h = absurd (false≢true h)
same_pc sec_data sec_text p h = absurd (false≢true h)
same_pc sec_data sec_data p h = refl

-- One entry at the program counter, and the counter moved by its size.
appended :
    (s : Front) (e : Entry)
    → InOrder s
    → e.sect ≡ s.pass.cur_section
    → e.addr ≡ current_pc s.pass.cur_section s.pass
    → InOrder (record s { ir = s.ir ++ e ∷ []; pass = add_pc s.pass.cur_section e.size s.pass })
appended s e o here at =
    let cur = s.pass.cur_section in
    record {
      in_step = λ sect. InStep-append sect 0 s.ir e (o.in_step sect) λ h.
          let same : same_section cur sect ≡ true = rw (← here) h in
          at ∙ same_pc sect cur s.pass same ∙ sym (o.pcs sect);
      pcs = λ sect.
          end_of-append sect 0 s.ir (e ∷ [])
          ∙ rw (o.pcs sect, here, current_pc-add_pc sect cur e.size s.pass) refl;
    }

u32-lt : (n : ℕ) → u32 n < 2 ^ 32
u32-lt n = omega arith

end_of-lt : (sect : Section) (pc : ℕ) (es : List Entry) → pc < 2 ^ 32 → end_of sect pc es < 2 ^ 32
end_of-lt sect pc [] h = h
end_of-lt sect pc (e ∷ es) h =
    let next : (if same_section e.sect sect then u32 (pc + e.size) else pc) < 2 ^ 32 =
      ground (arith, u32-lt (pc + e.size)) in
    end_of-lt sect (if same_section e.sect sect then u32 (pc + e.size) else pc) es next

pub InOrder-lt : (sect : Section) (s : Front) → InOrder s → current_pc sect s.pass < 2 ^ 32
InOrder-lt sect s o = rw (← o.pcs sect) (end_of-lt sect 0 s.ir (omega arith))

-- No bytes and no entry.
add_none :
    (cur : Section) (s : Front) → InOrder s → InOrder (record s { pass = add_pc cur 0 s.pass })
add_none cur s o = record {
  in_step = o.in_step;
  pcs = λ sect.
      let kept : u32 (current_pc sect s.pass + 0) ≡ current_pc sect s.pass =
        omega (arith, InOrder-lt sect s o) in
      o.pcs sect ∙ rw (current_pc-add_pc sect cur 0 s.pass, kept) (ground arith);
}

-- An action other than `.align`.
abbrev pub NoAlign : Action → Type 0
NoAlign (alignment pow2 line) = ⊥
NoAlign _ = Unit

moved_section :
    (sect s' : Section) (p : Pass) → current_pc sect (pass_set_section s' p) ≡ current_pc sect p
unfolding pass_set_section
moved_section sec_text s' p = refl
moved_section sec_data s' p = refl

pub act-InOrder :
    (sqrt : ℕ → ℕ) (a : Action) (s : Front) → NoAlign a → InOrder s → InOrder (act sqrt a s)
unfolding act pass1_emit_instruction pass1_emit_data pass1_emit_space pass1_emit_label
    ir_append_instr ir_append_data ir_append_align pass_current_pc pass_advance_pc
act-InOrder sqrt (instruction op fmt rd rs1 rs2 imm label reloc line) s ok o =
    let size : ℕ = if is_c_fmt fmt then 2 else 4 in
    unfold new_instr in
    appended s
      (new_instr op fmt rd rs1 rs2 imm label reloc s.pass.cur_section
        (current_pc s.pass.cur_section s.pass) size line)
      o refl refl
act-InOrder sqrt (data_word word size line) s ok o =
    unfold new_data in
    appended s (new_data s.pass.cur_section (current_pc s.pass.cur_section s.pass) word size line) o
      refl refl
act-InOrder sqrt (space n line) s ok o =
    let cur = s.pass.cur_section in
    let addr = current_pc cur s.pass in
    elim (Bool-cases (u32 n == 0)) [
      | inl nothing ↦
          let zero_bytes : u32 n ≡ 0 = (==_iff (u32 n) 0).0 nothing in
          rw (zero_bytes, ir_append_align) (add_none cur s o)
      | inr some_bytes ↦
          rw (some_bytes, ir_append_align)
            (unfold new_align in appended s (new_align cur addr (u32 n) line) o refl refl)
    ]
act-InOrder sqrt (alignment pow2 line) s ok o = absurd ok
act-InOrder sqrt (define label) s ok o = record { in_step = o.in_step; pcs = o.pcs }
act-InOrder sqrt (section sect) s ok o = record {
  in_step = o.in_step;
  pcs = λ sect'. o.pcs sect' ∙ sym (moved_section sect' sect s.pass);
}

pub acts-InOrder :
    (sqrt : ℕ → ℕ) (as' : List Action) (s : Front)
    → All NoAlign as'
    → InOrder s
    → InOrder (acts sqrt as' s)
unfolding acts
acts-InOrder sqrt [] s ok o = o
acts-InOrder sqrt (a ∷ as') s (ok, oks) o =
    acts-InOrder sqrt as' (act sqrt a s) oks (act-InOrder sqrt a s ok o)

zero_pc : (sect : Section) (p : Pass) → p.pc_text ≡ 0 → p.pc_data ≡ 0 → 0 ≡ current_pc sect p
zero_pc sec_text p text data_pc = sym text
zero_pc sec_data p text data_pc = sym data_pc

-- Pass 1 starts with both counters at 0.
pub pass1_initialize-InOrder :
    (s : Front) → s.pass.pc_text ≡ 0 → s.pass.pc_data ≡ 0 → InOrder (pass1_initialize s)
unfolding pass1_initialize
pass1_initialize-InOrder s text data_pc = record {
  in_step = λ sect. tt;
  pcs = λ sect. zero_pc sect (record (s.pass) { pass_num = 1 }) text data_pc;
}

-- With both counters at 0 at the start and no `.align`, pass 1 puts the entries of each section
-- one behind the other from address 0 on, modulo 2^32, and leaves the section's program counter
-- behind the last.
pub pass1-InOrder :
    (sqrt : ℕ → ℕ) (as' : List Action) (s : Front)
    → s.pass.pc_text ≡ 0
    → s.pass.pc_data ≡ 0
    → All NoAlign as'
    → InOrder (acts sqrt as' (pass1_initialize s))
pass1-InOrder sqrt as' s text data_pc ok =
    acts-InOrder sqrt as' (pass1_initialize s) ok (pass1_initialize-InOrder s text data_pc)
