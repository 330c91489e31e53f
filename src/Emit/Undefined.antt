-- ===== src/Emit/Undefined.antt =====
-- An instruction whose label is not defined stops the emission.
use assembler_project.Base.{
  ℕ, ◌≡◌, refl, sym, ap, ◌∙◌, ◌⊎◌, inl, inr, Bool, true, false, not, ◌&&◌, Option, none, some, List,
  [], ◌∷◌, ltb, if◌then◌else◌, Bool-cases,
}
use assembler_project.Base.Int.{ℤ, pos, ltb_ℤ}
use assembler_project.Base.Word.{bits32}
use assembler_project.Emit.{
  Emit, emit_half, emit_word, encode_half, encode_word, c_materialize, pass2_emit_instr,
  pass2_emit_node, pass2_emit_section, emit_kind, emit_entry, emit_entries, lay_out, first_section,
  pass2_run,
}
use assembler_project.Emit.Resolve.{operand, resolve_label, require_for_op}
use assembler_project.Encode.Compressed.Half.{require_c_for_op}
use assembler_project.Ir.Entry.{
  Entry, Choice, Label, Kind, Section, Reloc, ir_instr, ir_data, ir_align, sec_text, sec_data,
  same_section, is_c_fmt, reloc_none, reloc_hi20, reloc_lo12, reloc_boff, reloc_jtgt,
}
use assembler_project.Layout.{place, assign_from, pass2_assign_addresses}
use assembler_project.Pass.{Arch}
use mathlib.Core.Bool.{false≢true}

-- An instruction of the buffer names the label, in the form that is emitted.
abbrev pub Uses : Label → List Entry → Type 0
Uses l [] = ⊥
Uses l (e ∷ es) = ((e.kind ≡ ir_instr) × ((c_materialize e).label ≡ some l)) ⊎ Uses l es

-- The look-up finds nothing.
abbrev pub IsUndefined : (Label → ℤ) → Label → Type 0
IsUndefined search_sym l = ltb_ℤ (search_sym l) (pos 0) ≡ true

operand-none :
    (search_sym : Label → ℤ) (imm : ℤ) (l : Label) (r : Reloc) (addr : ℕ)
    → IsUndefined search_sym l
    → operand search_sym imm (some l) r addr ≡ none
unfolding operand resolve_label
operand-none search_sym imm l reloc_none addr h = refl
operand-none search_sym imm l reloc_hi20 addr h = rw h refl
operand-none search_sym imm l reloc_lo12 addr h = rw h refl
operand-none search_sym imm l reloc_boff addr h = rw h refl
operand-none search_sym imm l reloc_jtgt addr h = rw h refl

-- A test between two runs that both fail.
either_fails :
    (test : Bool) (x y : Bool × Emit)
    → x.0 ≡ false
    → y.0 ≡ false
    → (if test then x else y).0 ≡ false
either_fails true x y h k = h
either_fails false x y h k = k

instr_fails :
    (fwrite : List ℕ → List ℕ → ℕ) (a : Arch) (search_sym : Label → ℤ) (i : Choice) (addr : ℕ)
    (s : Emit) (l : Label)
    → i.label ≡ some l
    → IsUndefined search_sym l
    → (pass2_emit_instr fwrite a search_sym i addr s).0 ≡ false
unfolding pass2_emit_instr encode_half encode_word
instr_fails fwrite a search_sym i addr s l names undefined =
    let val = operand search_sym i.imm i.label i.reloc addr in
    let gone : val ≡ none =
      ap (λ (o : Option Label). operand search_sym i.imm o i.reloc addr) names
      ∙ operand-none search_sym i.imm l i.reloc addr undefined in
    let half : (emit_half fwrite s (encode_half a i val)).0 ≡ false =
      ap (λ (o : Option ℤ). (emit_half fwrite s (encode_half a i o)).0) gone in
    let word : (emit_word fwrite s (encode_word a i val)).0 ≡ false =
      ap (λ (o : Option ℤ). (emit_word fwrite s (encode_word a i o)).0) gone in
    either_fails s.had_error _ _ refl (
      either_fails (not s.outfile) _ _ refl (
        either_fails (is_c_fmt i.fmt) _ _
          (either_fails (not (require_c_for_op a i.op)) _ _ refl half)
          (either_fails (not (require_for_op a i.op)) _ _ refl word)))

kind_fails :
    (fwrite : List ℕ → List ℕ → ℕ) (a : Arch) (search_sym : Label → ℤ) (k : Kind) (e : Entry)
    (s : Emit) (l : Label)
    → k ≡ ir_instr
    → (c_materialize e).label ≡ some l
    → IsUndefined search_sym l
    → (emit_kind fwrite a search_sym k e s).0 ≡ false
unfolding emit_kind pass2_emit_node
kind_fails fwrite a search_sym k e s l is names undefined =
    ap (λ (m : Kind). (emit_kind fwrite a search_sym m e s).0) is
    ∙ instr_fails fwrite a search_sym _ e.addr s l names undefined

entry_fails :
    (fwrite : List ℕ → List ℕ → ℕ) (a : Arch) (search_sym : Label → ℤ) (e : Entry) (s : Emit)
    (l : Label)
    → e.kind ≡ ir_instr
    → (c_materialize e).label ≡ some l
    → IsUndefined search_sym l
    → (emit_entry fwrite a search_sym e s).0 ≡ false
unfolding emit_entry
entry_fails fwrite a search_sym e s l is names undefined =
    let moved = pass2_emit_section e.sect s in
    elim (Bool-cases (same_section e.sect s.out_section)) [
      | inl here ↦ rw here (kind_fails fwrite a search_sym e.kind e s l is names undefined)
      | inr away ↦ elim (Bool-cases moved.0) [
        | inl ok ↦
            rw (away, ok) (kind_fails fwrite a search_sym e.kind e moved.1 l is names undefined)
        | inr stuck ↦ rw (away, stuck) refl
      ]
    ]

entries_fail :
    (fwrite : List ℕ → List ℕ → ℕ) (a : Arch) (search_sym : Label → ℤ) (es : List Entry) (s : Emit)
    (l : Label)
    → Uses l es
    → IsUndefined search_sym l
    → (emit_entries fwrite a search_sym es s).0 ≡ false
unfolding emit_entries
entries_fail fwrite a search_sym [] s l uses undefined = absurd uses
entries_fail fwrite a search_sym (e ∷ es) s l uses undefined =
    let out = emit_entry fwrite a search_sym e s in
    elim (Bool-cases out.0) [
      | inr stuck ↦ rw stuck refl
      | inl ok ↦ elim uses [
        | inl (is, names) ↦
            absurd
              (false≢true (sym (entry_fails fwrite a search_sym e s l is names undefined) ∙ ok))
        | inr later ↦ rw ok (entries_fail fwrite a search_sym es out.1 l later undefined)
      ]
    ]

-- The address assignment changes neither what an entry is nor its label.
placed_label :
    (k : Kind) (pc : ℕ) (e : Entry)
    → ((place k pc e).0.kind ≡ e.kind)
      × ((c_materialize (place k pc e).0).label ≡ (c_materialize e).label)
unfolding place c_materialize
placed_label ir_data pc e = (refl, refl)
placed_label ir_instr pc e = (refl, refl)
placed_label ir_align pc e = elim (Bool-cases (ltb 1 (bits32 e.imm))) [
  | inl wide ↦ rw wide (refl, refl)
  | inr none_left ↦ rw none_left (refl, refl)
]

assign-Uses :
    (sect : Section) (pc : ℕ) (es : List Entry) (l : Label)
    → Uses l es
    → Uses l (assign_from sect pc es)
unfolding assign_from
assign-Uses sect pc [] l uses = uses
assign-Uses sect pc (e ∷ es) l uses =
    let placed = place e.kind pc e in
    let (kind, label) = placed_label e.kind pc e in
    elim (Bool-cases (same_section e.sect sect)) [
      | inl here ↦ rw here (elim uses [
        | inl (is, names) ↦ inl (kind ∙ is, label ∙ names)
        | inr later ↦ inr (assign-Uses sect placed.1 es l later)
      ])
      | inr away ↦
          rw away
            (elim uses [ inl found ↦ inl found | inr later ↦ inr (assign-Uses sect pc es l later) ])
    ]

-- Without automatic compression, `pass2_run` fails where any instruction names a label that the
-- symbol table does not have, whatever stands before it.
pub pass2_run-undefined :
    (fwrite : List ℕ → List ℕ → ℕ) (a : Arch) (search_sym : Label → ℤ) (es : List Entry) (s : Emit)
    (l : Label)
    → (a.ext_c && a.auto_c) ≡ false
    → Uses l es
    → IsUndefined search_sym l
    → (pass2_run fwrite a search_sym es s).0 ≡ false
unfolding pass2_run lay_out pass2_assign_addresses
pass2_run-undefined fwrite a search_sym es s l plain uses undefined =
    let es' = lay_out a search_sym es in
    let begun = first_section es' s in
    let still : Uses l es' =
      rw plain
        (assign-Uses sec_text 0 (assign_from sec_data 0 es) l (assign-Uses sec_data 0 es l uses)) in
    either_fails s.had_error _ _ refl (
      either_fails (not s.outfile) _ _ refl (elim (Bool-cases begun.0) [
        | inl ok ↦ rw ok (entries_fail fwrite a search_sym es' begun.1 l still undefined)
        | inr stuck ↦ rw stuck stuck
      ]))
