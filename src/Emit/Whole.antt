-- ===== src/Emit/Whole.antt =====
-- `pass2_run` as a whole: the layout that it makes and how far it fills the buffers.
use assembler_project.Base.{
  ℕ, ◌≡◌, refl, sym, ◌∙◌, inl, inr, Bool, true, false, not, ◌&&◌, List, [], ◌∷◌, arith,
  if◌then◌else◌, Bool-cases, All,
}
use assembler_project.Base.Int.{ℤ}
use assembler_project.Emit.{Emit, lay_out, first_section, pass2_run}
use assembler_project.Emit.Run.{Ready, Emitted, emit_section-Moved, total, emit_entries-Emitted}
use assembler_project.Ir.Entry.{Entry, Label, Section, sec_text, sec_data}
use assembler_project.Ir.WellFormed.{WellFormed}
use assembler_project.Layout.{
  pass2_assign_addresses, pass2_plan_choices, pass2_relayout_and_validate,
}
use assembler_project.Layout.Keeps.{
  pass2_assign_addresses-WellFormed, pass2_plan_choices-WellFormed,
  pass2_relayout_and_validate-WellFormed,
}
use assembler_project.Layout.Places.{Laid, assign-Laid}
use assembler_project.Layout.Settled.{pass2_relayout_and_validate-Laid}
use assembler_project.Out.Bytes.{held, frame}
use assembler_project.Pass.{Arch}
use mathlib.Core.Bool.{false≢true}

-- The layout of `pass2_run` keeps every entry well formed.
pub lay_out-WellFormed :
    (a : Arch) (search_sym : Label → ℤ) (es : List Entry)
    → All WellFormed es
    → All WellFormed (lay_out a search_sym es)
unfolding lay_out
lay_out-WellFormed a search_sym es ws =
    let es' = pass2_assign_addresses sec_data es in
    let ws' = pass2_assign_addresses-WellFormed sec_data es ws in
    elim (Bool-cases (a.ext_c && a.auto_c)) [
      | inl on ↦ rw on (
          pass2_relayout_and_validate-WellFormed a search_sym sec_text 8 (pass2_plan_choices a es')
            (pass2_plan_choices-WellFormed a es' ws'))
      | inr off ↦ rw off (pass2_assign_addresses-WellFormed sec_text es' ws')
    ]

-- The layout has settled, or there was nothing to settle.
abbrev pub IsSettled : Arch → (Label → ℤ) → List Entry → Type 0
IsSettled a search_sym es =
    (a.ext_c && a.auto_c) ≡ true
    → (pass2_relayout_and_validate a search_sym sec_text 8
        (pass2_plan_choices a (pass2_assign_addresses sec_data es))).0
      ≡ true

-- The text section that `pass2_run` lays out stands in order from address 0 on, unless the rounds
-- of the layout run out.
pub lay_out-Laid :
    (a : Arch) (search_sym : Label → ℤ) (es : List Entry)
    → IsSettled a search_sym es
    → Laid sec_text 0 (lay_out a search_sym es)
unfolding lay_out pass2_assign_addresses
lay_out-Laid a search_sym es settled =
    let es' = pass2_assign_addresses sec_data es in
    elim (Bool-cases (a.ext_c && a.auto_c)) [
      | inl on ↦ rw on (
          pass2_relayout_and_validate-Laid a search_sym sec_text 8 (pass2_plan_choices a es')
            (settled on))
      | inr off ↦ rw off (assign-Laid sec_text 0 es')
    ]

pub first_section-Ready :
    (es : List Entry) (s : Emit)
    → Ready s
    → (first_section es s).0 ≡ true
    → Ready (first_section es s).1
      × (frame (first_section es s).1.out ≡ frame s.out)
      × ((sect : Section) → held sect (first_section es s).1.out ≡ held sect s.out)
first_section-Ready [] s ready ok = (ready, refl, λ sect. refl)
first_section-Ready (e ∷ es) s ready ok =
    let m = emit_section-Moved e.sect s ready ok in (m.ready, m.frame, m.kept)

-- A run that succeeds adds `n sect` bytes to each section's buffer, and keeps the rest of the sink.
abbrev Fills : (Section → ℕ) → Emit → Bool × Emit → Type 0
Fills n s r = r.0 ≡ true → Emitted n s r.1

either :
    (n : Section → ℕ) (s : Emit) (test : Bool) (x y : Bool × Emit)
    → (test ≡ true → Fills n s x)
    → (test ≡ false → Fills n s y)
    → Fills n s (if test then x else y)
either n s true x y left right = left refl
either n s false x y left right = right refl

pub pass2_run-Emitted :
    (fwrite : List ℕ → List ℕ → ℕ) (a : Arch) (search_sym : Label → ℤ) (es : List Entry) (s : Emit)
    → Ready s
    → (pass2_run fwrite a search_sym es s).0 ≡ true
    → Emitted
        (λ sect. total sect (lay_out a search_sym es))
        s
        (pass2_run fwrite a search_sym es s).1
unfolding pass2_run
pass2_run-Emitted fwrite a search_sym es s ready =
    let es' = lay_out a search_sym es in
    let begun = first_section es' s in
    let n = λ (sect : Section). total sect es' in
    either n s s.had_error _ _ (λ t ok. absurd (false≢true ok))
      λ t.
        either n s (not s.outfile) _ _ (λ t ok. absurd (false≢true ok))
          λ t.
            either n s begun.0 _ _
              (λ go ok.
                let first = first_section-Ready es' s ready go in
                let out = emit_entries-Emitted fwrite a search_sym es' begun.1 first.0 ok in
                record {
                  ready = out.ready;
                  frame = out.frame ∙ first.1;
                  held = λ sect. omega (arith, out.held sect, first.2 sect);
                })
              λ stuck ok. absurd (false≢true (sym stuck ∙ ok))
