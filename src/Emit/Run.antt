-- ===== src/Emit/Run.antt =====
-- The loop of `pass2_run`: how far the buffers of the two sections are filled.
use assembler_project.Base.{
  ℕ, ◌+◌, ◌≡◌, refl, sym, ◌∙◌, inl, inr, Bool, true, ◌&&◌, List, [], ◌∷◌, arith, Bool-cases,
}
use assembler_project.Base.Int.{ℤ}
use assembler_project.Emit.{Emit, pass2_emit_section, emit_kind, emit_entry, emit_entries}
use assembler_project.Emit.Sizes.{Adds, emit_kind-Adds, bytes_of}
use assembler_project.Ir.Entry.{Entry, Label, Section, sec_data, sec_text, same_section}
use assembler_project.Out.{Out, out_elf, out_begin_section}
use assembler_project.Out.Bytes.{held, frame, share}
use assembler_project.Pass.{Arch}
use mathlib.Core.Bool.{false≢true}

-- An ELF file is written, and the sink's section is the one that pass 2 has in mind.
pub record Ready (s : Emit) : Type 0 where
  pub elf : s.out.fmt ≡ out_elf
  pub cur : s.out.cur_sect ≡ s.out_section

-- A run that succeeds is ready again, and has added `n sect` bytes to each section.
pub record Emitted (n : Section → ℕ) (s s' : Emit) : Type 0 where
  pub ready : Ready s'
  pub frame : frame s'.out ≡ frame s.out
  pub held : (sect : Section) → held sect s'.out ≡ held sect s.out + n sect

pub same_section_lem : (x y : Section) → same_section x y ≡ true → x ≡ y
same_section_lem sec_text sec_text h = refl
same_section_lem sec_text sec_data h = absurd (false≢true h)
same_section_lem sec_data sec_text h = absurd (false≢true h)
same_section_lem sec_data sec_data h = refl

Adds-Emitted :
    (sect : Section) (n : ℕ) (s : Emit) (r : Bool × Emit)
    → Ready s
    → s.out_section ≡ sect
    → Adds n s r
    → r.0 ≡ true
    → Emitted (λ other. share other sect n) s r.1
Adds-Emitted sect n s r ready here adds ok =
    let g = (adds ok).0 in
    let cur : s.out.cur_sect ≡ sect = ready.cur ∙ here in
    record {
      ready = record { elf = g.fmt ∙ ready.elf; cur = g.cur_sect ∙ ready.cur ∙ sym ((adds ok).1) };
      frame = g.frame;
      held = λ other. rw (← cur) (g.held other);
    }

held-begin_section : (x sect : Section) (g : Out) → held sect (out_begin_section x g) ≡ held sect g
unfolding out_begin_section
held-begin_section x sec_text g = refl
held-begin_section x sec_data g = refl

-- What a switch of sections leaves.
pub record Moved (x : Section) (s s' : Emit) : Type 0 where
  pub ready : Ready s'
  pub frame : frame s'.out ≡ frame s.out
  pub section : s'.out_section ≡ x
  pub kept : (sect : Section) → held sect s'.out ≡ held sect s.out

pub emit_section-Moved :
    (x : Section) (s : Emit)
    → Ready s
    → (pass2_emit_section x s).0 ≡ true
    → Moved x s (pass2_emit_section x s).1
unfolding pass2_emit_section out_begin_section
emit_section-Moved x s ready = elim (Bool-cases (s.seen_text && same_section x sec_data)) [
  | inl back ↦ rw back λ h. absurd (false≢true h)
  | inr on ↦ rw on λ h. record {
    ready = record { elf = ready.elf; cur = refl };
    frame = refl;
    section = refl;
    kept = λ sect. held-begin_section x sect s.out;
  }
]

-- The bytes that an entry adds to a section.
abbrev pub adds_to : Entry → Section → ℕ
adds_to e sect = share sect e.sect (bytes_of e.kind e)

pub emit_entry-Emitted :
    (fwrite : List ℕ → List ℕ → ℕ) (a : Arch) (search_sym : Label → ℤ) (e : Entry) (s : Emit)
    → Ready s
    → (emit_entry fwrite a search_sym e s).0 ≡ true
    → Emitted (adds_to e) s (emit_entry fwrite a search_sym e s).1
unfolding emit_entry
emit_entry-Emitted fwrite a search_sym e s ready =
    let n = bytes_of e.kind e in
    elim (Bool-cases (same_section e.sect s.out_section)) [
      | inl here ↦ rw here (
          Adds-Emitted e.sect n s (emit_kind fwrite a search_sym e.kind e s) ready
            (sym (same_section_lem e.sect s.out_section here))
            (emit_kind-Adds fwrite a search_sym e.kind e s ready.elf))
      | inr away ↦ elim (Bool-cases (pass2_emit_section e.sect s).0) [
        | inl moved ↦
            let s' = (pass2_emit_section e.sect s).1 in
            let m = emit_section-Moved e.sect s ready moved in
            rw (away, moved)
              λ ok.
                let x =
                  Adds-Emitted e.sect n s' (emit_kind fwrite a search_sym e.kind e s') m.ready
                    m.section (emit_kind-Adds fwrite a search_sym e.kind e s' m.ready.elf) ok in
                record {
                  ready = x.ready;
                  frame = x.frame ∙ m.frame;
                  held = λ sect. omega (arith, x.held sect, m.kept sect);
                }
        | inr stuck ↦ rw (away, stuck) λ ok. absurd (false≢true ok)
      ]
    ]

-- The bytes that a list of entries adds to a section.
abbrev pub total : Section → List Entry → ℕ
total sect [] = 0
total sect (e ∷ es) = adds_to e sect + total sect es

pub emit_entries-Emitted :
    (fwrite : List ℕ → List ℕ → ℕ) (a : Arch) (search_sym : Label → ℤ) (es : List Entry) (s : Emit)
    → Ready s
    → (emit_entries fwrite a search_sym es s).0 ≡ true
    → Emitted (λ sect. total sect es) s (emit_entries fwrite a search_sym es s).1
unfolding emit_entries
emit_entries-Emitted fwrite a search_sym [] s ready =
    λ ok. record { ready = ready; frame = refl; held = λ sect. omega arith }
emit_entries-Emitted fwrite a search_sym (e ∷ es) s ready =
    let s' = (emit_entry fwrite a search_sym e s).1 in
    elim (Bool-cases (emit_entry fwrite a search_sym e s).0) [
      | inl done ↦
          let first = emit_entry-Emitted fwrite a search_sym e s ready done in
          rw done λ ok.
            let rest = emit_entries-Emitted fwrite a search_sym es s' first.ready ok in
            record {
              ready = rest.ready;
              frame = rest.frame ∙ first.frame;
              held = λ sect. omega (arith, rest.held sect, first.held sect);
            }
      | inr stuck ↦ rw stuck λ ok. absurd (false≢true ok)
    ]
