-- ===== src/Emit/Sizes.antt =====
-- How many bytes an entry adds to its section's buffer, for an ELF file.
use assembler_project.Base.{
  ℕ, ◌≡◌, refl, Bool, true, false, not, ◌||◌, Option, none, some, List, arith, ◌==◌, if◌then◌else◌,
}
use assembler_project.Base.Int.{ℤ}
use assembler_project.Emit.{
  Emit, fail, emit_half, emit_word, encode_half, encode_word, pass2_emit_instr, pass2_emit_node,
  c_materialize, pass2_emit_data, pass2_emit_align, emit_kind,
}
use assembler_project.Emit.Resolve.{operand}
use assembler_project.Encode.Compressed.Half.{require_c_for_op}
use assembler_project.Emit.Resolve.{require_for_op}
use assembler_project.Ir.Entry.{
  Entry, Choice, Label, Kind, Fmt, sec_data, same_section, ir_instr, ir_data, ir_align, is_c_fmt,
}
use assembler_project.Out.{out_elf}
use assembler_project.Out.Bytes.{
  Grows, Grows-none, write_half_le-Grows, write_word_le-Grows, write_value_le-Grows,
  write_zeros-Grows,
}
use assembler_project.Pass.{Arch}
use mathlib.Core.Bool.{false≢true}

-- A run that succeeds adds `n` bytes to the current section and stays in it.
abbrev pub Adds : ℕ → Emit → Bool × Emit → Type 0
Adds n s r = r.0 ≡ true → Grows n s.out r.1.out × (r.1.out_section ≡ s.out_section)

refused : (n : ℕ) (s s' : Emit) → Adds n s (false, s')
refused n s s' h = absurd (false≢true h)

choose :
    (n : ℕ) (s : Emit) (test : Bool) (x y : Bool × Emit)
    → (test ≡ true → Adds n s x)
    → (test ≡ false → Adds n s y)
    → Adds n s (if test then x else y)
choose n s true x y left right = left refl
choose n s false x y left right = right refl

emit_half-Adds :
    (fwrite : List ℕ → List ℕ → ℕ) (s : Emit) (half : Option ℕ)
    → s.out.fmt ≡ out_elf
    → Adds 2 s (emit_half fwrite s half)
emit_half-Adds fwrite s none elf = refused 2 s ((fail s).1)
emit_half-Adds fwrite s (some half) elf = λ h. (write_half_le-Grows fwrite half s.out elf, refl)

emit_word-Adds :
    (fwrite : List ℕ → List ℕ → ℕ) (s : Emit) (word : Option ℕ)
    → s.out.fmt ≡ out_elf
    → Adds 4 s (emit_word fwrite s word)
emit_word-Adds fwrite s none elf = refused 4 s ((fail s).1)
emit_word-Adds fwrite s (some word) elf = λ h. (write_word_le-Grows fwrite word s.out elf, refl)

-- A format's length in bytes.
abbrev pub fmt_bytes : Fmt → ℕ
fmt_bytes fmt = if is_c_fmt fmt then 2 else 4

pub pass2_emit_instr-Adds :
    (fwrite : List ℕ → List ℕ → ℕ) (a : Arch) (search_sym : Label → ℤ) (i : Choice) (addr : ℕ)
    (s : Emit)
    → s.out.fmt ≡ out_elf
    → Adds (fmt_bytes i.fmt) s (pass2_emit_instr fwrite a search_sym i addr s)
unfolding pass2_emit_instr
pass2_emit_instr-Adds fwrite a search_sym i addr s elf =
    let n = fmt_bytes i.fmt in
    let val = operand search_sym i.imm i.label i.reloc addr in
    choose n s s.had_error _ _ (λ t. refused n s s)
      λ t.
        choose n s (not s.outfile) _ _ (λ t. refused n s ((fail s).1))
          λ t.
            choose n s (is_c_fmt i.fmt) _ _
              (λ short. rw short (
                choose 2 s (not (require_c_for_op a i.op)) _ _ (λ t. refused 2 s s)
                  (λ t. emit_half-Adds fwrite s (encode_half a i val) elf)))
              (λ long. rw long (
                choose 4 s (not (require_for_op a i.op)) _ _ (λ t. refused 4 s ((fail s).1))
                  (λ t. emit_word-Adds fwrite s (encode_word a i val) elf)))

pub pass2_emit_node-Adds :
    (fwrite : List ℕ → List ℕ → ℕ) (a : Arch) (search_sym : Label → ℤ) (e : Entry) (s : Emit)
    → s.out.fmt ≡ out_elf
    → Adds (fmt_bytes (c_materialize e).fmt) s (pass2_emit_node fwrite a search_sym e s)
unfolding pass2_emit_node
pass2_emit_node-Adds fwrite a search_sym e s elf =
    pass2_emit_instr-Adds fwrite a search_sym _ e.addr s elf

pass2_emit_data-Adds :
    (fwrite : List ℕ → List ℕ → ℕ) (value : ℤ) (size : ℕ) (s : Emit)
    → s.out.fmt ≡ out_elf
    → Adds size s (pass2_emit_data fwrite value size s)
unfolding pass2_emit_data
pass2_emit_data-Adds fwrite value size s elf =
    choose size s s.had_error _ _ (λ t. refused size s s)
      λ t.
        choose size s (not s.outfile || not (same_section s.out_section sec_data)) _ _
          (λ t. refused size s ((fail s).1))
          λ t h. (write_value_le-Grows fwrite value size s.out elf h, refl)

pass2_emit_align-Adds :
    (fwrite : List ℕ → List ℕ → ℕ) (pad_bytes : ℕ) (s : Emit)
    → s.out.fmt ≡ out_elf
    → Adds pad_bytes s (pass2_emit_align fwrite pad_bytes s)
unfolding pass2_emit_align
pass2_emit_align-Adds fwrite pad_bytes s elf =
    choose pad_bytes s (pad_bytes == 0) _ _
      (λ t. let e : pad_bytes ≡ 0 = ground arith in λ h. (rw e (Grows-none s.out), refl))
      λ t.
        choose pad_bytes s s.had_error _ _ (λ t. refused pad_bytes s s)
          λ t.
            choose pad_bytes s (not s.outfile) _ _ (λ t. refused pad_bytes s ((fail s).1))
              λ t h. (write_zeros-Grows fwrite pad_bytes s.out elf, refl)

-- The bytes of an entry, by what it is.
abbrev pub bytes_of : Kind → Entry → ℕ
bytes_of ir_instr e = fmt_bytes (c_materialize e).fmt
bytes_of ir_data e = e.size
bytes_of ir_align e = e.size

pub emit_kind-Adds :
    (fwrite : List ℕ → List ℕ → ℕ) (a : Arch) (search_sym : Label → ℤ) (k : Kind) (e : Entry)
    (s : Emit)
    → s.out.fmt ≡ out_elf
    → Adds (bytes_of k e) s (emit_kind fwrite a search_sym k e s)
unfolding emit_kind
emit_kind-Adds fwrite a search_sym ir_instr e s elf =
    pass2_emit_node-Adds fwrite a search_sym e s elf
emit_kind-Adds fwrite a search_sym ir_data e s elf = pass2_emit_data-Adds fwrite e.imm e.size s elf
emit_kind-Adds fwrite a search_sym ir_align e s elf = pass2_emit_align-Adds fwrite e.size s elf
