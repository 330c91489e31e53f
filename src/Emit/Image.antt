-- ===== src/Emit/Image.antt =====
-- The bytes that the emission of pass 2 (Assembler/src/pass2.c) writes for an entry.
use assembler_project.Base.{
  ℕ, ◌≡◌, refl, sym, ap, ◌∙◌, Bool, true, false, not, ◌||◌, Option, none, some, List, [], ◌∷◌, ◌++◌,
  ==_iff, ◌==◌, if◌then◌else◌, replicate,
}
use assembler_project.Base.Int.{ℤ, pos}
use assembler_project.Base.Word.{bits64}
use assembler_project.Emit.{
  Emit, fail, emit_half, emit_word, encode_half, encode_word, pass2_emit_instr, pass2_emit_node,
  c_materialize, pass2_emit_data, pass2_emit_align, emit_kind,
}
use assembler_project.Emit.Place.{node_size-fmt_bytes}
use assembler_project.Emit.Resolve.{operand, require_for_op}
use assembler_project.Emit.Sizes.{fmt_bytes}
use assembler_project.Encode.Compressed.Half.{require_c_for_op}
use assembler_project.Ir.Entry.{
  Entry, Choice, Label, Reloc, Kind, Section, sec_data, same_section, ir_instr, ir_data, ir_align,
  is_c_fmt, reloc_none, reloc_hi20, reloc_lo12, reloc_boff, reloc_jtgt,
}
use assembler_project.Ir.WellFormed.{WellFormed}
use assembler_project.Layout.{pass2_node_size_now}
use assembler_project.Out.{out_elf}
use assembler_project.Out.Buffers.{
  buffer, spell, cut, write_half_le-Puts, write_word_le-Puts, write_value_le-Puts, write_zeros-Puts,
}
use assembler_project.Pass.{Arch}
use mathlib.Core.Bool.{false≢true}
use mathlib.Core.List.{append-nil}

-- The code of an instruction with the value `val` in place of its label or immediate, `none` where
-- the encoders refuse it.
abbrev pub encoded : Arch → Choice → Option ℤ → Option ℕ
encoded a i val = if is_c_fmt i.fmt then encode_half a i val else encode_word a i val

-- The code of an entry, at the address that the layout gave it.
abbrev pub code : Arch → (Label → ℤ) → Entry → Option ℕ
code a search_sym e =
    let i = c_materialize e in encoded a i (operand search_sym i.imm i.label i.reloc e.addr)

abbrev pub spell_code : ℕ → Option ℕ → List ℕ
spell_code n none = []
spell_code n (some v) = spell 0 n v

-- What stands in the file for an entry: its code in as many bytes as the layout counts for it, its
-- value in two's complement, or zeros.
abbrev pub written_as : Arch → (Label → ℤ) → Kind → Entry → List ℕ
written_as a search_sym ir_instr e = spell_code (pass2_node_size_now e) (code a search_sym e)
written_as a search_sym ir_data e = spell 0 e.size (bits64 e.imm)
written_as a search_sym ir_align e = replicate e.size 0

-- An instruction has a code: no encoder refuses it.
abbrev pub HasCode : Arch → (Label → ℤ) → Kind → Entry → Type 0
HasCode a search_sym ir_instr e = (v : ℕ) × (code a search_sym e ≡ some v)
HasCode a search_sym ir_data e = Unit
HasCode a search_sym ir_align e = Unit

-- What stands in the file for the entries of a section, in their order.
abbrev pub image : Arch → (Label → ℤ) → Section → List Entry → List ℕ
image a search_sym sect [] = []
image a search_sym sect (e ∷ es) =
    cut sect e.sect (written_as a search_sym e.kind e) ++ image a search_sym sect es

-- A run that succeeds, which it does only with `P`, appends the bytes to the buffer of the current
-- section, and to no other.
abbrev pub Appends : Type 0 → List ℕ → Emit → Bool × Emit → Type 0
Appends P bytes s r =
    r.0 ≡ true
    → P
      × ((sect : Section)
          → buffer sect r.1.out ≡ buffer sect s.out ++ cut sect s.out.cur_sect bytes)

refused : (P : Type 0) (bytes : List ℕ) (s s' : Emit) → Appends P bytes s (false, s')
refused P bytes s s' h = absurd (false≢true h)

choose :
    (P : Type 0) (bytes : List ℕ) (s : Emit) (test : Bool) (x y : Bool × Emit)
    → (test ≡ true → Appends P bytes s x)
    → (test ≡ false → Appends P bytes s y)
    → Appends P bytes s (if test then x else y)
choose P bytes s true x y left right = left refl
choose P bytes s false x y left right = right refl

abbrev IsCode : Option ℕ → Type 0
IsCode c = (v : ℕ) × (c ≡ some v)

emit_half-Appends :
    (fwrite : List ℕ → List ℕ → ℕ) (s : Emit) (half : Option ℕ)
    → s.out.fmt ≡ out_elf
    → Appends (IsCode half) (spell_code 2 half) s (emit_half fwrite s half)
emit_half-Appends fwrite s none elf = refused (IsCode none) [] s ((fail s).1)
emit_half-Appends fwrite s (some half) elf =
    λ h. ((half, refl), write_half_le-Puts fwrite half s.out elf)

emit_word-Appends :
    (fwrite : List ℕ → List ℕ → ℕ) (s : Emit) (word : Option ℕ)
    → s.out.fmt ≡ out_elf
    → Appends (IsCode word) (spell_code 4 word) s (emit_word fwrite s word)
emit_word-Appends fwrite s none elf = refused (IsCode none) [] s ((fail s).1)
emit_word-Appends fwrite s (some word) elf =
    λ h. ((word, refl), write_word_le-Puts fwrite word s.out elf)

pass2_emit_instr-Appends :
    (fwrite : List ℕ → List ℕ → ℕ) (a : Arch) (search_sym : Label → ℤ) (i : Choice) (addr : ℕ)
    (s : Emit)
    → s.out.fmt ≡ out_elf
    → Appends
        (IsCode (encoded a i (operand search_sym i.imm i.label i.reloc addr)))
        (spell_code (fmt_bytes i.fmt) (encoded a i (operand search_sym i.imm i.label i.reloc addr)))
        s
        (pass2_emit_instr fwrite a search_sym i addr s)
unfolding pass2_emit_instr
pass2_emit_instr-Appends fwrite a search_sym i addr s elf =
    let val = operand search_sym i.imm i.label i.reloc addr in
    let P = IsCode (encoded a i val) in
    let bytes = spell_code (fmt_bytes i.fmt) (encoded a i val) in
    let half = encode_half a i val in
    let word = encode_word a i val in
    choose P bytes s s.had_error _ _ (λ t. refused P bytes s s)
      λ t.
        choose P bytes s (not s.outfile) _ _ (λ t. refused P bytes s ((fail s).1))
          λ t.
            choose P bytes s (is_c_fmt i.fmt) _ _
              (λ short. rw short (
                choose (IsCode half) (spell_code 2 half) s (not (require_c_for_op a i.op)) _ _
                  (λ t. refused (IsCode half) (spell_code 2 half) s s)
                  (λ t. emit_half-Appends fwrite s half elf)))
              (λ long. rw long (
                choose (IsCode word) (spell_code 4 word) s (not (require_for_op a i.op)) _ _
                  (λ t. refused (IsCode word) (spell_code 4 word) s ((fail s).1))
                  (λ t. emit_word-Appends fwrite s word elf)))

-- The immediate of an instruction with a label does not count.
operand_label :
    (search_sym : Label → ℤ) (imm : ℤ) (label : Option Label) (reloc : Reloc) (addr : ℕ)
    → operand search_sym (elim label [ some l ↦ pos 0 | none ↦ imm ]) label reloc addr
      ≡ operand search_sym imm label reloc addr
unfolding operand
operand_label search_sym imm none reloc addr = refl
operand_label search_sym imm (some l) reloc_none addr = refl
operand_label search_sym imm (some l) reloc_hi20 addr = refl
operand_label search_sym imm (some l) reloc_lo12 addr = refl
operand_label search_sym imm (some l) reloc_boff addr = refl
operand_label search_sym imm (some l) reloc_jtgt addr = refl

encoded_imm :
    (a : Arch) (i : Choice) (imm : ℤ) (val : Option ℤ)
    → encoded a (record i { imm = imm }) val ≡ encoded a i val
unfolding encode_half encode_word
encoded_imm a i imm none = refl
encoded_imm a i imm (some v) = refl

pass2_emit_node-Appends :
    (fwrite : List ℕ → List ℕ → ℕ) (a : Arch) (search_sym : Label → ℤ) (e : Entry) (s : Emit)
    → WellFormed e
    → s.out.fmt ≡ out_elf
    → Appends
        (HasCode a search_sym ir_instr e)
        (written_as a search_sym ir_instr e)
        s
        (pass2_emit_node fwrite a search_sym e s)
unfolding pass2_emit_node
pass2_emit_node-Appends fwrite a search_sym e s w elf =
    let i = c_materialize e in
    let use_imm : ℤ = elim i.label [ some l ↦ pos 0 | none ↦ i.imm ] in
    let same : encoded a (record i { imm = use_imm })
          (operand search_sym use_imm i.label i.reloc e.addr)
        ≡ code a search_sym e =
      encoded_imm a i use_imm (operand search_sym use_imm i.label i.reloc e.addr)
      ∙ ap (encoded a i) (operand_label search_sym i.imm i.label i.reloc e.addr) in
    rw (node_size-fmt_bytes e w, ← same)
      (pass2_emit_instr-Appends fwrite a search_sym (record i { imm = use_imm }) e.addr s elf)

pass2_emit_data-Appends :
    (fwrite : List ℕ → List ℕ → ℕ) (value : ℤ) (size : ℕ) (s : Emit)
    → s.out.fmt ≡ out_elf
    → Appends Unit (spell 0 size (bits64 value)) s (pass2_emit_data fwrite value size s)
unfolding pass2_emit_data
pass2_emit_data-Appends fwrite value size s elf =
    let bytes = spell 0 size (bits64 value) in
    choose Unit bytes s s.had_error _ _ (λ t. refused Unit bytes s s)
      λ t.
        choose Unit bytes s (not s.outfile || not (same_section s.out_section sec_data)) _ _
          (λ t. refused Unit bytes s ((fail s).1))
          λ t h. (tt, write_value_le-Puts fwrite value size s.out elf h)

cut_none : (b : Bool) (xs : List ℕ) → xs ++ (if b then [] else []) ≡ xs
cut_none true xs = append-nil xs
cut_none false xs = append-nil xs

nothing : (s : Emit) → Appends Unit [] s (true, s)
nothing s h = (tt, λ sect. sym (cut_none (same_section sect s.out.cur_sect) (buffer sect s.out)))

pass2_emit_align-Appends :
    (fwrite : List ℕ → List ℕ → ℕ) (pad_bytes : ℕ) (s : Emit)
    → s.out.fmt ≡ out_elf
    → Appends Unit (replicate pad_bytes 0) s (pass2_emit_align fwrite pad_bytes s)
unfolding pass2_emit_align
pass2_emit_align-Appends fwrite pad_bytes s elf =
    let bytes = replicate pad_bytes 0 in
    choose Unit bytes s (pad_bytes == 0) _ _ (λ t. rw ((==_iff pad_bytes 0).0 t) (nothing s))
      λ t.
        choose Unit bytes s s.had_error _ _ (λ t. refused Unit bytes s s)
          λ t.
            choose Unit bytes s (not s.outfile) _ _ (λ t. refused Unit bytes s ((fail s).1))
              λ t h. (tt, write_zeros-Puts fwrite pad_bytes s.out elf)

pub emit_kind-Appends :
    (fwrite : List ℕ → List ℕ → ℕ) (a : Arch) (search_sym : Label → ℤ) (k : Kind) (e : Entry)
    (s : Emit)
    → WellFormed e
    → s.out.fmt ≡ out_elf
    → Appends
        (HasCode a search_sym k e)
        (written_as a search_sym k e)
        s
        (emit_kind fwrite a search_sym k e s)
unfolding emit_kind
emit_kind-Appends fwrite a search_sym ir_instr e s w elf =
    pass2_emit_node-Appends fwrite a search_sym e s w elf
emit_kind-Appends fwrite a search_sym ir_data e s w elf =
    pass2_emit_data-Appends fwrite e.imm e.size s elf
emit_kind-Appends fwrite a search_sym ir_align e s w elf =
    pass2_emit_align-Appends fwrite e.size s elf
