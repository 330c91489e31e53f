-- ===== src/Out/Elf/Load.antt =====
-- The ELF file that `out_finish` writes is loaded as the two sections.
use assembler_project.Base.{
  ℕ, zero, suc, ◌+◌, ◌^◌, ◌≤◌, ◌<◌, ◌≡◌, refl, sym, ap, ◌∙◌, ◌≢◌, inl, inr, Bool, true, false,
  Option, some, List, [], ◌∷◌, ◌++◌, arith, ◌==◌, if◌then◌else◌, Bool-cases, length, All,
}
use assembler_project.Out.{Out, OutFormat, out_elf}
use assembler_project.Out.Elf.{
  when, contents, program_headers, section_headers, elf_writes, phdr_bytes, header_bytes, text_phdr,
  data_phdr, file_header, finish, finish_elf, out_finish,
}
use assembler_project.Out.Elf.Planned.{Plan, plan, ehdr_sz, phdr_sz, one_if}
use assembler_project.Out.Elf.Disjoint.{elf_writes-Pairwise}
use assembler_project.Out.Elf.Headers.{elf32_ehdr, elf64_ehdr}
use assembler_project.Out.Elf.Image.{
  Segment, load_at, load_elf, segments, read_field, load_at-phdr, IsShort,
}
use assembler_project.Out.Elf.Kept.{Has, IsStdio}
use assembler_project.Out.Elf.Offsets.{plan-Bounds, Fits, length-phdr_bytes}
use assembler_project.Out.Elf.Pieces.{Piece, write_all-Has}
use assembler_project.Out.Elf.Write.{Stdio, write_all}
use mathlib.Core.Path.{subst}

All-split : (P : Piece → Type 0) (ws vs : List Piece) → All P (ws ++ vs) → All P ws × All P vs
All-split P [] vs h = (tt, h)
All-split P (w ∷ ws) vs (x, h) = let (a, b) = All-split P ws vs h in ((x, a), b)

All-when : (P : Piece → Type 0) (size : ℕ) (w : Piece) → All P (when size (w ∷ [])) → size ≢ 0 → P w
All-when P size w = elim (Bool-cases (size == 0)) [
  | inl nothing ↦ rw nothing λ h some_bytes. absurd (some_bytes (ground arith))
  | inr some_bytes ↦ rw some_bytes λ h nz. h.0
]

Has-split :
    (f : List ℕ) (off : ℕ) (as' bs : List ℕ)
    → Has f off (as' ++ bs)
    → Has f off as' × Has f (off + length as') bs
Has-split f off [] bs h = (tt, subst (λ (o : ℕ). Has f o bs) (omega arith) h)
Has-split f off (a ∷ as') bs (x, h) =
    let (p, q) = Has-split f (suc off) as' bs h in
    ((x, p), subst (λ (o : ℕ). Has f o bs) (omega arith) q)

-- What a loader takes from the file header.
header_fields :
    (is64 : Bool) (entry_addr : ℕ) (g : Out) (p : Plan) (f : List ℕ)
    → p.phnum ≤ 2
    → Has f 0 (header_bytes is64 (file_header is64 entry_addr g p))
    → load_elf f ≡ segments p.phnum is64 f (if p.phnum == 0 then 0 else ehdr_sz is64) (phdr_sz is64)
unfolding elf32_ehdr elf64_ehdr
header_fields true entry_addr g p f few h =
    let bs = header_bytes true (file_header true entry_addr g p) in
    let at : ℕ = if p.phnum == 0 then 0 else 64 in
    let class = read_field 1 f 0 4 2 bs h (omega arith) refl (omega arith) in
    let phnum = read_field 2 f 0 56 p.phnum bs h (omega arith) refl (omega (arith, few)) in
    let phoff = read_field 8 f 0 32 at bs h (omega arith) refl (ground arith) in
    let size = read_field 2 f 0 54 56 bs h (omega arith) refl (omega arith) in
    rw (class, phnum, phoff, size) refl
header_fields false entry_addr g p f few h =
    let bs = header_bytes false (file_header false entry_addr g p) in
    let at : ℕ = if p.phnum == 0 then 0 else 52 in
    let class = read_field 1 f 0 4 1 bs h (omega arith) refl (omega arith) in
    let phnum = read_field 2 f 0 44 p.phnum bs h (omega arith) refl (omega (arith, few)) in
    let phoff = read_field 4 f 0 28 at bs h (omega arith) refl (ground arith) in
    let size = read_field 2 f 0 42 32 bs h (omega arith) refl (omega arith) in
    rw (class, phnum, phoff, size) refl

-- The segments of the sections that are not empty.
abbrev pub segments_of : Out → List Segment
segments_of g =
    when (length g.text) (record { vaddr = g.vaddr_text_base; flags = 5; content = g.text } ∷ [])
    ++ when (length g.data_bytes)
        (record { vaddr = g.vaddr_data_base; flags = 6; content = g.data_bytes } ∷ [])

some_headers :
    (n at a size : ℕ) (is64 : Bool) (f : List ℕ)
    → at ≡ (if n == 0 then 0 else a)
    → segments n is64 f at size ≡ segments n is64 f a size
some_headers zero at a size is64 f e = refl
some_headers (suc n) at a size is64 f e =
    let e' : at ≡ a = ground (arith, e) in ap (λ (o : ℕ). segments (suc n) is64 f o size) e'

both_segments :
    (is64 : Bool) (f : List ℕ) (at t d : ℕ) (x y : List ℕ) (s u : Segment)
    → length x ≡ phdr_sz is64
    → (t ≢ 0 → (o : ℕ) → Has f o x → load_at is64 f o ≡ s)
    → (d ≢ 0 → (o : ℕ) → Has f o y → load_at is64 f o ≡ u)
    → (one_if t + one_if d ≢ 0 → Has f at (when t x ++ when d y))
    → segments (one_if t + one_if d) is64 f at (phdr_sz is64) ≡ when t (s ∷ []) ++ when d (u ∷ [])
both_segments is64 f at t d x y s u size first second = elim (Bool-cases (t == 0)) [
  | inl no_text ↦ elim (Bool-cases (d == 0)) [
    | inl no_data ↦ rw (no_text, no_data) λ h. refl
    | inr some_data ↦
        rw (no_text, some_data)
          λ h. ap (λ (q : Segment). q ∷ []) (second (λ z. ground arith) at (h (omega arith)))
  ]
  | inr some_text ↦ elim (Bool-cases (d == 0)) [
    | inl no_data ↦
        rw (some_text, no_data)
          λ h.
            ap (λ (q : Segment). q ∷ [])
              (first (λ z. ground arith) at (Has-split f at x [] (h (omega arith))).0)
    | inr some_data ↦
        rw (some_text, some_data)
          λ h.
            let (p, q) = Has-split f at x y (h (omega arith)) in
            let q' : Has f (at + phdr_sz is64) y = subst (λ (n : ℕ). Has f (at + n) y) size q in
            rw (first (λ z. ground arith) at p, second (λ z. ground arith) (at + phdr_sz is64) q')
              refl
  ]
]

-- Base addresses that the 32-bit fields hold.
abbrev pub IsLow : Out → Type 0
IsLow g = (g.vaddr_text_base < 2 ^ 32) × (g.vaddr_data_base < 2 ^ 32)

abbrev the_plan : Out → Bool → Plan
the_plan g is64 = plan is64 (length g.text) (length g.data_bytes)

text-IsShort :
    (is64 : Bool) (g : Out)
    → Fits g
    → IsLow g
    → length g.text ≢ 0
    → IsShort (text_phdr g (the_plan g is64))
text-IsShort is64 g fits low some_text =
    let b = plan-Bounds is64 (length g.text) (length g.data_bytes) fits in
    let (lo, hi) = b.text some_text in
    record {
      vaddr = low.0;
      flags = omega arith;
      offset = omega (arith, hi, b.data_from, b.below);
      filesz = omega (arith, fits);
    }

data-IsShort :
    (is64 : Bool) (g : Out)
    → Fits g
    → IsLow g
    → length g.data_bytes ≢ 0
    → IsShort (data_phdr g (the_plan g is64))
data-IsShort is64 g fits low some_data =
    let b = plan-Bounds is64 (length g.text) (length g.data_bytes) fits in
    let (lo, hi) = b.data_at some_data in
    record {
      vaddr = low.1;
      flags = omega arith;
      offset = omega (arith, hi, b.below);
      filesz = omega (arith, fits);
    }

phnum_is :
    (is64 : Bool) (g : Out)
    → (the_plan g is64).phnum ≡ one_if (length g.text) + one_if (length g.data_bytes)
unfolding plan
phnum_is is64 g = refl

count_few : (is64 : Bool) (g : Out) → (the_plan g is64).phnum ≤ 2
count_few is64 g = ground (arith, phnum_is is64 g)

-- All pieces of the file are there.
abbrev AllHeld : List ℕ → List Piece → Type 0
AllHeld f ws = All (λ (w : Piece). Has f w.0 w.1) ws

held-load :
    (is64 : Bool) (entry_addr : ℕ) (g : Out) (f : List ℕ)
    → Fits g
    → IsLow g
    → AllHeld f (elf_writes is64 entry_addr g (the_plan g is64))
    → load_elf f ≡ segments_of g
unfolding elf_writes contents program_headers
held-load is64 entry_addr g f fits low held =
    let p = the_plan g is64 in
    let P : Piece → Type 0 = λ (w : Piece). Has f w.0 w.1 in
    let (tables, (header, _)) =
      All-split P ((contents g p ++ program_headers is64 g p) ++ section_headers is64 g p) _ held in
    let (parts, _) = All-split P (contents g p ++ program_headers is64 g p) _ tables in
    let (inner, headers) = All-split P (contents g p) _ parts in
    let (text, later) = All-split P (when (length g.text) ((p.text_off, g.text) ∷ [])) _ inner in
    let (data_part, _) =
      All-split P (when (length g.data_bytes) ((p.data_off, g.data_bytes) ∷ [])) _ later in
    let x = phdr_bytes is64 (text_phdr g p) in
    let y = phdr_bytes is64 (data_phdr g p) in
    let count = phnum_is is64 g in
    header_fields is64 entry_addr g p f (count_few is64 g) header
    ∙ some_headers p.phnum _ (ehdr_sz is64) (phdr_sz is64) is64 f refl
    ∙ ap (λ (n : ℕ). segments n is64 f (ehdr_sz is64) (phdr_sz is64)) count
    ∙ both_segments is64 f (ehdr_sz is64) (length g.text) (length g.data_bytes) x y
        (record { vaddr = g.vaddr_text_base; flags = 5; content = g.text })
        (record { vaddr = g.vaddr_data_base; flags = 6; content = g.data_bytes })
        (length-phdr_bytes is64 (text_phdr g p))
        (λ nz o h.
          load_at-phdr is64 f o (text_phdr g p) g.text (text-IsShort is64 g fits low nz) h
            (All-when P (length g.text) (p.text_off, g.text) text nz) refl)
        (λ nz o h.
          load_at-phdr is64 f o (data_phdr g p) g.data_bytes (data-IsShort is64 g fits low nz) h
            (All-when P (length g.data_bytes) (p.data_off, g.data_bytes) data_part nz) refl)
        (λ nz.
          All-when P p.phnum (ehdr_sz is64, when (length g.text) x ++ when (length g.data_bytes) y)
            headers (λ z. nz (sym count ∙ z)))

-- When `out_finish` succeeds for an ELF file whose output is set, the file's program headers
-- describe two segments: the text at its base address, readable and executable, and the data at
-- its base, readable and writable, each with its bytes, and none for a section that is empty.
-- `fwrite` takes what it is given or fewer bytes; the sections have up to 2^31 bytes together, and
-- the bases fit in 32 bits.
pub out_finish-load :
    (io : Stdio) (entry_addr : ℕ) (g : Out) (f : List ℕ)
    → g.fmt ≡ out_elf
    → g.fp ≡ some f
    → IsStdio io
    → Fits g
    → IsLow g
    → (out_finish io entry_addr g).0 ≡ true
    → (f' : List ℕ) × ((out_finish io entry_addr g).1.fp ≡ some f') × (load_elf f' ≡ segments_of g)
unfolding out_finish
out_finish-load io entry_addr g f elf file lib fits low ok =
    let is64 = g.xlen == 64 in
    let ws = elf_writes is64 entry_addr g (the_plan g is64) in
    let r = write_all io ws f in
    let eq : finish g.fmt io entry_addr g ≡ (r.0, record g { fp = some r.1 }) =
      ap (λ (m : OutFormat). finish m io entry_addr g) elf
      ∙ ap (λ (o : Option (List ℕ)). finish_elf io entry_addr g o) file in
    let done : r.0 ≡ true = ap (λ (q : Bool × Out). q.0) (sym eq) ∙ ok in
    let held = write_all-Has io ws f r lib (elf_writes-Pairwise is64 entry_addr g fits) refl done in
    (r.1, ap (λ (q : Bool × Out). q.1.fp) eq, held-load is64 entry_addr g r.1 fits low held)
