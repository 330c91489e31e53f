-- ===== src/Out/Elf/Disjoint.antt =====
-- The pieces of the ELF file do not overlap.
use assembler_project.Base.{
  ℕ, ◌+◌, ◌*◌, ◌≤◌, ◌≡◌, refl, sym, ap, ◌∙◌, ◌≢◌, inl, inr, Bool, List, [], ◌∷◌, ◌++◌, arith, ◌==◌,
  Bool-cases, length, length-append,
}
use assembler_project.Out.{Out}
use native.Mathlib.Nat.{mul-le-mul_right}
use assembler_project.Out.Elf.{
  when, contents, program_headers, section_headers, elf_writes, phdr_bytes, section_bytes,
  header_bytes, text_phdr, data_phdr, text_shdr, data_shdr, shstr_shdr, zero_shdr, file_header,
}
use assembler_project.Out.Elf.Planned.{plan, ehdr_sz, phdr_sz, shdr_sz, one_if}
use assembler_project.Out.Elf.Headers.{Ehdr, Shdr}
use assembler_project.Out.Elf.Pieces.{Piece, Between, Between-one, Between-append, Pairwise}
use assembler_project.Out.Elf.Offsets.{
  Bounds, plan-Bounds, Fits, length-phdr_bytes, length-section_bytes, length-header_bytes,
}

Between-when :
    (lo hi size : ℕ) (w : Piece)
    → (size ≢ 0 → (lo ≤ w.0) × (w.0 + length w.1 ≤ hi))
    → Between lo hi (when size (w ∷ []))
Between-when lo hi size w at = elim (Bool-cases (size == 0)) [
  | inl nothing ↦ rw nothing (record { inside = tt; pairwise = tt })
  | inr some_bytes ↦
      let (l, h) = at (λ z. ground (arith, z)) in rw some_bytes (Between-one lo hi w l h)
]

contents-Between :
    (is64 : Bool) (g : Out) (b : Bounds is64 (length g.text) (length g.data_bytes))
    → Between b.heads
        (plan is64 (length g.text) (length g.data_bytes)).shoff
        (contents g (plan is64 (length g.text) (length g.data_bytes)))
unfolding contents
contents-Between is64 g b =
    let p = plan is64 (length g.text) (length g.data_bytes) in
    Between-append b.heads p.shoff b.heads b.text_end b.text_end p.shoff _ _
      (Between-when b.heads b.text_end (length g.text) (p.text_off, g.text)
        (λ h. let (x, y) = b.text h in (x, omega (arith, y))))
      (Between-append b.text_end p.shoff b.text_end p.shstr_off p.shstr_off p.shoff _ _
        (Between-when b.text_end p.shstr_off (length g.data_bytes) (p.data_off, g.data_bytes)
          (λ h. let (x, y) = b.data_at h in (x, omega (arith, y))))
        (Between-one p.shstr_off p.shoff (p.shstr_off, p.shstr) (omega arith) b.names)
        (inl (omega arith)) (omega arith, b.data_from, omega (arith, b.names), omega arith))
      (inl (omega arith))
      (omega arith, b.text_from, omega (arith, b.data_from, b.names), omega arith)

eq_le : (a b : ℕ) → a ≡ b → a ≤ b
eq_le a b e = omega (arith, e)

length-parts :
    (t d k : ℕ) (x y : List ℕ)
    → length x ≡ k
    → length y ≡ k
    → length (when t x ++ when d y) ≡ k * (one_if t + one_if d)
length-parts t d k x y a b =
    let both : length (x ++ y) ≡ k + k = omega (arith, length-append x y, a, b) in
    elim (Bool-cases (t == 0)) [
      | inl no_text ↦ elim (Bool-cases (d == 0)) [
        | inl no_data ↦ rw (no_text, no_data) (omega arith)
        | inr some_data ↦ rw (no_text, some_data) (omega (arith, b))
      ]
      | inr some_text ↦ elim (Bool-cases (d == 0)) [
        | inl no_data ↦ rw (some_text, no_data) (omega (arith, length-append x [], a))
        | inr some_data ↦ rw (some_text, some_data) (omega (arith, both))
      ]
    ]

-- The program headers stand right behind the file header.
program_headers-Between :
    (is64 : Bool) (g : Out) (b : Bounds is64 (length g.text) (length g.data_bytes))
    → Between
        (ehdr_sz is64)
        b.heads
        (program_headers is64 g (plan is64 (length g.text) (length g.data_bytes)))
unfolding program_headers
program_headers-Between is64 g b =
    let p = plan is64 (length g.text) (length g.data_bytes) in
    let text = phdr_bytes is64 (text_phdr g p) in
    let data_part = phdr_bytes is64 (data_phdr g p) in
    let sum =
      length-parts (length g.text) (length g.data_bytes) (phdr_sz is64) text data_part
        (length-phdr_bytes is64 (text_phdr g p)) (length-phdr_bytes is64 (data_phdr g p)) in
    Between-when (ehdr_sz is64) b.heads p.phnum
      (ehdr_sz is64, when (length g.text) text ++ when (length g.data_bytes) data_part)
      (λ h.
        (omega arith, eq_le _ _ (ap {B = ℕ} (λ (n : ℕ). ehdr_sz is64 + n) sum ∙ sym b.heads_is)))

-- The end of the section headers.
abbrev pub table_end : Bool → Out → ℕ
table_end is64 g =
    (plan is64 (length g.text) (length g.data_bytes)).shoff
    + (2 + one_if (length g.text) + one_if (length g.data_bytes)) * shdr_sz is64

-- The entry `i` of the table of section headers.
nth_Between :
    (is64 : Bool) (off i : ℕ) (h : Shdr)
    → Between
        (off + i * shdr_sz is64)
        (off + (i + 1) * shdr_sz is64)
        ((off + i * shdr_sz is64, section_bytes is64 h) ∷ [])
nth_Between is64 off i h =
    Between-one _ _ _ (omega arith) (ground (arith, length-section_bytes is64 h))

nth_when :
    (is64 : Bool) (off i size : ℕ) (h : Shdr)
    → Between
        (off + i * shdr_sz is64)
        (off + (i + one_if size) * shdr_sz is64)
        (when size ((off + i * shdr_sz is64, section_bytes is64 h) ∷ []))
nth_when is64 off i size h =
    Between-when _ _ size _
      λ some_bytes. (omega arith, ground (arith, length-section_bytes is64 h, some_bytes))

step_le : (off m i j : ℕ) → i ≤ j → off + i * m ≤ off + j * m
step_le off m i j h = omega (arith, mul-le-mul_right m h)

table_Between :
    (is64 : Bool) (off t d : ℕ) (z x y n : Shdr)
    → Between off (off + (2 + one_if t + one_if d) * shdr_sz is64) (
        (off + 0 * shdr_sz is64, section_bytes is64 z)
        ∷ (when t ((off + 1 * shdr_sz is64, section_bytes is64 x) ∷ [])
            ++ (when d ((off + (1 + one_if t) * shdr_sz is64, section_bytes is64 y) ∷ [])
                ++ (off + (1 + one_if t + one_if d) * shdr_sz is64, section_bytes is64 n) ∷ [])))
table_Between is64 off t d z x y n =
    let m = shdr_sz is64 in
    let at = λ (i : ℕ). off + i * m in
    let i = 1 + one_if t in
    let j = 1 + one_if t + one_if d in
    let tail =
      Between-append (at i) (at (j + 1)) (at i) (at j) (at j) (at (j + 1)) _ _
        (nth_when is64 off i d y) (nth_Between is64 off j n) (inl (omega arith))
        (
          omega arith,
          step_le off m i j (omega arith),
          step_le off m j (j + 1) (omega arith),
          omega arith,
        ) in
    let middle =
      Between-append (at 1) (at (j + 1)) (at 1) (at i) (at i) (at (j + 1)) _ _
        (nth_when is64 off 1 t x) tail (inl (omega arith))
        (
          omega arith,
          step_le off m 1 i (omega arith),
          step_le off m i (j + 1) (omega arith),
          omega arith,
        ) in
    let whole : j + 1 ≡ 2 + one_if t + one_if d = omega arith in
    Between-append off (at (2 + one_if t + one_if d)) (at 0) (at 1) (at 1) (at (j + 1)) _ _
      (nth_Between is64 off 0 z) middle (inl (omega arith))
      (
        omega arith,
        omega arith,
        step_le off m 1 (2 + one_if t + one_if d) (omega arith),
        step_le off m (j + 1) (2 + one_if t + one_if d) (omega (arith, whole)),
      )

section_headers-Between :
    (is64 : Bool) (g : Out)
    → Between
        (plan is64 (length g.text) (length g.data_bytes)).shoff
        (table_end is64 g)
        (section_headers is64 g (plan is64 (length g.text) (length g.data_bytes)))
unfolding section_headers
section_headers-Between is64 g =
    let p = plan is64 (length g.text) (length g.data_bytes) in
    table_Between is64 p.shoff (length g.text) (length g.data_bytes) zero_shdr (text_shdr g p)
      (data_shdr g p) (shstr_shdr p)

first_Between :
    (is64 : Bool) (h : Ehdr)
    → length h.e_ident ≡ 16
    → Between 0 (ehdr_sz is64) ((0, header_bytes is64 h) ∷ [])
first_Between is64 h l =
    Between-one 0 (ehdr_sz is64) (0, header_bytes is64 h) (omega arith)
      (zero_plus (length (header_bytes is64 h)) (ehdr_sz is64) (length-header_bytes is64 h l))
  where
    zero_plus : (a b : ℕ) → a ≡ b → 0 + a ≤ b
    zero_plus a b e = omega (arith, e)

-- The writes of the whole file do not overlap.
pub elf_writes-Pairwise :
    (is64 : Bool) (entry_addr : ℕ) (g : Out)
    → Fits g
    → Pairwise (elf_writes is64 entry_addr g (plan is64 (length g.text) (length g.data_bytes)))
unfolding elf_writes
elf_writes-Pairwise is64 entry_addr g fits =
    let p = plan is64 (length g.text) (length g.data_bytes) in
    let b = plan-Bounds is64 (length g.text) (length g.data_bytes) fits in
    let header = header_bytes is64 (file_header is64 entry_addr g p) in
    let heads : ehdr_sz is64 ≤ b.heads = omega (arith, b.heads_is) in
    let before : b.heads ≤ p.shoff = omega (arith, b.text_from, b.data_from, b.names) in
    let end = table_end is64 g in
    let grows : p.shoff ≤ end = omega arith in
    let sections =
      Between-append (ehdr_sz is64) p.shoff b.heads p.shoff (ehdr_sz is64) b.heads (contents g p)
        (program_headers is64 g p) (contents-Between is64 g b) (program_headers-Between is64 g b)
        (inr (omega arith)) (heads, omega arith, omega arith, before) in
    let tables =
      Between-append (ehdr_sz is64) end (ehdr_sz is64) p.shoff p.shoff end
        (contents g p ++ program_headers is64 g p) (section_headers is64 g p) sections
        (section_headers-Between is64 g) (inl (omega arith))
        (omega arith, omega (arith, heads, before), grows, omega arith) in
    let first = first_Between is64 (file_header is64 entry_addr g p) refl in
    (Between-append 0 end (ehdr_sz is64) end 0 (ehdr_sz is64)
      ((contents g p ++ program_headers is64 g p) ++ section_headers is64 g p) ((0, header) ∷ [])
      tables first (inr (omega arith))
      (omega arith, omega arith, omega arith, omega (arith, heads, before, grows))).pairwise
