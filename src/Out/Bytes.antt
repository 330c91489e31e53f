-- ===== src/Out/Bytes.antt =====
-- How far the sink's writes move the end of the section's buffer.
use assembler_project.Base.{
  ℕ, zero, suc, ◌+◌, ◌/◌, ◌≡◌, refl, sym, ap, ◌∙◌, ◌≢◌, inl, inr, Bool, true, false, ◌&&◌, Option,
  List, arith, ◌!=◌, if◌then◌else◌, Bool-cases, length, replicate, length-append, length-replicate,
}
use assembler_project.Base.Int.{ℤ}
use assembler_project.Base.Word.{bits64}
use mathlib.Core.Bool.{false≢true}
use assembler_project.Ir.Entry.{same_section, Section, sec_text, sec_data}
use assembler_project.Out.{
  Out, mark_rvc, write_to, zeros_to, OutFormat, out_elf, out_raw, bv_append, bytes_le, sink_write,
  sink_zeros, write_word_le, write_half_le, write_value_le, write_zeros,
}

-- The bytes that the buffer of a section holds.
abbrev pub held : Section → Out → ℕ
held sec_text g = length g.text
held sec_data g = length g.data_bytes

pub length-bytes_le : (n v : ℕ) → length (bytes_le n v) ≡ n
length-bytes_le zero v = refl
length-bytes_le (suc n) v = ap suc (length-bytes_le n (v / 256))

-- The bytes that reach a section when `n` of them are written to `cur`.
abbrev pub share : Section → Section → ℕ → ℕ
share sect cur n = if same_section sect cur then n else 0

-- What no write for an ELF file touches: the file and the base addresses.
abbrev pub frame : Out → Option (List ℕ) × ℕ × ℕ
frame g = (g.fp, g.vaddr_text_base, g.vaddr_data_base)

-- For an ELF file, a write adds its bytes to the buffer of the current section and to no other.
pub record Grows (n : ℕ) (g g' : Out) : Type 0 where
  pub fmt : g'.fmt ≡ g.fmt
  pub cur_sect : g'.cur_sect ≡ g.cur_sect
  pub frame : frame g' ≡ frame g
  pub held : (sect : Section) → held sect g' ≡ held sect g + share sect g.cur_sect n

bv_append-held :
    (cur : Section) (bytes : List ℕ) (g : Out) (sect : Section)
    → held sect (bv_append cur bytes g) ≡ held sect g + share sect cur (length bytes)
bv_append-held sec_text bytes g sec_text = length-append g.text bytes
bv_append-held sec_text bytes g sec_data = omega arith
bv_append-held sec_data bytes g sec_text = omega arith
bv_append-held sec_data bytes g sec_data = length-append g.data_bytes bytes

bv_append-kept :
    (cur : Section) (bytes : List ℕ) (g : Out)
    → ((bv_append cur bytes g).fmt ≡ g.fmt)
      × ((bv_append cur bytes g).cur_sect ≡ g.cur_sect)
      × (frame (bv_append cur bytes g) ≡ frame g)
bv_append-kept sec_text bytes g = (refl, refl, refl)
bv_append-kept sec_data bytes g = (refl, refl, refl)

bv_append-Grows :
    (bytes : List ℕ) (n : ℕ) (g : Out) → length bytes ≡ n → Grows n g (bv_append g.cur_sect bytes g)
bv_append-Grows bytes n g l = rw (← l) (record {
  fmt = (bv_append-kept g.cur_sect bytes g).0;
  cur_sect = (bv_append-kept g.cur_sect bytes g).1;
  frame = (bv_append-kept g.cur_sect bytes g).2;
  held = bv_append-held g.cur_sect bytes g;
})

pub share_add :
    (sect cur : Section) (m n : ℕ) → share sect cur (m + n) ≡ share sect cur m + share sect cur n
share_add sect cur m n = ground arith

pub Grows-none : (g : Out) → Grows 0 g g
Grows-none g = record { fmt = refl; cur_sect = refl; frame = refl; held = λ sect. ground arith }

is_raw : OutFormat → Bool
is_raw out_raw = true
is_raw out_elf = false

pub raw-ne-elf : out_raw ≢ out_elf
unfolding is_raw
raw-ne-elf h = false≢true (sym (ap is_raw h))

write_to-Grows :
    (f : OutFormat) (fwrite : List ℕ → List ℕ → ℕ) (bytes : List ℕ) (n : ℕ) (g : Out)
    → length bytes ≡ n
    → f ≡ out_elf
    → Grows n g ((write_to f fwrite bytes g).1)
write_to-Grows out_elf fwrite bytes n g l elf = bv_append-Grows bytes n g l
write_to-Grows out_raw fwrite bytes n g l elf = absurd (raw-ne-elf elf)

sink_write-Grows :
    (fwrite : List ℕ → List ℕ → ℕ) (bytes : List ℕ) (n : ℕ) (g : Out)
    → length bytes ≡ n
    → g.fmt ≡ out_elf
    → Grows n g ((sink_write fwrite bytes g).1)
unfolding sink_write
sink_write-Grows fwrite bytes n g l elf = write_to-Grows g.fmt fwrite bytes n g l elf

pub write_word_le-Grows :
    (fwrite : List ℕ → List ℕ → ℕ) (word : ℕ) (g : Out)
    → g.fmt ≡ out_elf
    → Grows 4 g ((write_word_le fwrite word g).1)
unfolding write_word_le
write_word_le-Grows fwrite word g elf =
    sink_write-Grows fwrite (bytes_le 4 word) 4 g (length-bytes_le 4 word) elf

mark_rvc-Grows : (f : OutFormat) (cur : Section) (g : Out) → Grows 0 g (mark_rvc f cur g)
mark_rvc-Grows out_elf sec_text g = record {
  fmt = refl;
  cur_sect = refl;
  frame = refl;
  held = λ sect. elim sect [ sec_text ↦ ground arith | sec_data ↦ ground arith ];
}
mark_rvc-Grows out_elf sec_data g = Grows-none g
mark_rvc-Grows out_raw cur g = Grows-none g

pub Grows-then : (m n : ℕ) (g h k : Out) → Grows m g h → Grows n h k → Grows (m + n) g k
Grows-then m n g h k p q = record {
  fmt = q.fmt ∙ p.fmt;
  cur_sect = q.cur_sect ∙ p.cur_sect;
  frame = q.frame ∙ p.frame;
  held = λ sect.
      let later : held sect k ≡ held sect h + share sect g.cur_sect n =
        rw (← p.cur_sect) (q.held sect) in
      omega (arith, p.held sect, later, share_add sect g.cur_sect m n);
}

pub write_half_le-Grows :
    (fwrite : List ℕ → List ℕ → ℕ) (half : ℕ) (g : Out)
    → g.fmt ≡ out_elf
    → Grows 2 g ((write_half_le fwrite half g).1)
unfolding write_half_le
write_half_le-Grows fwrite half g elf =
    let m = mark_rvc-Grows g.fmt g.cur_sect g in
    let g' = mark_rvc g.fmt g.cur_sect g in
    Grows-then 0 2 g g' _ m
      (sink_write-Grows fwrite (bytes_le 2 half) 2 g' (length-bytes_le 2 half) (m.fmt ∙ elf))

-- The four sizes that `write_value_le` takes.
pub write_value_le-Grows :
    (fwrite : List ℕ → List ℕ → ℕ) (value : ℤ) (size : ℕ) (g : Out)
    → g.fmt ≡ out_elf
    → (write_value_le fwrite value size g).0 ≡ true
    → Grows size g ((write_value_le fwrite value size g).1)
unfolding write_value_le
write_value_le-Grows fwrite value size g elf =
    elim (Bool-cases (size != 1 && size != 2 && size != 4 && size != 8)) [
      | inl bad ↦ rw bad λ h. absurd (false≢true h)
      | inr good ↦ rw good λ h.
          sink_write-Grows fwrite (bytes_le size (bits64 value)) size g
            (length-bytes_le size (bits64 value)) elf
    ]

zeros_to-Grows :
    (f : OutFormat) (fwrite : List ℕ → List ℕ → ℕ) (n : ℕ) (g : Out)
    → f ≡ out_elf
    → Grows n g ((zeros_to f fwrite n g).1)
zeros_to-Grows out_elf fwrite n g elf = bv_append-Grows (replicate n 0) n g (length-replicate n 0)
zeros_to-Grows out_raw fwrite n g elf = absurd (raw-ne-elf elf)

pub write_zeros-Grows :
    (fwrite : List ℕ → List ℕ → ℕ) (n : ℕ) (g : Out)
    → g.fmt ≡ out_elf
    → Grows n g ((write_zeros fwrite n g).1)
unfolding write_zeros sink_zeros
write_zeros-Grows fwrite n g elf = zeros_to-Grows g.fmt fwrite n g elf
