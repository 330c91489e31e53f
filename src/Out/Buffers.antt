-- ===== src/Out/Buffers.antt =====
-- What the sink's writes put into the section's buffer, byte by byte, with a description of the
-- bytes of a value that does not use the sink's own.
use assembler_project.Base.{
  ℕ, zero, suc, ◌/◌, ◌%◌, ◌^◌, ◌≡◌, refl, sym, ap, ◌∙◌, inl, inr, true, ◌&&◌, List, [], ◌∷◌, ◌++◌,
  ◌!=◌, if◌then◌else◌, Bool-cases, replicate,
}
use assembler_project.Base.Int.{ℤ}
use assembler_project.Base.Word.{bits64}
use assembler_project.Ir.Entry.{same_section, Section, sec_text, sec_data}
use assembler_project.Out.{
  Out, mark_rvc, write_to, zeros_to, OutFormat, out_elf, out_raw, bv_append, bytes_le, sink_write,
  sink_zeros, write_word_le, write_half_le, write_value_le, write_zeros,
}
use assembler_project.Out.Bytes.{raw-ne-elf}
use mathlib.Core.Bool.{false≢true}
use mathlib.Core.List.{append-nil}
use native.Mathlib.Nat.{pow-suc, div-one, div-div-eq-div-mul}

abbrev pub buffer : Section → Out → List ℕ
buffer sec_text g = g.text
buffer sec_data g = g.data_bytes

-- The bytes from number `k` on, `n` of them, of a value, where byte `k` has the weight 256 ^ k.
abbrev pub spell : ℕ → ℕ → ℕ → List ℕ
spell k zero v = []
spell k (suc n) v = v / 256 ^ k % 256 ∷ spell (suc k) n v

-- What reaches the section `sect` of bytes that are meant for `cur`.
abbrev pub cut : Section → Section → List ℕ → List ℕ
cut sect cur bytes = if same_section sect cur then bytes else []

-- For an ELF file, the bytes reach the buffer of the current section and no other.
abbrev pub Puts : List ℕ → Out → Out → Type 0
Puts bytes g g' = (sect : Section) → buffer sect g' ≡ buffer sect g ++ cut sect g.cur_sect bytes

byte-next : (k v : ℕ) → v / 256 ^ k / 256 ≡ v / 256 ^ suc k
byte-next k v = div-div-eq-div-mul v (256 ^ k) 256 ∙ ap (λ (d : ℕ). v / d) (sym (pow-suc 256 k))

bytes_le-spell_from : (n k v : ℕ) → bytes_le n (v / 256 ^ k) ≡ spell k n v
bytes_le-spell_from zero k v = refl
bytes_le-spell_from (suc n) k v =
    ap (λ (r : List ℕ). v / 256 ^ k % 256 ∷ r)
      (ap (bytes_le n) (byte-next k v) ∙ bytes_le-spell_from n (suc k) v)

bytes_le-spell : (n v : ℕ) → bytes_le n v ≡ spell 0 n v
bytes_le-spell n v = ap (bytes_le n) (sym (div-one v)) ∙ bytes_le-spell_from n 0 v

bv_append-buffer :
    (cur : Section) (bytes : List ℕ) (g : Out) (sect : Section)
    → buffer sect (bv_append cur bytes g) ≡ buffer sect g ++ cut sect cur bytes
bv_append-buffer sec_text bytes g sec_text = refl
bv_append-buffer sec_text bytes g sec_data = sym (append-nil g.data_bytes)
bv_append-buffer sec_data bytes g sec_text = sym (append-nil g.text)
bv_append-buffer sec_data bytes g sec_data = refl

write_to-Puts :
    (f : OutFormat) (fwrite : List ℕ → List ℕ → ℕ) (bytes : List ℕ) (g : Out)
    → f ≡ out_elf
    → Puts bytes g ((write_to f fwrite bytes g).1)
write_to-Puts out_elf fwrite bytes g elf = bv_append-buffer g.cur_sect bytes g
write_to-Puts out_raw fwrite bytes g elf = absurd (raw-ne-elf elf)

sink_write-Puts :
    (fwrite : List ℕ → List ℕ → ℕ) (n v : ℕ) (g : Out)
    → g.fmt ≡ out_elf
    → Puts (spell 0 n v) g ((sink_write fwrite (bytes_le n v) g).1)
unfolding sink_write
sink_write-Puts fwrite n v g elf =
    rw (← bytes_le-spell n v) (write_to-Puts g.fmt fwrite (bytes_le n v) g elf)

pub write_word_le-Puts :
    (fwrite : List ℕ → List ℕ → ℕ) (word : ℕ) (g : Out)
    → g.fmt ≡ out_elf
    → Puts (spell 0 4 word) g ((write_word_le fwrite word g).1)
unfolding write_word_le
write_word_le-Puts fwrite word g elf = sink_write-Puts fwrite 4 word g elf

-- Marking the file as one with compressed instructions changes no buffer.
abbrev Marked : Out → Out → Type 0
Marked g g' =
    (g'.fmt ≡ g.fmt)
    × (g'.cur_sect ≡ g.cur_sect)
    × ((sect : Section) → buffer sect g' ≡ buffer sect g)

marked-buffer :
    (g : Out) (sect : Section) → buffer sect (mark_rvc out_elf sec_text g) ≡ buffer sect g
marked-buffer g sec_text = refl
marked-buffer g sec_data = refl

mark_rvc-Marked : (f : OutFormat) (cur : Section) (g : Out) → Marked g (mark_rvc f cur g)
mark_rvc-Marked out_elf sec_text g = (refl, refl, marked-buffer g)
mark_rvc-Marked out_elf sec_data g = (refl, refl, λ sect. refl)
mark_rvc-Marked out_raw cur g = (refl, refl, λ sect. refl)

pub write_half_le-Puts :
    (fwrite : List ℕ → List ℕ → ℕ) (half : ℕ) (g : Out)
    → g.fmt ≡ out_elf
    → Puts (spell 0 2 half) g ((write_half_le fwrite half g).1)
unfolding write_half_le
write_half_le-Puts fwrite half g elf sect =
    let g' = mark_rvc g.fmt g.cur_sect g in
    let m = mark_rvc-Marked g.fmt g.cur_sect g in
    sink_write-Puts fwrite 2 half g' (m.0 ∙ elf) sect
    ∙ ap (λ (c : Section). buffer sect g' ++ cut sect c (spell 0 2 half)) m.1
    ∙ ap (λ (b : List ℕ). b ++ cut sect g.cur_sect (spell 0 2 half)) (m.2 sect)

pub write_value_le-Puts :
    (fwrite : List ℕ → List ℕ → ℕ) (value : ℤ) (size : ℕ) (g : Out)
    → g.fmt ≡ out_elf
    → (write_value_le fwrite value size g).0 ≡ true
    → Puts (spell 0 size (bits64 value)) g ((write_value_le fwrite value size g).1)
unfolding write_value_le
write_value_le-Puts fwrite value size g elf =
    elim (Bool-cases (size != 1 && size != 2 && size != 4 && size != 8)) [
      | inl bad ↦ rw bad λ h. absurd (false≢true h)
      | inr good ↦ rw good λ h. sink_write-Puts fwrite size (bits64 value) g elf
    ]

zeros_to-Puts :
    (f : OutFormat) (fwrite : List ℕ → List ℕ → ℕ) (n : ℕ) (g : Out)
    → f ≡ out_elf
    → Puts (replicate n 0) g ((zeros_to f fwrite n g).1)
zeros_to-Puts out_elf fwrite n g elf = bv_append-buffer g.cur_sect (replicate n 0) g
zeros_to-Puts out_raw fwrite n g elf = absurd (raw-ne-elf elf)

pub write_zeros-Puts :
    (fwrite : List ℕ → List ℕ → ℕ) (n : ℕ) (g : Out)
    → g.fmt ≡ out_elf
    → Puts (replicate n 0) g ((write_zeros fwrite n g).1)
unfolding write_zeros sink_zeros
write_zeros-Puts fwrite n g elf = zeros_to-Puts g.fmt fwrite n g elf
