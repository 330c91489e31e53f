-- ===== src/Out/Elf/Offsets.antt =====
-- Where the plan of the ELF file puts its pieces.
use assembler_project.Base.{
  ℕ, ◌+◌, ◌*◌, ◌%◌, ◌^◌, ◌≤◌, ◌<◌, ◌≡◌, refl, sym, ◌≢◌, Bool, true, false, arith, if◌then◌else◌,
  length,
}
use assembler_project.Base.Word.{u64}
use assembler_project.Out.{Out}
use mathlib.Core.Path.{subst}
use assembler_project.Out.Elf.{phdr_bytes, section_bytes, header_bytes}
use assembler_project.Out.Elf.Planned.{
  plan, place_section, align_off, ehdr_sz, phdr_sz, shdr_sz, one_if,
}
use assembler_project.Out.Elf.Align.{align_off_lem, place_section_lem}
use assembler_project.Out.Elf.Headers.{Ehdr, Phdr, Shdr, length-phdr, length-shdr, length-ehdr}

pub length-phdr_bytes : (is64 : Bool) (h : Phdr) → length (phdr_bytes is64 h) ≡ phdr_sz is64
length-phdr_bytes true h = (length-phdr h).1
length-phdr_bytes false h = (length-phdr h).0

pub length-section_bytes : (is64 : Bool) (h : Shdr) → length (section_bytes is64 h) ≡ shdr_sz is64
length-section_bytes true h = (length-shdr h).1
length-section_bytes false h = (length-shdr h).0

pub length-header_bytes :
    (is64 : Bool) (h : Ehdr) → length h.e_ident ≡ 16 → length (header_bytes is64 h) ≡ ehdr_sz is64
length-header_bytes true h l = (length-ehdr h l).1
length-header_bytes false h l = (length-ehdr h l).0

-- Sections that leave room below 2^32 for the headers and the padding.
abbrev pub Fits : Out → Type 0
Fits g = length g.text + length g.data_bytes ≤ 2 ^ 31

-- The bounds of the pieces.
pub record Bounds (is64 : Bool) (t d : ℕ) : Type 0 where
  pub heads : ℕ
  pub text_end : ℕ
  pub heads_is : heads ≡ ehdr_sz is64 + phdr_sz is64 * (one_if t + one_if d)
  pub text_from : heads ≤ text_end
  pub data_from : text_end ≤ (plan is64 t d).shstr_off
  pub text : t ≢ 0 → (heads ≤ (plan is64 t d).text_off) × ((plan is64 t d).text_off + t ≡ text_end)
  pub text_page : t ≢ 0 → (plan is64 t d).text_off % 4096 ≡ 0
  pub data_at :
      d ≢ 0
      → (text_end ≤ (plan is64 t d).data_off)
        × ((plan is64 t d).data_off + d ≡ (plan is64 t d).shstr_off)
  pub data_page : d ≢ 0 → (plan is64 t d).data_off % 4096 ≡ 0
  pub below : (plan is64 t d).shstr_off < 2 ^ 32
  pub table_align : (plan is64 t d).shoff % (if is64 then 8 else 4) ≡ 0
  pub names : (plan is64 t d).shstr_off + length (plan is64 t d).shstr ≤ (plan is64 t d).shoff

small_heads : (is64 : Bool) (t d : ℕ) → ehdr_sz is64 + phdr_sz is64 * (one_if t + one_if d) ≤ 176
small_heads is64 t d = ground arith

small_names : (is64 : Bool) (t d : ℕ) → length (plan is64 t d).shstr ≤ 23
unfolding plan
small_names is64 t d = ground arith

shoff_lem :
    (is64 : Bool) (off : ℕ)
    → off + 8 ≤ 2 ^ 32
    → (off ≤ align_off is64 off (if is64 then 8 else 4))
      × (align_off is64 off (if is64 then 8 else 4) % (if is64 then 8 else 4) ≡ 0)
shoff_lem true off fits =
    let (lo, hi, whole) = align_off_lem true off 3 (omega arith) fits in (lo, whole)
shoff_lem false off fits =
    let (lo, hi, whole) = align_off_lem false off 2 (omega arith) (omega (arith, fits)) in
    (lo, whole)

-- For sections of up to 2^31 bytes together, the headers, the text, the data and the names stand one
-- behind the other below 2^32; the text and the data start on pages, and the section headers stand
-- behind the names, aligned to 8 or to 4 bytes.
pub plan-Bounds : (is64 : Bool) (t d : ℕ) → t + d ≤ 2 ^ 31 → Bounds is64 t d
unfolding plan
plan-Bounds is64 t d fits =
    let heads = ehdr_sz is64 + phdr_sz is64 * (one_if t + one_if d) in
    let few = small_heads is64 t d in
    let text = place_section is64 heads t in
    let (t_lo, t_hi, t_at) = place_section_lem is64 heads t (omega (arith, few, fits)) in
    let (d_lo, d_hi, d_at) = place_section_lem is64 text.1 d (omega (arith, few, fits, t_hi)) in
    let names = small_names is64 t d in
    let off = (plan is64 t d).shstr_off + length (plan is64 t d).shstr in
    let sum : u64 off ≡ off = omega (arith, few, fits, t_hi, d_hi, names) in
    let (s_lo, s_whole) = shoff_lem is64 off (omega (arith, few, fits, t_hi, d_hi, names)) in
    record {
      heads = heads;
      text_end = text.1;
      heads_is = refl;
      text_from = t_lo;
      data_from = d_lo;
      text = λ h. ((t_at h).0, (t_at h).1);
      text_page = λ h. (t_at h).2;
      data_at = λ h. ((d_at h).0, (d_at h).1);
      data_page = λ h. (d_at h).2;
      below = omega (arith, few, fits, t_hi, d_hi);
      table_align =
          subst (λ (o : ℕ). align_off is64 o (if is64 then 8 else 4) % (if is64 then 8 else 4) ≡ 0)
            (sym sum) s_whole;
      names = subst (λ (o : ℕ). off ≤ align_off is64 o (if is64 then 8 else 4)) (sym sum) s_lo;
    }
