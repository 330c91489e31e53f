-- ===== src/Out/Elf/Planned.antt =====
-- The offsets of `out_finish` (Assembler/src/out.c): what stands where in the ELF file.
use assembler_project.Base.{
  ℕ, ◌+◌, ◌-◌, ◌*◌, ◌^◌, bit_and, Bool, List, [], ◌∷◌, ◌++◌, ◌==◌, if◌then◌else◌, length,
}
use assembler_project.Base.Word.{u32, u64}

unfoldable pub align_up_u64 : ℕ → ℕ → ℕ
align_up_u64 x a = bit_and (u64 (x + (a - 1))) (2 ^ 64 - 1 - (a - 1))

unfoldable pub align_up_u32 : ℕ → ℕ → ℕ
align_up_u32 x a = bit_and (u32 (x + (a - 1))) (2 ^ 32 - 1 - (a - 1))

abbrev pub align_off : Bool → ℕ → ℕ → ℕ
align_off is64 off a = if is64 then align_up_u64 off a else align_up_u32 (u32 off) a

-- The variables of `out_finish` that say what stands where.
pub record Plan : Type 0 where
  pub phnum : ℕ
  pub shnum : ℕ
  pub text_off : ℕ
  pub data_off : ℕ
  pub shstr : List ℕ
  pub nm_text : ℕ
  pub nm_data : ℕ
  pub nm_shstr : ℕ
  pub shstr_off : ℕ
  pub shoff : ℕ

-- The offset of a section, and the offset behind it.
abbrev pub place_section : Bool → ℕ → ℕ → ℕ × ℕ
place_section is64 off size =
    let at = align_off is64 off 0x1000 in
    (if size == 0 then 0 else at, if size == 0 then off else u64 (at + size))

abbrev pub ehdr_sz : Bool → ℕ
ehdr_sz is64 = if is64 then 64 else 52

abbrev pub phdr_sz : Bool → ℕ
phdr_sz is64 = if is64 then 56 else 32

abbrev pub shdr_sz : Bool → ℕ
shdr_sz is64 = if is64 then 64 else 40

abbrev pub one_if : ℕ → ℕ
one_if size = if size == 0 then 0 else 1

-- `bv_append` of a name, where its section is there.
abbrev add_name : ℕ → List ℕ → List ℕ → List ℕ
add_name size name shstr = if size == 0 then shstr else shstr ++ name

unfoldable pub plan : Bool → ℕ → ℕ → Plan
unfolding align_up_u64 align_up_u32
plan is64 text_size data_size =
    let phnum = one_if text_size + one_if data_size in
    let shnum = 2 + one_if text_size + one_if data_size in
    let text = place_section is64 (ehdr_sz is64 + phdr_sz is64 * phnum) text_size in
    let data_place = place_section is64 text.1 data_size in
    let first : List ℕ = 0 ∷ [] in
    let second = add_name text_size (b'.' ∷ b't' ∷ b'e' ∷ b'x' ∷ b't' ∷ 0 ∷ []) first in
    let third = add_name data_size (b'.' ∷ b'd' ∷ b'a' ∷ b't' ∷ b'a' ∷ 0 ∷ []) second in
    let shstr = third ++ (b'.' ∷ b's' ∷ b'h' ∷ b's' ∷ b't' ∷ b'r' ∷ b't' ∷ b'a' ∷ b'b' ∷ 0 ∷ []) in
    record {
      phnum = phnum;
      shnum = shnum;
      text_off = text.0;
      data_off = data_place.0;
      shstr = shstr;
      nm_text = if text_size == 0 then 0 else length first;
      nm_data = if data_size == 0 then 0 else length second;
      nm_shstr = length third;
      shstr_off = data_place.1;
      shoff = align_off is64 (u64 (data_place.1 + length shstr)) (if is64 then 8 else 4);
    }
