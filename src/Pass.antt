-- ===== src/Pass.antt =====
-- The state that the two passes share (Assembler/src/pass.c, Assembler/include/pass.h): the
-- section, the two program counters, which are `uint32_t`, and the target.
pub mod Align
use assembler_project.Base.{
  ℕ, zero, suc, ◌+◌, ◌-◌, ◌*◌, ◌/◌, ◌%◌, ◌^◌, ◌≤◌, ◌<◌, bit_and, bit_or, ◌≡◌, refl, sym, ap, ◌∙◌,
  ◌≢◌, ◌↔◌, ◌⊎◌, inl, inr, Bool, true, false, not, ◌&&◌, ◌||◌, Option, none, some, List, [], ◌∷◌,
  ◌++◌, arith, ltb, leb, ◌==◌, ◌!=◌, if◌then◌else◌, ==_iff, Bool-cases, Option-cases, length,
  get_elem?, get_or, set, replicate, length-append, length-replicate, length-set, All,
}
use assembler_project.Base.Int.{
  ℤ, pos, negsuc, pos_part, neg_part, sub_ℕ, ◌+ℤ◌, ◌-ℤ◌, ◌≤ℤ◌, ltb_ℤ, eqb_ℤ, +ℤ_parts, -ℤ_parts,
  eq_of_parts, int_laws,
}
use assembler_project.Base.Word.{
  u8, u16, u32, u64, ◌<<◌, ◌>>◌, bits64, bits32, asr, signed, to_int32, field,
}
use assembler_project.Ir.Entry.{Section, sec_text, sec_data}

-- The target: `xlen`, and the flags of the M and C extensions and of automatic compression.
pub record Arch : Type 0 where
  pub xlen : ℕ
  pub ext_m : Bool
  pub ext_c : Bool
  pub auto_c : Bool

pub record Pass : Type 0 where
  pub text_entered : Bool
  pub pass_num : ℕ
  pub cur_section : Section
  pub pc_text : ℕ
  pub pc_data : ℕ
  pub arch : Arch

-- The initialisers of pass.c.
abbrev pub start : Pass
start = record {
  text_entered = false;
  pass_num = 0;
  cur_section = sec_text;
  pc_text = 0;
  pc_data = 0;
  arch = record { xlen = 32; ext_m = false; ext_c = false; auto_c = false };
}

-- `pass_align_to_pow2` and `pass_align_pad`. `1u << pow2` is defined for `pow2` below 32.
unfoldable pub pass_align_to_pow2 : ℕ → ℕ → ℕ
pass_align_to_pow2 addr pow2 =
    let a = 1 << pow2 in bit_and (u32 (addr + (a - 1))) (2 ^ 32 - 1 - (a - 1))

unfoldable pub pass_align_pad : ℕ → ℕ → ℕ
pass_align_pad addr pow2 =
    let aligned = pass_align_to_pow2 addr pow2 in u32 (aligned + 2 ^ 32 - addr)

abbrev pub current_pc : Section → Pass → ℕ
current_pc sec_text s = s.pc_text
current_pc sec_data s = s.pc_data

abbrev pub add_pc : Section → ℕ → Pass → Pass
add_pc sec_text n s = record s { pc_text = u32 (s.pc_text + n) }
add_pc sec_data n s = record s { pc_data = u32 (s.pc_data + n) }

unfoldable pub pass_current_pc : Pass → ℕ
pass_current_pc s = current_pc s.cur_section s

unfoldable pub pass_advance_pc : ℕ → Pass → Pass
pass_advance_pc bytes s = add_pc s.cur_section bytes s

abbrev is_text : Section → Bool
is_text sec_text = true
is_text sec_data = false

unfoldable pub pass_set_section : Section → Pass → Pass
pass_set_section sect s = record s {
  cur_section = sect;
  text_entered = if is_text sect then true else s.text_entered;
}

unfoldable pub pass_get_section : Pass → Section
pass_get_section s = s.cur_section

-- The new program counter is returned with the state.
unfoldable pub pass_align_current_pc : ℕ → Pass → ℕ × Pass
unfolding pass_align_pad
pass_align_current_pc pow2 s =
    let pc = current_pc s.cur_section s in
    let s' = add_pc s.cur_section (pass_align_pad pc pow2) s in (current_pc s.cur_section s', s')

unfoldable pub pass_was_text_entered : Pass → Bool
pass_was_text_entered s = s.text_entered

unfoldable pub pass_set_arch : ℕ → Bool → Pass → Pass
pass_set_arch len has_m s = record s {
  arch = record (s.arch) { xlen = if len != 32 && len != 64 then 32 else len; ext_m = has_m };
}

unfoldable pub pass_set_ext_c : Bool → Pass → Pass
pass_set_ext_c enabled s = record s { arch = record (s.arch) { ext_c = enabled } }

unfoldable pub pass_set_auto_compress : Bool → Pass → Pass
pass_set_auto_compress enabled s = record s { arch = record (s.arch) { auto_c = enabled } }

unfoldable pub pass_get_xlen : Pass → ℕ
pass_get_xlen s = s.arch.xlen

unfoldable pub pass_has_m : Pass → Bool
pass_has_m s = s.arch.ext_m

unfoldable pub pass_has_c : Pass → Bool
pass_has_c s = s.arch.ext_c

unfoldable pub pass_has_auto_compress : Pass → Bool
pass_has_auto_compress s = s.arch.auto_c
