-- ===== src/Out.antt =====
-- The output sink (Assembler/src/out.c, Assembler/include/out.h): the bytes go to the file for a
-- raw image, and to one buffer per section for an ELF file. `fp` is the file's bytes so far, `none`
-- where the source has NULL. `fwrite` is the C library's: it is given the file's bytes and those to
-- write, and says how many of them it took. The buffers' memory does not run out, and a word in
-- memory has its low byte first. The functions return the verdict with the new state.
pub mod Bytes
pub mod Buffers
pub mod Elf
use assembler_project.Base.{
  ℕ, zero, suc, ◌+◌, ◌-◌, ◌*◌, ◌/◌, ◌%◌, ◌^◌, ◌≤◌, ◌<◌, bit_and, bit_or, ◌≡◌, refl, sym, ap, ◌∙◌,
  ◌≢◌, ◌↔◌, ◌⊎◌, inl, inr, Bool, true, false, not, ◌&&◌, ◌||◌, Option, none, some, List, [], ◌∷◌,
  ◌++◌, arith, ltb, leb, ◌==◌, ◌!=◌, if◌then◌else◌, ==_iff, Bool-cases, Option-cases, length,
  get_elem?, get_or, set, replicate, length-append, length-replicate, length-set, All,
}
use assembler_project.Base.Int.{
  ℤ, pos, negsuc, pos_part, neg_part, sub_ℕ, ◌+ℤ◌, ◌-ℤ◌, ◌≤ℤ◌, ltb_ℤ, eqb_ℤ, +ℤ_parts, -ℤ_parts,
  eq_of_parts, int_laws,
}
use assembler_project.Base.Word.{
  u8, u16, u32, u64, ◌<<◌, ◌>>◌, bits64, bits32, asr, signed, to_int32, field,
}
use assembler_project.Ir.Entry.{Section, sec_text, sec_data}

pub data OutFormat : Type 0 where
  out_raw out_elf : OutFormat

pub record Out : Type 0 where
  pub fmt : OutFormat
  pub xlen : ℕ
  pub fp : Option (List ℕ)
  pub cur_sect : Section
  pub text : List ℕ
  pub data_bytes : List ℕ
  pub has_rvc : Bool
  pub vaddr_text_base : ℕ
  pub vaddr_data_base : ℕ

abbrev pub take : ℕ → List ℕ → List ℕ
take zero xs = []
take (suc n) [] = []
take (suc n) (x ∷ xs) = x ∷ take n xs

unfoldable pub out_begin : OutFormat → ℕ → Out
out_begin fmt xlen = record {
  fmt = fmt;
  xlen = if xlen == 64 then 64 else 32;
  fp = none;
  cur_sect = sec_text;
  text = [];
  data_bytes = [];
  has_rvc = false;
  vaddr_text_base = 0x00100000;
  vaddr_data_base = 0x00200000;
}

-- Called with the file that is open and still empty.
unfoldable pub out_set_file : Out → Out
out_set_file g = record g { fp = some [] }

unfoldable pub out_begin_section : Section → Out → Out
out_begin_section sect g = record g { cur_sect = sect }

-- `bv_append`, on the buffer of the current section
abbrev pub bv_append : Section → List ℕ → Out → Out
bv_append sec_text bytes g = record g { text = g.text ++ bytes }
bv_append sec_data bytes g = record g { data_bytes = g.data_bytes ++ bytes }

-- The least significant byte first, `n` bytes.
abbrev pub bytes_le : ℕ → ℕ → List ℕ
bytes_le zero v = []
bytes_le (suc n) v = v % 256 ∷ bytes_le n (v / 256)

abbrev write_file : (List ℕ → List ℕ → ℕ) → List ℕ → Out → Option (List ℕ) → Bool × Out
write_file fwrite bytes g none = (false, g)
write_file fwrite bytes g (some f) =
    let n = fwrite f bytes in (n == length bytes, record g { fp = some (f ++ take n bytes) })

abbrev pub write_to : OutFormat → (List ℕ → List ℕ → ℕ) → List ℕ → Out → Bool × Out
write_to out_raw fwrite bytes g = write_file fwrite bytes g g.fp
write_to out_elf fwrite bytes g = (true, bv_append g.cur_sect bytes g)

unfoldable pub sink_write : (List ℕ → List ℕ → ℕ) → List ℕ → Out → Bool × Out
sink_write fwrite bytes g = write_to g.fmt fwrite bytes g

-- The zeros of a raw image, in chunks of up to 256. Each turn writes one at least, so `n` turns do.
unfoldable pub zeros_loop : ℕ → (List ℕ → List ℕ → ℕ) → ℕ → List ℕ → Bool × List ℕ
zeros_loop zero fwrite n f = (true, f)
zeros_loop (suc turns) fwrite n f =
    let chunk = if ltb 256 n then 256 else n in
    let took = fwrite f (replicate chunk 0) in
    let f' = f ++ take took (replicate chunk 0) in
    let rest = zeros_loop turns fwrite (n - chunk) f' in
    if n == 0 then (true, f) else if took != chunk then (false, f') else rest

abbrev zero_file : (List ℕ → List ℕ → ℕ) → ℕ → Out → Option (List ℕ) → Bool × Out
zero_file fwrite n g none = (false, g)
zero_file fwrite n g (some f) =
    let out = zeros_loop n fwrite n f in (out.0, record g { fp = some out.1 })

abbrev pub zeros_to : OutFormat → (List ℕ → List ℕ → ℕ) → ℕ → Out → Bool × Out
zeros_to out_raw fwrite n g = zero_file fwrite n g g.fp
zeros_to out_elf fwrite n g = (true, bv_append g.cur_sect (replicate n 0) g)

unfoldable pub sink_zeros : (List ℕ → List ℕ → ℕ) → ℕ → Out → Bool × Out
sink_zeros fwrite n g = zeros_to g.fmt fwrite n g

unfoldable pub write_word_le : (List ℕ → List ℕ → ℕ) → ℕ → Out → Bool × Out
unfolding sink_write
write_word_le fwrite word g = sink_write fwrite (bytes_le 4 word) g

abbrev pub mark_rvc : OutFormat → Section → Out → Out
mark_rvc out_elf sec_text g = record g { has_rvc = true }
mark_rvc _ _ g = g

unfoldable pub write_half_le : (List ℕ → List ℕ → ℕ) → ℕ → Out → Bool × Out
unfolding sink_write
write_half_le fwrite half g = sink_write fwrite (bytes_le 2 half) (mark_rvc g.fmt g.cur_sect g)

unfoldable pub write_value_le : (List ℕ → List ℕ → ℕ) → ℤ → ℕ → Out → Bool × Out
unfolding sink_write
write_value_le fwrite value size g =
    if size != 1 && size != 2 && size != 4 && size != 8
    then (false, g)
    else sink_write fwrite (bytes_le size (bits64 value)) g

unfoldable pub write_zeros : (List ℕ → List ℕ → ℕ) → ℕ → Out → Bool × Out
unfolding sink_zeros
write_zeros fwrite n g = sink_zeros fwrite n g

unfoldable pub out_mark_rvc : Out → Out
out_mark_rvc g = record g { has_rvc = true }

unfoldable pub out_text_base : Out → ℕ
out_text_base g = g.vaddr_text_base

-- Freed and set to 0, which is OUT_RAW.
unfoldable pub out_dispose : Out → Out
out_dispose g = record {
  fmt = out_raw;
  xlen = 0;
  fp = none;
  cur_sect = sec_text;
  text = [];
  data_bytes = [];
  has_rvc = false;
  vaddr_text_base = 0;
  vaddr_data_base = 0;
}
