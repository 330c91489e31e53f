-- ===== src/Out/Elf.antt =====
-- The ELF file that `out_finish` writes (Assembler/src/out.c): the plan of its offsets, the pieces in
-- the order of their writes, and `write_at`.
pub mod Headers
pub mod Planned
pub mod Write
pub mod Align
pub mod Offsets
pub mod Disjoint
pub mod Image
pub mod Load
pub mod Ends
pub mod Kept
pub mod Pieces
use assembler_project.Base.{
  ℕ, zero, suc, ◌+◌, ◌-◌, ◌*◌, ◌/◌, ◌%◌, ◌^◌, ◌≤◌, ◌<◌, bit_and, bit_or, ◌≡◌, refl, sym, ap, ◌∙◌,
  ◌≢◌, ◌↔◌, ◌⊎◌, inl, inr, Bool, true, false, not, ◌&&◌, ◌||◌, Option, none, some, List, [], ◌∷◌,
  ◌++◌, arith, ltb, leb, ◌==◌, ◌!=◌, if◌then◌else◌, ==_iff, Bool-cases, Option-cases, length,
  get_elem?, get_or, set, replicate, length-append, length-replicate, length-set, All,
}
use assembler_project.Base.Int.{
  ℤ, pos, negsuc, pos_part, neg_part, sub_ℕ, ◌+ℤ◌, ◌-ℤ◌, ◌≤ℤ◌, ltb_ℤ, eqb_ℤ, +ℤ_parts, -ℤ_parts,
  eq_of_parts, int_laws,
}
use assembler_project.Base.Word.{
  u8, u16, u32, u64, ◌<<◌, ◌>>◌, bits64, bits32, asr, signed, to_int32, field,
}
use assembler_project.Out.{Out, OutFormat, out_raw, out_elf}
use assembler_project.Out.Elf.Headers.{
  Ehdr, Phdr, Shdr, elf32_ehdr, elf64_ehdr, elf32_phdr, elf64_phdr, elf32_shdr, elf64_shdr,
}
use assembler_project.Out.Elf.Planned.{Plan, ehdr_sz, phdr_sz, shdr_sz, one_if, plan}
use assembler_project.Out.Elf.Write.{Stdio, write_all}

-- The two program headers, PT_LOAD with PF_R | PF_X and with PF_R | PF_W.
abbrev pub text_phdr : Out → Plan → Phdr
text_phdr g p = record {
  p_type = 1;
  p_flags = 5;
  p_offset = p.text_off;
  p_vaddr = g.vaddr_text_base;
  p_paddr = g.vaddr_text_base;
  p_filesz = length g.text;
  p_memsz = length g.text;
  p_align = 0x1000;
}

abbrev pub data_phdr : Out → Plan → Phdr
data_phdr g p = record {
  p_type = 1;
  p_flags = 6;
  p_offset = p.data_off;
  p_vaddr = g.vaddr_data_base;
  p_paddr = g.vaddr_data_base;
  p_filesz = length g.data_bytes;
  p_memsz = length g.data_bytes;
  p_align = 0x1000;
}

abbrev pub zero_shdr : Shdr
zero_shdr = record {
  sh_name = 0;
  sh_type = 0;
  sh_flags = 0;
  sh_addr = 0;
  sh_offset = 0;
  sh_size = 0;
  sh_link = 0;
  sh_info = 0;
  sh_addralign = 0;
  sh_entsize = 0;
}

-- SHT_PROGBITS with SHF_ALLOC | SHF_EXECINSTR and with SHF_ALLOC | SHF_WRITE, and SHT_STRTAB.
abbrev text_shdr : Out → Plan → Shdr
text_shdr g p = record zero_shdr {
  sh_name = p.nm_text;
  sh_type = 1;
  sh_flags = 6;
  sh_addr = g.vaddr_text_base;
  sh_offset = p.text_off;
  sh_size = length g.text;
  sh_addralign = 2;
}

abbrev data_shdr : Out → Plan → Shdr
data_shdr g p = record zero_shdr {
  sh_name = p.nm_data;
  sh_type = 1;
  sh_flags = 3;
  sh_addr = g.vaddr_data_base;
  sh_offset = p.data_off;
  sh_size = length g.data_bytes;
  sh_addralign = 4;
}

abbrev shstr_shdr : Plan → Shdr
shstr_shdr p = record zero_shdr {
  sh_name = p.nm_shstr;
  sh_type = 3;
  sh_offset = p.shstr_off;
  sh_size = length p.shstr;
  sh_addralign = 1;
}

-- ET_EXEC for EM_RISCV, with EF_RISCV_RVC where a 16-bit instruction was written.
abbrev pub file_header : Bool → ℕ → Out → Plan → Ehdr
file_header is64 entry_addr g p = record {
  e_ident = 0x7f ∷ (b'E' ∷ (b'L' ∷ (b'F' ∷ ((if is64 then 2 else 1) ∷ (1 ∷ (1 ∷ replicate 9 0))))));
  e_type = 2;
  e_machine = 243;
  e_version = 1;
  e_entry =
      if entry_addr == 0
      then (if length g.text == 0 then g.vaddr_data_base else g.vaddr_text_base)
      else entry_addr;
  e_phoff = if p.phnum == 0 then 0 else ehdr_sz is64;
  e_shoff = p.shoff;
  e_flags = if g.has_rvc then 1 else 0;
  e_ehsize = ehdr_sz is64;
  e_phentsize = phdr_sz is64;
  e_phnum = p.phnum;
  e_shentsize = shdr_sz is64;
  e_shnum = p.shnum;
  e_shstrndx = p.shnum - 1;
}

abbrev pub phdr_bytes : Bool → Phdr → List ℕ
phdr_bytes is64 h = if is64 then elf64_phdr h else elf32_phdr h

abbrev pub section_bytes : Bool → Shdr → List ℕ
section_bytes is64 h = if is64 then elf64_shdr h else elf32_shdr h

abbrev pub header_bytes : Bool → Ehdr → List ℕ
header_bytes is64 h = if is64 then elf64_ehdr h else elf32_ehdr h

-- What is done only for a section that is not empty.
abbrev pub when : {A : Type 0} → ℕ → List A → List A
when size xs = if size == 0 then [] else xs

-- The writes of `out_finish` in their order, each an offset and its bytes: first the sections and
-- their names.
unfoldable pub contents : Out → Plan → List (ℕ × List ℕ)
contents g p =
    when (length g.text) ((p.text_off, g.text) ∷ [])
    ++ (when (length g.data_bytes) ((p.data_off, g.data_bytes) ∷ []) ++ (p.shstr_off, p.shstr) ∷ [])

unfoldable pub program_headers : Bool → Out → Plan → List (ℕ × List ℕ)
unfolding elf64_phdr elf32_phdr
program_headers is64 g p =
    let text = when (length g.text) (phdr_bytes is64 (text_phdr g p)) in
    let data_part = when (length g.data_bytes) (phdr_bytes is64 (data_phdr g p)) in
    when p.phnum ((ehdr_sz is64, text ++ data_part) ∷ [])

unfoldable pub section_headers : Bool → Out → Plan → List (ℕ × List ℕ)
unfolding elf64_shdr elf32_shdr
section_headers is64 g p =
    let text_size = length g.text in
    let data_size = length g.data_bytes in
    let nth = λ (si : ℕ). p.shoff + si * shdr_sz is64 in
    (nth 0, section_bytes is64 zero_shdr)
    ∷ (when text_size ((nth 1, section_bytes is64 (text_shdr g p)) ∷ [])
        ++ (when data_size ((nth (1 + one_if text_size), section_bytes is64 (data_shdr g p)) ∷ [])
            ++ (nth (1 + one_if text_size + one_if data_size), section_bytes is64 (shstr_shdr p))
              ∷ []))

unfoldable pub elf_writes : Bool → ℕ → Out → Plan → List (ℕ × List ℕ)
unfolding contents program_headers section_headers elf64_ehdr elf32_ehdr
elf_writes is64 entry_addr g p =
    ((contents g p ++ program_headers is64 g p) ++ section_headers is64 g p)
    ++ (0, header_bytes is64 (file_header is64 entry_addr g p)) ∷ []

abbrev pub finish_elf : Stdio → ℕ → Out → Option (List ℕ) → Bool × Out
finish_elf io entry_addr g none = (false, g)
finish_elf io entry_addr g (some f) =
    let is64 = g.xlen == 64 in
    let p = plan is64 (length g.text) (length g.data_bytes) in
    let r = write_all io (elf_writes is64 entry_addr g p) f in (r.0, record g { fp = some r.1 })

abbrev pub is_some : Option (List ℕ) → Bool
is_some none = false
is_some (some f) = true

abbrev pub finish : OutFormat → Stdio → ℕ → Out → Bool × Out
finish out_raw io entry_addr g = (is_some g.fp, g)
finish out_elf io entry_addr g = finish_elf io entry_addr g g.fp

unfoldable pub out_finish : Stdio → ℕ → Out → Bool × Out
unfolding plan elf_writes write_all
out_finish io entry_addr g = finish g.fmt io entry_addr g
