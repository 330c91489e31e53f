-- ===== src/Ir/Buffer.antt =====
-- The IR buffer and the marks on its entries (Assembler/src/ir.c). The buffer is the list of its
-- `len` entries, and memory does not run out, so its capacity is left out.
use assembler_project.Base.{
  ℕ, Bool, true, false, not, ◌&&◌, Option, none, some, List, [], ◌∷◌, ◌++◌, ◌==◌, if◌then◌else◌,
  length, get_elem?,
}
use assembler_project.Base.Int.{ℤ}
use assembler_project.Ir.Opcode.{Opcode}
use assembler_project.Ir.Entry.{
  Entry, zero_entry, Choice, no_choice, Label, Fmt, Reloc, Section, SizeHint, ir_instr, ir_data,
  ir_align, ir_size_auto, ir_size_2, ir_size_4, reloc_none, is_c_fmt, is_size_2,
}

-- The fields that `ir_append_instr` sets. A relocation without a label is dropped.
unfoldable pub new_instr :
    Opcode → Fmt → ℕ → ℕ → ℕ → ℤ → Option Label → Reloc → Section → ℕ → ℕ → ℕ → Entry
new_instr op fmt rd rs1 rs2 imm label rk sect addr size line = record zero_entry {
  kind = ir_instr;
  op = op;
  fmt = fmt;
  rd = rd;
  rs1 = rs1;
  rs2 = rs2;
  imm = imm;
  label = label;
  reloc = elim label [ some l ↦ rk | none ↦ reloc_none ];
  sect = sect;
  addr = addr;
  size = size;
  line = line;
  forced_size = if is_c_fmt fmt then ir_size_2 else ir_size_auto;
  can_compress = not (is_c_fmt fmt);
  has_c_choice = false;
  choice = no_choice;
}

unfoldable pub ir_append_instr :
    List Entry
    → Opcode
    → Fmt
    → ℕ
    → ℕ
    → ℕ
    → ℤ
    → Option Label
    → Reloc
    → Section
    → ℕ
    → ℕ
    → ℕ
    → List Entry
unfolding new_instr
ir_append_instr buf op fmt rd rs1 rs2 imm label rk sect addr size line =
    buf ++ new_instr op fmt rd rs1 rs2 imm label rk sect addr size line ∷ []

unfoldable pub new_align : Section → ℕ → ℕ → ℕ → Entry
new_align sect addr_before pad_bytes line = record zero_entry {
  kind = ir_align;
  label = none;
  reloc = reloc_none;
  sect = sect;
  addr = addr_before;
  size = pad_bytes;
  line = line;
}

unfoldable pub ir_append_align : List Entry → Section → ℕ → ℕ → ℕ → List Entry
unfolding new_align
ir_append_align buf sect addr_before pad_bytes line =
    if pad_bytes == 0 then buf else buf ++ new_align sect addr_before pad_bytes line ∷ []

unfoldable pub new_data : Section → ℕ → ℤ → ℕ → ℕ → Entry
new_data sect addr word size line = record zero_entry {
  kind = ir_data;
  sect = sect;
  addr = addr;
  size = size;
  line = line;
  imm = word;
  reloc = reloc_none;
  forced_size = ir_size_auto;
  can_compress = false;
  has_c_choice = false;
}

unfoldable pub ir_append_data : List Entry → Section → ℕ → ℤ → ℕ → ℕ → List Entry
unfolding new_data
ir_append_data buf sect addr word size line = buf ++ new_data sect addr word size line ∷ []

unfoldable pub ir_count : List Entry → ℕ
ir_count buf = length buf

unfoldable pub ir_get : List Entry → ℕ → Option Entry
ir_get buf i = get_elem? buf i

unfoldable pub ir_mark_explicit_compressed : Entry → Entry
ir_mark_explicit_compressed e = record e {
  forced_size = ir_size_2;
  can_compress = false;
  has_c_choice = false;
}

unfoldable pub ir_force_32 : Entry → Entry
ir_force_32 e = record e { forced_size = ir_size_4; can_compress = false; has_c_choice = false }

unfoldable pub ir_force_auto : Entry → Entry
ir_force_auto e = record e { forced_size = ir_size_auto; can_compress = true }

unfoldable pub ir_set_c_choice : Entry → Choice → Entry
ir_set_c_choice e ch = record e { choice = ch; has_c_choice = true }

unfoldable pub ir_get_forced_size : Entry → SizeHint
ir_get_forced_size e = e.forced_size

unfoldable pub ir_is_explicit_c : Entry → Bool
ir_is_explicit_c e = is_size_2 e.forced_size && not e.can_compress && not e.has_c_choice

unfoldable pub ir_clear_c_choice : Entry → Entry
ir_clear_c_choice e = record e { has_c_choice = false }

-- Emptied, with the labels freed.
unfoldable pub ir_clear : List Entry → List Entry
ir_clear buf = []

unfoldable pub ir_init : List Entry → List Entry
unfolding ir_clear
ir_init buf = ir_clear buf
