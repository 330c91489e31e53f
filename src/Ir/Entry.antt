-- ===== src/Ir/Entry.antt =====
-- `ir_entry_t` and its enumerations (Assembler/include/ir.h, section.h). A register is a number:
-- the grammar passes x0 to x31 or a literal. A label is the bytes of its name; `none` is NULL.
use assembler_project.Base.{ℕ, Bool, true, false, Option, none, List}
use assembler_project.Base.Int.{ℤ, pos}
use assembler_project.Ir.Opcode.{Opcode, op_add}

pub data Section : Type 0 where
  sec_text sec_data : Section

pub data Kind : Type 0 where
  ir_instr ir_data ir_align : Kind

pub data Fmt : Type 0 where
  if_r if_i if_s if_b if_j if_ui : Fmt
  if_cr if_ci if_cl if_cs if_css if_cb if_cj if_ca : Fmt

pub data Reloc : Type 0 where
  reloc_none reloc_hi20 reloc_lo12 reloc_boff reloc_jtgt : Reloc

pub data SizeHint : Type 0 where
  ir_size_auto ir_size_2 ir_size_4 : SizeHint

abbrev pub Label : Type 0
Label = List ℕ

-- `struct c_choice`
pub record Choice : Type 0 where
  pub op : Opcode
  pub fmt : Fmt
  pub rd : ℕ
  pub rs1 : ℕ
  pub rs2 : ℕ
  pub imm : ℤ
  pub label : Option Label
  pub reloc : Reloc

-- `(struct c_choice){0}`
abbrev pub no_choice : Choice
no_choice = record {
  op = op_add;
  fmt = if_r;
  rd = 0;
  rs1 = 0;
  rs2 = 0;
  imm = pos 0;
  label = none;
  reloc = reloc_none;
}

pub record Entry : Type 0 where
  pub kind : Kind
  pub op : Opcode
  pub fmt : Fmt
  pub rd : ℕ
  pub rs1 : ℕ
  pub rs2 : ℕ
  pub imm : ℤ
  pub label : Option Label
  pub reloc : Reloc
  pub sect : Section
  pub addr : ℕ
  pub size : ℕ
  pub line : ℕ
  pub can_compress : Bool
  pub forced_size : SizeHint
  pub has_c_choice : Bool
  pub choice : Choice

-- `(ir_entry_t){0}`
abbrev pub zero_entry : Entry
zero_entry = record {
  kind = ir_instr;
  op = op_add;
  fmt = if_r;
  rd = 0;
  rs1 = 0;
  rs2 = 0;
  imm = pos 0;
  label = none;
  reloc = reloc_none;
  sect = sec_text;
  addr = 0;
  size = 0;
  line = 0;
  can_compress = false;
  forced_size = ir_size_auto;
  has_c_choice = false;
  choice = no_choice;
}

abbrev pub same_section : Section → Section → Bool
same_section sec_text sec_text = true
same_section sec_text sec_data = false
same_section sec_data sec_text = false
same_section sec_data sec_data = true

-- The chain of `fmt == …` tests that ir.c, pass1.c and pass2.c (`is_c_fmt`) write out.
abbrev pub is_c_fmt : Fmt → Bool
is_c_fmt if_r = false
is_c_fmt if_i = false
is_c_fmt if_s = false
is_c_fmt if_b = false
is_c_fmt if_j = false
is_c_fmt if_ui = false
is_c_fmt _ = true

abbrev pub is_auto : SizeHint → Bool
is_auto ir_size_auto = true
is_auto _ = false

abbrev pub is_size_2 : SizeHint → Bool
is_size_2 ir_size_2 = true
is_size_2 _ = false

abbrev pub is_size_4 : SizeHint → Bool
is_size_4 ir_size_4 = true
is_size_4 _ = false

abbrev pub is_reloc_none : Reloc → Bool
is_reloc_none reloc_none = true
is_reloc_none _ = false
