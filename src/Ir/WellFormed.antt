-- ===== src/Ir/WellFormed.antt =====
-- What holds of every entry that pass 1 appends and pass 2 marks: the marks agree with the formats.
use assembler_project.Base.{
  ℕ, ◌≤◌, ◌≡◌, refl, sym, ap, ◌∙◌, ◌≢◌, inl, inr, Bool, true, false, Option, arith, Bool-cases,
}
use assembler_project.Base.Int.{ℤ}
use assembler_project.Base.Word.{bits32}
use assembler_project.Ir.Buffer.{new_instr, new_align, new_data}
use assembler_project.Ir.Entry.{
  Kind, ir_instr, ir_data, ir_align, Entry, Fmt, Label, Reloc, Section, is_c_fmt, is_size_2,
  is_size_4,
}
use assembler_project.Ir.Opcode.{Opcode}
use mathlib.Core.Bool.{false≢true}

-- A compressed instruction of the source text has its size forced and cannot be compressed again,
-- a
-- choice is a compressed form for an instruction that is neither compressed nor held at 4 bytes, and
-- padding is a number of bytes with no alignment left to compute.
pub record WellFormed (e : Entry) : Type 0 where
  pub size_2 : is_size_2 e.forced_size ≡ is_c_fmt e.fmt
  pub fixed : is_c_fmt e.fmt ≡ true → e.can_compress ≡ false
  pub wide : e.has_c_choice ≡ true → is_c_fmt e.fmt ≡ false
  pub free : e.has_c_choice ≡ true → is_size_4 e.forced_size ≡ false
  pub short : e.has_c_choice ≡ true → is_c_fmt e.choice.fmt ≡ true
  pub padding : e.kind ≡ ir_align → bits32 e.imm ≤ 1

is_align : Kind → Bool
is_align ir_align = true
is_align _ = false

instr-ne-align : ir_instr ≢ ir_align
unfolding is_align
instr-ne-align h = false≢true (ap is_align h)

data-ne-align : ir_data ≢ ir_align
unfolding is_align
data-ne-align h = false≢true (ap is_align h)

pub new_instr-WellFormed :
    (op : Opcode) (fmt : Fmt) (rd rs1 rs2 : ℕ) (imm : ℤ) (label : Option Label) (rk : Reloc)
    (sect : Section) (addr size line : ℕ)
    → WellFormed (new_instr op fmt rd rs1 rs2 imm label rk sect addr size line)
unfolding new_instr
new_instr-WellFormed op fmt rd rs1 rs2 imm label rk sect addr size line =
    elim (Bool-cases (is_c_fmt fmt)) [
      | inl c ↦ record {
        size_2 = rw c refl;
        fixed = λ h. rw c refl;
        wide = λ h. absurd (false≢true h);
        free = λ h. absurd (false≢true h);
        short = λ h. absurd (false≢true h);
        padding = λ h. absurd (instr-ne-align h);
      }
      | inr full ↦ record {
        size_2 = rw full refl;
        fixed = λ h. absurd (false≢true (sym full ∙ h));
        wide = λ h. absurd (false≢true h);
        free = λ h. absurd (false≢true h);
        short = λ h. absurd (false≢true h);
        padding = λ h. absurd (instr-ne-align h);
      }
    ]

pub new_align-WellFormed :
    (sect : Section) (addr_before pad_bytes line : ℕ)
    → WellFormed (new_align sect addr_before pad_bytes line)
unfolding new_align
new_align-WellFormed sect addr_before pad_bytes line = record {
  size_2 = refl;
  fixed = λ h. refl;
  wide = λ h. refl;
  free = λ h. refl;
  short = λ h. absurd (false≢true h);
  padding = λ h. omega arith;
}

pub new_data-WellFormed :
    (sect : Section) (addr : ℕ) (word : ℤ) (size line : ℕ)
    → WellFormed (new_data sect addr word size line)
unfolding new_data
new_data-WellFormed sect addr word size line = record {
  size_2 = refl;
  fixed = λ h. refl;
  wide = λ h. refl;
  free = λ h. refl;
  short = λ h. absurd (false≢true h);
  padding = λ h. absurd (data-ne-align h);
}
