-- ===== src/Tests/Elf.antt =====
-- An ELF file with an instruction and a byte of data, written five bytes at a time at most.
use assembler_project.Base.{
  ℕ, ◌≡◌, refl, true, false, some, List, [], ◌∷◌, arith, ltb, if◌then◌else◌, length,
}
use assembler_project.Out.{Out, out_elf}
use assembler_project.Out.Elf.{out_finish}
use assembler_project.Out.Elf.Ends.{IsWorking, out_finish-ends}
use assembler_project.Out.Elf.Image.{load_elf}
use assembler_project.Out.Elf.Load.{segments_of, out_finish-load}
use assembler_project.Out.Elf.Offsets.{Bounds, plan-Bounds}
use assembler_project.Out.Elf.Write.{Stdio}
use assembler_project.Ir.Entry.{sec_text}

abbrev pub five_at_most : Stdio
five_at_most = record {
  fwrite = λ f off bytes. if ltb 5 (length bytes) then 5 else length bytes;
  ftello = λ f. some 0;
  fseeko = λ f off. true;
}

abbrev output : Out
output = record {
  fmt = out_elf;
  xlen = 32;
  fp = some [];
  cur_sect = sec_text;
  text = 19 ∷ (0 ∷ (0 ∷ (0 ∷ [])));
  data_bytes = 7 ∷ [];
  has_rvc = false;
  vaddr_text_base = 0x00100000;
  vaddr_data_base = 0x00200000;
}

pub five-IsWorking : IsWorking five_at_most
five-IsWorking = record {
  takes = λ f off bytes. ground arith;
  some_byte = λ f off bytes h. ground (arith, h);
  tells = λ f. (0, refl);
  seeks = λ f off. refl;
}

out_finish-ends_example : (out_finish five_at_most 0 output).0 ≡ true
out_finish-ends_example = out_finish-ends five_at_most 0 output [] refl five-IsWorking

out_finish-load_example :
    (f : List ℕ) × ((out_finish five_at_most 0 output).1.fp ≡ some f)
    × (load_elf f ≡ segments_of output)
out_finish-load_example =
    out_finish-load five_at_most 0 output [] refl refl five-IsWorking.takes (omega arith)
      (omega arith, omega arith) (out_finish-ends five_at_most 0 output [] refl five-IsWorking)

plan-Bounds_example : Bounds true 4 1
plan-Bounds_example = plan-Bounds true 4 1 (omega arith)
