-- ===== src/Main/Whole.antt =====
-- A run that exits with 0 has written the file that it should.
use assembler_project.Base.{
  ℕ, ◌≡◌, Bool, false, ◌&&◌, some, List, [], ◌∷◌, ◌++◌, if◌then◌else◌, length,
}
use assembler_project.Emit.{Emit, pass2_initialize, pass2_set_output, lay_out}
use assembler_project.Emit.Run.{total}
use assembler_project.Ir.Entry.{Entry, Label, sec_text, sec_data}
use assembler_project.Main.{Options, World, front_of, assemble, output_path}
use assembler_project.Out.{Out, out_begin, out_set_file}
use assembler_project.Out.Elf.{when}
use assembler_project.Out.Elf.Image.{Segment, load_elf}
use assembler_project.Out.Elf.Load.{segments_of}
use assembler_project.Pass1.{Front}
use assembler_project.Symtab.{search_sym}

-- The layout of the entries that pass 1 leaves.
abbrev pub laid : Front → List Entry
laid front = lay_out front.pass.arch (search_sym front.symtab) front.ir

-- An output whose program headers describe its sections at the bases of `out_begin`, with as many
-- bytes as the layout has.
pub record Written (es : List Entry) (g : Out) : Type 0 where
  pub file : List ℕ
  pub fp : g.fp ≡ some file
  pub loads : load_elf file ≡ segments_of g
  pub text : length g.text ≡ total sec_text es
  pub data_size : length g.data_bytes ≡ total sec_data es
  pub bases : (g.vaddr_text_base ≡ 0x00100000) × (g.vaddr_data_base ≡ 0x00200000)

abbrev begun : Options → Emit
begun o = pass2_set_output (pass2_initialize (out_set_file (out_begin o.fmt o.xlen)))

-- What `out_finish` leaves as it was.
abbrev sections : Out → List ℕ × List ℕ × ℕ × ℕ
sections g = (g.text, g.data_bytes, g.vaddr_text_base, g.vaddr_data_base)

-- `segments_of` reads these parts only.
abbrev segments_from : List ℕ × List ℕ × ℕ × ℕ → List Segment
segments_from (text, data_bytes, text_base, data_base) =
    when (length text) (record { vaddr = text_base; flags = 5; content = text } ∷ [])
    ++ when (length data_bytes) (record { vaddr = data_base; flags = 6; content = data_bytes } ∷ [])

abbrev exit_code : Bool → Bool → Bool → Bool → ℕ
exit_code closes run final_ok finished =
    if (if closes then run else false) && final_ok && finished && closes then 0 else 1

-- What `assemble` wrote, and where.
pub record Assembled (w : World) (o : Options) (path : Label) : Type 0 where
  pub output : Out
  pub result : assemble w o path ≡ (0, some (output_path o path o.out_path, output))
  pub parsed : w.parse_rc path ≡ 0
  pub written : Written (laid (front_of w o path)) output
