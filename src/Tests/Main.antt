-- ===== src/Tests/Main.antt =====
-- The command line, and a run that assembles one instruction to an ELF file.
use assembler_project.Base.{
  ◌≡◌, refl, sym, ◌∙◌, ◌≢◌, inl, true, false, none, some, [], ◌∷◌, arith, length,
}
use assembler_project.Base.Int.{pos}
use assembler_project.Ir.Entry.{Label, if_r, reloc_none}
use assembler_project.Ir.Opcode.{op_add}
use assembler_project.Main.{World, Options, defaults, arguments, main, derive_output_name}
use assembler_project.Main.Arguments.{main-refuses, IsUnknown}
use assembler_project.Main.Names.{derive_output_name-suffix}
use assembler_project.Symtab.Nodes.{str_eq, str_eq_iff}
use mathlib.Core.Bool.{false≢true}
use assembler_project.Out.{out_elf}
use assembler_project.Pass1.{instruction}
use assembler_project.Tests.Elf.{five_at_most}
use assembler_project.Tests.Symtab.{isqrt}

abbrev world : World
world = record {
  opens_input = λ path. true;
  actions = λ path. instruction op_add if_r 3 1 2 (pos 0) none reloc_none 1 ∷ [];
  parse_rc = λ path. 0;
  opens_output = λ path. true;
  closes = true;
  sqrt = isqrt;
  fwrite = λ f bytes. length bytes;
  stdio = five_at_most;
}

abbrev options : Options
options = record defaults { fmt = out_elf }

abbrev path : Label
path = b'a' ∷ (b'.' ∷ (b's' ∷ []))

derive_output_name-suffix_example :
    derive_output_name (b'd' ∷ (b'/' ∷ (b'a' ∷ (b'.' ∷ (b's' ∷ []))))) out_elf
    ≡ b'a' ∷ (b'.' ∷ (b'e' ∷ (b'l' ∷ (b'f' ∷ []))))
derive_output_name-suffix_example =
    derive_output_name-suffix (b'd' ∷ []) [] (b's' ∷ []) b'a' out_elf (omega arith) (omega arith)

abbrev dash_x : Label
dash_x = b'-' ∷ (b'x' ∷ [])

unlike : (a b : Label) → str_eq a b ≡ false → a ≢ b
unlike a b h e = false≢true (sym h ∙ (str_eq_iff a b).1 e)

dash_x-IsUnknown : IsUnknown dash_x
unfolding str_eq
dash_x-IsUnknown =
    let no = λ (b : Label) (h : str_eq dash_x b ≡ false). unlike dash_x b h in
    (
      no _ refl,
      (
        no _ refl,
        (
          no _ refl,
          (
            no _ refl,
            (
              no _ refl,
              (no _ refl, (no _ refl, (no _ refl, (no _ refl, (no _ refl, (no _ refl, tt)))))),
            ),
          ),
        ),
      ),
    )

main-refuses_example : main world (path ∷ (dash_x ∷ [])) ≡ (2, none)
unfolding arguments str_eq
main-refuses_example =
    main-refuses world (path ∷ []) [] dash_x (record defaults { in_path = some path }) refl
      (dash_x-IsUnknown) (inl refl)
