-- ===== src/Main.antt =====
-- The command line and the order of the passes (Assembler/src/main.c). `World` is what is outside:
-- the files that open, the parser's actions and result, and the C library. The exit code comes first.
pub mod Names
pub mod Arguments
pub mod Whole
use assembler_project.Base.{
  ℕ, zero, suc, ◌+◌, ◌-◌, ◌*◌, ◌/◌, ◌%◌, ◌^◌, ◌≤◌, ◌<◌, bit_and, bit_or, ◌≡◌, refl, sym, ap, ◌∙◌,
  ◌≢◌, ◌↔◌, ◌⊎◌, inl, inr, Bool, true, false, not, ◌&&◌, ◌||◌, Option, none, some, List, [], ◌∷◌,
  ◌++◌, arith, ltb, leb, ◌==◌, ◌!=◌, if◌then◌else◌, ==_iff, Bool-cases, Option-cases, length,
  get_elem?, get_or, set, replicate, length-append, length-replicate, length-set, All,
}
use assembler_project.Base.Int.{
  ℤ, pos, negsuc, pos_part, neg_part, sub_ℕ, ◌+ℤ◌, ◌-ℤ◌, ◌≤ℤ◌, ltb_ℤ, eqb_ℤ, +ℤ_parts, -ℤ_parts,
  eq_of_parts, int_laws,
}
use assembler_project.Base.Word.{
  u8, u16, u32, u64, ◌<<◌, ◌>>◌, bits64, bits32, asr, signed, to_int32, field,
}
use assembler_project.Emit.{Emit, pass2_initialize, pass2_set_output, pass2_run}
use assembler_project.Ir.Entry.{Label}
use assembler_project.Out.{take, Out, OutFormat, out_raw, out_elf, out_begin, out_set_file}
use assembler_project.Out.Elf.{out_finish}
use assembler_project.Out.Elf.Write.{Stdio, drop}
use assembler_project.Pass.{Pass, start, pass_set_arch, pass_set_ext_c, pass_set_auto_compress}
use assembler_project.Pass1.{Front, Action, acts, pass1_initialize}
use assembler_project.Symtab.{create_symtab, search_sym}
use assembler_project.Symtab.Nodes.{str_eq}

-- `strrchr`: the index of the last `c`.
abbrev pub strrchr : Label → ℕ → Option ℕ
strrchr [] c = none
strrchr (x ∷ xs) c = elim (strrchr xs c) [
  | some i ↦ some (suc i)
  | none ↦ if x == c then some 0 else none
]

abbrev pub extension : OutFormat → Label
extension out_elf = b'.' ∷ (b'e' ∷ (b'l' ∷ (b'f' ∷ [])))
extension out_raw = b'.' ∷ (b'b' ∷ (b'i' ∷ (b'n' ∷ [])))

-- `slash ? slash + 1 : in`, on a system where '\' does not separate.
abbrev pub after_slash : Label → Option ℕ → Label
after_slash path none = path
after_slash path (some i) = drop (suc i) path

-- `if (dot && dot != out) *dot = '\0';`
abbrev pub cut_dot : Label → Option ℕ → Label
cut_dot base none = base
cut_dot base (some zero) = base
cut_dot base (some (suc i)) = take (suc i) base

unfoldable pub derive_output_name : Label → OutFormat → Label
derive_output_name path fmt =
    let base = after_slash path (strrchr path b'/') in
    cut_dot base (strrchr base b'.') ++ extension fmt

-- The variables that the loop over `argv` sets.
pub record Options : Type 0 where
  pub in_path : Option Label
  pub out_path : Option Label
  pub xlen : ℕ
  pub mext : Bool
  pub cext : Bool
  pub auto_c : Bool
  pub fmt : OutFormat

abbrev pub defaults : Options
defaults = record {
  in_path = none;
  out_path = none;
  xlen = 32;
  mext = false;
  cext = false;
  auto_c = false;
  fmt = out_raw;
}

abbrev pub starts_with_dash : Label → Bool
starts_with_dash [] = false
starts_with_dash (c ∷ cs) = c == b'-'

abbrev pub take_input : Label → Options → Option Label → Option Options
take_input arg o none = some (record o { in_path = some arg })
take_input arg o (some path) = none

-- An argument other than `-o`; `none` is an exit with 2.
unfoldable pub one_argument : Label → Options → Option Options
one_argument arg o =
    if str_eq arg (b'-' ∷ (b'm' ∷ (b'6' ∷ (b'4' ∷ []))))
    then some (record o { xlen = 64 })
    else if str_eq arg (b'-' ∷ (b'm' ∷ (b'3' ∷ (b'2' ∷ []))))
    then some (record o { xlen = 32 })
    else if str_eq arg (b'-' ∷ (b'm' ∷ []))
    then some (record o { mext = true })
    else if str_eq arg (b'-' ∷ (b'm' ∷ (b'n' ∷ (b'o' ∷ (b'-' ∷ (b'm' ∷ []))))))
    then some (record o { mext = false })
    else if str_eq arg (b'-' ∷ (b'm' ∷ (b'c' ∷ [])))
    then some (record o { cext = true })
    else if str_eq arg (b'-' ∷ (b'm' ∷ (b'n' ∷ (b'o' ∷ (b'-' ∷ (b'c' ∷ []))))))
    then some (record o { cext = false })
    else if str_eq arg
        (b'-' ∷ (b'm' ∷ (b'c' ∷ (b'o' ∷ (b'm' ∷ (b'p' ∷ (b'r' ∷ (b'e' ∷ (b's' ∷ (b's' ∷ []))))))))))
    then some (record o { auto_c = true })
    else if str_eq arg (
        b'-'
        ∷ (b'm'
            ∷ (b'n'
                ∷ (b'o'
                    ∷ (b'-'
                        ∷ (b'c'
                            ∷ (b'o'
                                ∷ (b'm' ∷ (b'p' ∷ (b'r' ∷ (b'e' ∷ (b's' ∷ (b's' ∷ [])))))))))))))
    then some (record o { auto_c = false })
    else if str_eq arg (b'-' ∷ (b'f' ∷ (b'e' ∷ (b'l' ∷ (b'f' ∷ [])))))
    then some (record o { fmt = out_elf })
    else if str_eq arg (b'-' ∷ (b'f' ∷ (b'r' ∷ (b'a' ∷ (b'w' ∷ [])))))
    then some (record o { fmt = out_raw })
    else if starts_with_dash arg
    then none
    else take_input arg o o.in_path

abbrev pub dash_o : Label
dash_o = b'-' ∷ (b'o' ∷ [])

-- The loop over `argv` from 1 on.
unfoldable pub arguments : List Label → Options → Option Options
unfolding one_argument
arguments [] o = some o
arguments (arg ∷ []) o = if str_eq arg dash_o then none else one_argument arg o
arguments (arg ∷ (value ∷ rest)) o = elim (str_eq arg dash_o) [
  | true ↦ arguments rest (record o { out_path = some value })
  | false ↦ elim (one_argument arg o) [ none ↦ none | some o' ↦ arguments (value ∷ rest) o' ]
]

pub record World : Type 0 where
  pub opens_input : Label → Bool
  pub actions : Label → List Action
  pub parse_rc : Label → ℕ
  pub opens_output : Label → Bool
  pub closes : Bool
  pub sqrt : ℕ → ℕ
  pub fwrite : List ℕ → List ℕ → ℕ
  pub stdio : Stdio

-- The target that the options choose. `-mcompress` is ignored without the C extension.
unfoldable pub chosen_pass : Options → Pass
unfolding pass_set_arch pass_set_ext_c pass_set_auto_compress
chosen_pass o =
    pass_set_auto_compress (if o.auto_c && not o.cext then false else o.auto_c)
      (pass_set_ext_c o.cext (pass_set_arch o.xlen o.mext start))

-- From the initialisation of pass 1 to the end of the parse.
unfoldable pub front_of : World → Options → Label → Front
unfolding chosen_pass pass1_initialize acts create_symtab
front_of w o path =
    acts w.sqrt (w.actions path)
      (pass1_initialize (record { pass = chosen_pass o; symtab = create_symtab; ir = [] }))

-- Pass 2 and the end of `main`, with the output open. `pass2_finalize` says whether `had_error` is 0.
unfoldable pub back_of : World → Options → Front → ℕ × Out
unfolding out_begin out_set_file pass2_initialize pass2_set_output pass2_run search_sym out_finish
back_of w o front =
    let begun = pass2_set_output (pass2_initialize (out_set_file (out_begin o.fmt o.xlen))) in
    let run = pass2_run w.fwrite front.pass.arch (search_sym front.symtab) front.ir begun in
    let final_ok = not run.1.had_error in
    let finished = out_finish w.stdio 0 run.1.out in
    (
      if (if w.closes then run.0 else false) && final_ok && finished.0 && w.closes then 0 else 1,
      finished.1,
    )

abbrev pub output_path : Options → Label → Option Label → Label
output_path o path none = derive_output_name path o.fmt
output_path o path (some p) = p

-- From the opening of the input on. `none` is a run with no output file.
unfoldable pub assemble : World → Options → Label → ℕ × Option (Label × Out)
unfolding derive_output_name front_of back_of
assemble w o path =
    let out_path = output_path o path o.out_path in
    let back = back_of w o (front_of w o path) in
    if not (w.opens_input path)
    then (1, none)
    else if w.parse_rc path != 0
    then (1, none)
    else if not (w.opens_output out_path)
    then (1, none)
    else (back.0, some (out_path, back.1))

abbrev pub with_input : World → Options → Option Label → ℕ × Option (Label × Out)
with_input w o none = (2, none)
with_input w o (some path) = assemble w o path

abbrev pub with_options : World → Option Options → ℕ × Option (Label × Out)
with_options w none = (2, none)
with_options w (some o) = with_input w o o.in_path

unfoldable pub main : World → List Label → ℕ × Option (Label × Out)
unfolding arguments assemble
main w args = with_options w (arguments args defaults)
