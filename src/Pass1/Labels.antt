-- ===== src/Pass1/Labels.antt =====
-- What the symbol table holds after pass 1: each label has the address of its first definition.
use assembler_project.Base.{
  ℕ, ◌≡◌, refl, sym, ap, ◌∙◌, inl, inr, Option, none, some, List, [], ◌∷◌, arith, if◌then◌else◌,
  Bool-cases, Option-cases,
}
use assembler_project.Base.Int.{ℤ}
use assembler_project.Base.Word.{u32, signed}
use assembler_project.Ir.Entry.{Label}
use assembler_project.Pass.{pass_current_pc}
use assembler_project.Pass1.{
  Front, Action, instruction, data_word, space, alignment, define, section, act, acts,
  pass1_initialize, pass1_emit_instruction, pass1_emit_data, pass1_emit_space, pass1_emit_label,
  align_directive,
}
use assembler_project.Symtab.{search_sym}
use assembler_project.Symtab.Buckets.{view}
use assembler_project.Symtab.Nodes.{str_eq, str_eq_iff, first_of}
use assembler_project.Symtab.Methods.{
  IsValid, map_insert, map_search, Map, insert_sym-Refines, create_symtab-Refines, search_sym-eq,
}
use assembler_project.Symtab.Primes.Trial.{IsSqrt}

-- The program counter as the `int` that is stored.
abbrev pub address : Front → ℤ
address s = signed 32 (u32 (pass_current_pc s.pass))

-- The address at the first definition of a label.
abbrev pub first_address : (ℕ → ℕ) → List Action → Front → Label → Option ℤ
first_address sqrt [] s l = none
first_address sqrt (define k ∷ as') s l =
    if str_eq k l then some (address s) else first_address sqrt as' (act sqrt (define k) s) l
first_address sqrt (a ∷ as') s l = first_address sqrt as' (act sqrt a s) l

-- An insertion adds a definition behind those that the map has.
put_behind :
    (k l : Label) (v : ℤ) (m : Map) (later : Option ℤ)
    → first_of ((map_insert k v m).1 l) later
      ≡ first_of (m l) (if str_eq k l then some v else later)
put_behind k l v m later = elim (Option-cases (m k)) [
  | inl absent ↦ elim (Bool-cases (str_eq k l)) [
    | inl same ↦
        let here : m l ≡ none = ap m (sym ((str_eq_iff k l).0 same)) ∙ absent in
        rw (absent, same, here) refl
    | inr other ↦ rw (absent, other) refl
  ]
  | inr (x, found) ↦ elim (Bool-cases (str_eq k l)) [
    | inl same ↦
        let here : m l ≡ some x = ap m (sym ((str_eq_iff k l).0 same)) ∙ found in
        rw (found, same, here) refl
    | inr other ↦ rw (found, other) refl
  ]
]

define_reads :
    (sqrt : ℕ → ℕ) (k l : Label) (s : Front) (later : Option ℤ)
    → IsSqrt sqrt
    → IsValid s.symtab
    → first_of (view (act sqrt (define k) s).symtab l) later
      ≡ first_of (view s.symtab l) (if str_eq k l then some (address s) else later)
unfolding act pass1_emit_label
define_reads sqrt k l s later root valid =
    let r = insert_sym-Refines sqrt k (address s) s.symtab root valid in
    ap (λ (o : Option ℤ). first_of o later) (r.reads l)
    ∙ put_behind k l (address s) (view s.symtab) later

define-IsValid :
    (sqrt : ℕ → ℕ) (k : Label) (s : Front)
    → IsSqrt sqrt
    → IsValid s.symtab
    → IsValid (act sqrt (define k) s).symtab
unfolding act pass1_emit_label
define-IsValid sqrt k s root valid =
    (insert_sym-Refines sqrt k (address s) s.symtab root valid).valid

acts-reads :
    (sqrt : ℕ → ℕ) (as' : List Action) (s : Front) (l : Label)
    → IsSqrt sqrt
    → IsValid s.symtab
    → view (acts sqrt as' s).symtab l ≡ first_of (view s.symtab l) (first_address sqrt as' s l)
unfolding acts act pass1_emit_instruction pass1_emit_data pass1_emit_space align_directive
acts-reads sqrt [] s l root valid = ground arith
acts-reads sqrt (define k ∷ as') s l root valid =
    let s' = act sqrt (define k) s in
    acts-reads sqrt as' s' l root (define-IsValid sqrt k s root valid)
    ∙ define_reads sqrt k l s (first_address sqrt as' s' l) root valid
acts-reads sqrt (instruction op fmt rd rs1 rs2 imm label reloc line ∷ as') s l root valid =
    let a = instruction op fmt rd rs1 rs2 imm label reloc line in
    acts-reads sqrt as' (act sqrt a s) l root valid
acts-reads sqrt (data_word word size line ∷ as') s l root valid =
    acts-reads sqrt as' (act sqrt (data_word word size line) s) l root valid
acts-reads sqrt (space n line ∷ as') s l root valid =
    acts-reads sqrt as' (act sqrt (space n line) s) l root valid
acts-reads sqrt (alignment pow2 line ∷ as') s l root valid =
    acts-reads sqrt as' (act sqrt (alignment pow2 line) s) l root valid
acts-reads sqrt (section sect ∷ as') s l root valid =
    acts-reads sqrt as' (act sqrt (section sect) s) l root valid

-- After pass 1, with the square root of the C library in the symbol table, a label has the address
-- at its first definition, whatever defines it again, and a label that is not defined has none,
-- which the look-up reports as -1.
pub search_sym-acts :
    (sqrt : ℕ → ℕ) (as' : List Action) (s : Front) (l : Label)
    → IsSqrt sqrt
    → search_sym (acts sqrt as' (pass1_initialize s)).symtab l
      ≡ map_search l (first_address sqrt as' (pass1_initialize s))
search_sym-acts sqrt as' s l root =
    let s' = pass1_initialize s in
    let empty : view s'.symtab l ≡ none =
      unfold pass1_initialize in create_symtab-Refines.reads l in
    let valid : IsValid s'.symtab = unfold pass1_initialize in create_symtab-Refines.valid in
    let found : view (acts sqrt as' s').symtab l ≡ first_address sqrt as' s' l =
      acts-reads sqrt as' s' l root valid ∙ rw empty refl in
    search_sym-eq l (acts sqrt as' s').symtab ∙ rw (found, map_search) refl
