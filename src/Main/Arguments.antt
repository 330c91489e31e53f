-- ===== src/Main/Arguments.antt =====
-- The arguments are read in order, and a bad one ends the run.
use assembler_project.Base.{
  ◌≡◌, refl, sym, ap, ◌∙◌, ◌≢◌, ◌⊎◌, inl, inr, true, false, Option, none, some, List, [], ◌∷◌, ◌++◌,
  Bool-cases, Option-cases, All,
}
use assembler_project.Ir.Entry.{Label}
use assembler_project.Main.{
  Options, defaults, arguments, one_argument, dash_o, main, with_options, World, take_input,
  starts_with_dash,
}
use assembler_project.Symtab.Nodes.{str_eq, str_eq_iff}
use mathlib.Core.Option.{some-ne-none, some_inj}

-- The steps of the loop.
step_none : (o : Options) → arguments [] o ≡ some o
unfolding arguments
step_none o = refl

step_value :
    (arg value : Label) (rest : List Label) (o : Options)
    → str_eq arg dash_o ≡ true
    → arguments (arg ∷ (value ∷ rest)) o ≡ arguments rest (record o { out_path = some value })
unfolding arguments
step_value arg value rest o is_o = rw (is_o, arguments) refl

step_next :
    (arg value : Label) (rest : List Label) (o o' : Options)
    → str_eq arg dash_o ≡ false
    → one_argument arg o ≡ some o'
    → arguments (arg ∷ (value ∷ rest)) o ≡ arguments (value ∷ rest) o'
unfolding arguments
step_next arg value rest o o' other ok = rw (other, ok, arguments) refl

step_bad :
    (arg : Label) (rest : List Label) (o : Options)
    → str_eq arg dash_o ≡ false
    → one_argument arg o ≡ none
    → arguments (arg ∷ rest) o ≡ none
unfolding arguments
step_bad arg [] o other bad = rw (other, bad) refl
step_bad arg (value ∷ rest) o other bad = rw (other, bad, arguments) refl

step_last :
    (arg : Label) (o o' : Options)
    → arguments (arg ∷ []) o ≡ some o'
    → (str_eq arg dash_o ≡ false) × (one_argument arg o ≡ some o')
unfolding arguments
step_last arg o o' = elim (Bool-cases (str_eq arg dash_o)) [
  | inl is_o ↦ rw is_o λ h. absurd (some-ne-none o' (sym h))
  | inr other ↦ rw other λ h. (refl, h)
]

-- Arguments that are accepted leave the rest to be read as if it stood alone.
arguments-append :
    (pre post : List Label) (o o' : Options)
    → arguments pre o ≡ some o'
    → arguments (pre ++ post) o ≡ arguments post o'
arguments-append [] post o o' h = ap (arguments post) (some_inj.0 (sym (step_none o) ∙ h))
arguments-append (arg ∷ []) [] o o' h = h ∙ sym (step_none o')
arguments-append (arg ∷ []) (value ∷ post) o o' h =
    let (other, ok) = step_last arg o o' h in step_next arg value post o o' other ok
arguments-append (arg ∷ (value ∷ rest)) post o o' h = elim (Bool-cases (str_eq arg dash_o)) [
  | inl is_o ↦
      let o1 = record o { out_path = some value } in
      step_value arg value (rest ++ post) o is_o
      ∙ arguments-append rest post o1 o' (sym (step_value arg value rest o is_o) ∙ h)
  | inr other ↦ elim (Option-cases (one_argument arg o)) [
    | inl bad ↦ absurd (some-ne-none o' (sym h ∙ step_bad arg (value ∷ rest) o other bad))
    | inr (o1, ok) ↦
        step_next arg value (rest ++ post) o o1 other ok
        ∙ arguments-append (value ∷ rest) post o1 o'
            (sym (step_next arg value rest o o1 other ok) ∙ h)
  ]
]

-- The options that are known besides `-o`.
abbrev known : List Label
known =
    (b'-' ∷ (b'm' ∷ (b'6' ∷ (b'4' ∷ []))))
    ∷ ((b'-' ∷ (b'm' ∷ (b'3' ∷ (b'2' ∷ []))))
        ∷ ((b'-' ∷ (b'm' ∷ []))
            ∷ ((b'-' ∷ (b'm' ∷ (b'n' ∷ (b'o' ∷ (b'-' ∷ (b'm' ∷ []))))))
                ∷ ((b'-' ∷ (b'm' ∷ (b'c' ∷ [])))
                    ∷ ((b'-' ∷ (b'm' ∷ (b'n' ∷ (b'o' ∷ (b'-' ∷ (b'c' ∷ []))))))
                        ∷ ((b'-'
                              ∷ (b'm'
                                  ∷ (b'c'
                                      ∷ (b'o'
                                          ∷ (b'm'
                                              ∷ (b'p' ∷ (b'r' ∷ (b'e' ∷ (b's' ∷ (b's' ∷ []))))))))))
                            ∷ ((b'-'
                                  ∷ (b'm'
                                      ∷ (b'n'
                                          ∷ (b'o'
                                              ∷ (b'-'
                                                  ∷ (b'c'
                                                      ∷ (b'o'
                                                          ∷ (b'm'
                                                            ∷ (b'p'
                                                            ∷ (b'r'
                                                            ∷ (b'e'
                                                            ∷ (b's' ∷ (b's' ∷ [])))))))))))))
                                ∷ ((b'-' ∷ (b'f' ∷ (b'e' ∷ (b'l' ∷ (b'f' ∷ [])))))
                                    ∷ ((b'-' ∷ (b'f' ∷ (b'r' ∷ (b'a' ∷ (b'w' ∷ []))))) ∷ [])))))))))

-- Neither `-o` nor another option.
abbrev pub IsUnknown : Label → Type 0
IsUnknown arg = (arg ≢ dash_o) × All (λ (k : Label). arg ≢ k) known

differ : (a b : Label) → a ≢ b → str_eq a b ≡ false
differ a b away = elim (Bool-cases (str_eq a b)) [
  | inl same ↦ absurd (away ((str_eq_iff a b).0 same))
  | inr other ↦ other
]

take_input-some :
    (arg p : Label) (o : Options) (at : Option Label) → at ≡ some p → take_input arg o at ≡ none
take_input-some arg p o none h = absurd (some-ne-none p (sym h))
take_input-some arg p o (some q) h = refl

one_argument-none :
    (arg : Label) (o : Options)
    → All (λ (k : Label). arg ≢ k) known
    → (starts_with_dash arg ≡ true) ⊎ ((p : Label) × (o.in_path ≡ some p))
    → one_argument arg o ≡ none
unfolding one_argument
one_argument-none arg o (a, (b, (c, (d, (e, (f, (g, (h, (i, (j, _)))))))))) why =
    rw
      (
        differ arg _ a,
        differ arg _ b,
        differ arg _ c,
        differ arg _ d,
        differ arg _ e,
        differ arg _ f,
        differ arg _ g,
        differ arg _ h,
        differ arg _ i,
        differ arg _ j,
      )
      (elim why [
        | inl dash ↦ rw dash refl
        | inr (p, there) ↦ elim (Bool-cases (starts_with_dash arg)) [
          | inl dash ↦ rw dash refl
          | inr plain ↦ rw plain (take_input-some arg p o o.in_path there)
        ]
      ])

-- Behind arguments that are accepted, one that is no option ends the run with 2 and no output where it
-- starts with '-' or an input has been named.
pub main-refuses :
    (w : World) (pre post : List Label) (arg : Label) (o : Options)
    → arguments pre defaults ≡ some o
    → IsUnknown arg
    → (starts_with_dash arg ≡ true) ⊎ ((p : Label) × (o.in_path ≡ some p))
    → main w (pre ++ arg ∷ post) ≡ (2, none)
unfolding main
main-refuses w pre post arg o ok (not_o, unknown) why =
    let stop : arguments (pre ++ arg ∷ post) defaults ≡ none =
      arguments-append pre (arg ∷ post) defaults o ok
      ∙ step_bad arg post o (differ arg dash_o not_o) (one_argument-none arg o unknown why) in
    ap (with_options w) stop
