-- ===== src/Layout/Rounds.antt =====
-- The rounds of `pass2_relayout_and_validate` come to an end.
use assembler_project.Base.{
  ℕ, zero, suc, ◌+◌, ◌≤◌, ◌<◌, ◌≡◌, refl, ap, inl, inr, Bool, true, false, not, ◌||◌, Option, none,
  some, List, [], ◌∷◌, arith, ltb, ◌==◌, Bool-cases,
}
use assembler_project.Base.Int.{ℤ}
use assembler_project.Base.Word.{bits32}
use assembler_project.Ir.Entry.{
  Entry, Kind, Section, Label, ir_instr, ir_data, ir_align, same_section,
}
use assembler_project.Layout.{
  place, assign_from, pass2_assign_addresses, pass2_compute_disp, pass2_choice_range_ok,
  validate_entry, validate_entries, retarget, target_of, needs_pc_rel,
  pass2_validate_compressed_ranges, relayout, pass2_relayout_and_validate,
}
use assembler_project.Pass.{Arch}

-- How many entries hold a compressed choice.
abbrev pub one_if : Bool → ℕ
one_if true = 1
one_if false = 0

abbrev pub choices : List Entry → ℕ
choices [] = 0
choices (e ∷ es) = one_if e.has_c_choice + choices es

retarget-loses :
    (t : Option (Option ℕ)) (e : Entry)
    → e.has_c_choice ≡ true
    → one_if ((retarget t e).0.has_c_choice) + one_if ((retarget t e).1) ≤ one_if e.has_c_choice
retarget-loses none e h = rw h (omega arith)
retarget-loses (some none) e h = rw h (omega arith)
retarget-loses (some (some to_addr)) e h =
    elim (Bool-cases (pass2_choice_range_ok e.choice (pass2_compute_disp e.addr to_addr))) [
      | inl fits ↦ rw (fits, h) (omega arith)
      | inr wide ↦ rw (wide, h) (omega arith)
    ]

validate-loses :
    (search_sym : Label → ℤ) (sect : Section) (e : Entry)
    → one_if ((validate_entry search_sym sect e).0.has_c_choice)
        + one_if ((validate_entry search_sym sect e).1)
      ≤ one_if e.has_c_choice
unfolding validate_entry
validate-loses search_sym sect e =
    elim (Bool-cases
      (not (same_section e.sect sect) || not e.has_c_choice || not (needs_pc_rel e.choice.op))) [
        | inl skip ↦ rw skip (omega arith)
        | inr look ↦
            rw look (retarget-loses (target_of search_sym e.addr e.choice) e (ground (arith, look)))
      ]

one_if-or : (a b : Bool) → one_if (a || b) ≤ one_if a + one_if b
one_if-or true b = omega arith
one_if-or false b = omega arith

-- A validation that reports a change has dropped a choice.
validate_entries-loses :
    (search_sym : Label → ℤ) (sect : Section) (es : List Entry)
    → choices ((validate_entries search_sym sect es).0)
        + one_if ((validate_entries search_sym sect es).1)
      ≤ choices es
unfolding validate_entries
validate_entries-loses search_sym sect [] = omega arith
validate_entries-loses search_sym sect (e ∷ es) = omega (
  arith,
  one_if-or ((validate_entry search_sym sect e).1) ((validate_entries search_sym sect es).1),
  validate-loses search_sym sect e,
  validate_entries-loses search_sym sect es,
)

place-has_c_choice :
    (k : Kind) (pc : ℕ) (e : Entry) → (place k pc e).0.has_c_choice ≡ e.has_c_choice
unfolding place
place-has_c_choice ir_instr pc e = refl
place-has_c_choice ir_data pc e = refl
place-has_c_choice ir_align pc e = elim (Bool-cases (ltb 1 (bits32 e.imm))) [
  | inl big ↦ rw big refl
  | inr small ↦ rw small refl
]

assign-choices :
    (sect : Section) (pc : ℕ) (es : List Entry) → choices (assign_from sect pc es) ≡ choices es
unfolding assign_from
assign-choices sect pc [] = refl
assign-choices sect pc (e ∷ es) = elim (Bool-cases (same_section e.sect sect)) [
  | inl here ↦
      rw (here, place-has_c_choice e.kind pc e, assign-choices sect ((place e.kind pc e).1) es)
  | inr away ↦ rw (away, assign-choices sect pc es)
]

ranges-loses :
    (a : Arch) (search_sym : Label → ℤ) (sect : Section) (es : List Entry)
    → choices ((pass2_validate_compressed_ranges a search_sym sect es).0)
        + one_if ((pass2_validate_compressed_ranges a search_sym sect es).1)
      ≤ choices es
unfolding pass2_validate_compressed_ranges
ranges-loses a search_sym sect es = elim (Bool-cases (not a.ext_c || not a.auto_c)) [
  | inl off ↦ rw off (omega arith)
  | inr on ↦ rw on (validate_entries-loses search_sym sect es)
]

relayout-ends :
    (a : Arch) (search_sym : Label → ℤ) (sect : Section) (left : ℕ) (es : List Entry)
    → choices es < left
    → (relayout a search_sym sect left es).0 ≡ true
unfolding relayout pass2_assign_addresses
relayout-ends a search_sym sect zero es h = absurd (omega arith)
relayout-ends a search_sym sect (suc left) es h =
    let placed = assign_from sect 0 es in
    elim (Bool-cases ((pass2_validate_compressed_ranges a search_sym sect placed).1)) [
      | inl changed ↦
          let out = pass2_validate_compressed_ranges a search_sym sect placed in
          let drop : choices (out.0) + 1 ≤ choices placed =
            omega (arith, ap one_if changed, ranges-loses a search_sym sect placed) in
          rw changed
            (relayout-ends a search_sym sect left _ (omega (arith, drop, assign-choices sect 0 es)))
      | inr same ↦ rw same refl
    ]

-- With more iterations allowed than there are compressed choices, the layout settles and the result
-- is `true`.
pub pass2_relayout_and_validate-ends :
    (a : Arch) (search_sym : Label → ℤ) (sect : Section) (max_iters : ℕ) (es : List Entry)
    → choices es < max_iters
    → (pass2_relayout_and_validate a search_sym sect max_iters es).0 ≡ true
unfolding pass2_relayout_and_validate
pass2_relayout_and_validate-ends a search_sym sect max_iters es h =
    let some_round : (max_iters == 0) ≡ false = ground arith in
    rw some_round (relayout-ends a search_sym sect max_iters es h)
