-- ===== src/Layout/Settled.antt =====
-- What holds of the layout when `pass2_relayout_and_validate` reports success.
use assembler_project.Base.{
  ℕ, zero, suc, ◌≡◌, inl, inr, true, false, not, ◌||◌, List, ◌==◌, if◌then◌else◌, Bool-cases, All,
}
use assembler_project.Base.Int.{ℤ}
use mathlib.Core.Bool.{false≢true}
use assembler_project.Ir.Entry.{Entry, Section, Label}
use assembler_project.Layout.{
  assign_from, pass2_assign_addresses, pass2_validate_compressed_ranges, relayout,
  pass2_relayout_and_validate,
}
use assembler_project.Layout.Places.{Laid, assign-Laid, validate-Laid}
use assembler_project.Layout.Reach.{Reaches, validate_entries-Reaches}
use assembler_project.Pass.{Arch}

ranges-Laid :
    (a : Arch) (search_sym : Label → ℤ) (sect : Section) (pc : ℕ) (es : List Entry)
    → (pass2_validate_compressed_ranges a search_sym sect es).1 ≡ false
    → Laid sect pc es
    → Laid sect pc ((pass2_validate_compressed_ranges a search_sym sect es).0)
unfolding pass2_validate_compressed_ranges
ranges-Laid a search_sym sect pc es = elim (Bool-cases (not a.ext_c || not a.auto_c)) [
  | inl off ↦ rw off λ h laid. laid
  | inr on ↦ rw on (validate-Laid search_sym sect pc es)
]

ranges-Reaches :
    (a : Arch) (search_sym : Label → ℤ) (sect : Section) (es : List Entry)
    → a.ext_c ≡ true
    → a.auto_c ≡ true
    → All (Reaches search_sym sect) ((pass2_validate_compressed_ranges a search_sym sect es).0)
unfolding pass2_validate_compressed_ranges
ranges-Reaches a search_sym sect es c auto =
    rw (c, auto) (validate_entries-Reaches search_sym sect es)

relayout-Laid :
    (a : Arch) (search_sym : Label → ℤ) (sect : Section) (left : ℕ) (es : List Entry)
    → (relayout a search_sym sect left es).0 ≡ true
    → Laid sect 0 ((relayout a search_sym sect left es).1)
unfolding relayout pass2_assign_addresses
relayout-Laid a search_sym sect zero es = λ h. absurd (false≢true h)
relayout-Laid a search_sym sect (suc left) es =
    let placed = assign_from sect 0 es in
    elim (Bool-cases ((pass2_validate_compressed_ranges a search_sym sect placed).1)) [
      | inl changed ↦ rw changed (relayout-Laid a search_sym sect left _)
      | inr same ↦ rw same λ h. ranges-Laid a search_sym sect 0 placed same (assign-Laid sect 0 es)
    ]

relayout-Reaches :
    (a : Arch) (search_sym : Label → ℤ) (sect : Section) (left : ℕ) (es : List Entry)
    → a.ext_c ≡ true
    → a.auto_c ≡ true
    → (relayout a search_sym sect left es).0 ≡ true
    → All (Reaches search_sym sect) ((relayout a search_sym sect left es).1)
unfolding relayout pass2_assign_addresses
relayout-Reaches a search_sym sect zero es c auto = λ h. absurd (false≢true h)
relayout-Reaches a search_sym sect (suc left) es c auto =
    let placed = assign_from sect 0 es in
    elim (Bool-cases ((pass2_validate_compressed_ranges a search_sym sect placed).1)) [
      | inl changed ↦ rw changed (relayout-Reaches a search_sym sect left _ c auto)
      | inr same ↦ rw same λ h. ranges-Reaches a search_sym sect placed c auto
    ]

-- When the layout settles, the section's entries stand one behind the other from address 0 on, each
-- with the size of the form that is chosen for it in the end.
pub pass2_relayout_and_validate-Laid :
    (a : Arch) (search_sym : Label → ℤ) (sect : Section) (max_iters : ℕ) (es : List Entry)
    → (pass2_relayout_and_validate a search_sym sect max_iters es).0 ≡ true
    → Laid sect 0 ((pass2_relayout_and_validate a search_sym sect max_iters es).1)
unfolding pass2_relayout_and_validate
pass2_relayout_and_validate-Laid a search_sym sect max_iters es =
    relayout-Laid a search_sym sect (if max_iters == 0 then 1 else max_iters) es

-- When the layout settles with automatic compression on, every compressed branch or jump of the
-- section that is to a label holds an even displacement, of 9 bits for a branch and of 12 bits for
-- a jump. It leads from the jump's final address to the address that the look-up in the symbol
-- table gives for the label, which is not negative; addresses are compared modulo 2 ^ 32. Where the
-- layout has put the label itself is not considered.
pub pass2_relayout_and_validate-Reaches :
    (a : Arch) (search_sym : Label → ℤ) (sect : Section) (max_iters : ℕ) (es : List Entry)
    → a.ext_c ≡ true
    → a.auto_c ≡ true
    → (pass2_relayout_and_validate a search_sym sect max_iters es).0 ≡ true
    → All (Reaches search_sym sect) ((pass2_relayout_and_validate a search_sym sect max_iters es).1)
unfolding pass2_relayout_and_validate
pass2_relayout_and_validate-Reaches a search_sym sect max_iters es =
    relayout-Reaches a search_sym sect (if max_iters == 0 then 1 else max_iters) es
