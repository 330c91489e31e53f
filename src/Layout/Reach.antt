-- ===== src/Layout/Reach.antt =====
-- The displacements of the compressed branches and jumps after a validation.
use assembler_project.Base.{
  ℕ, bit_and, ◌≡◌, sym, inl, inr, Bool, true, false, not, ◌||◌, Option, none, some, List, [], ◌∷◌,
  arith, Bool-cases, All,
}
use assembler_project.Base.Int.{ℤ, pos, negsuc, ◌≤ℤ◌, ltb_ℤ}
use assembler_project.Base.Word.{bits32}
use mathlib.Core.Option.{some-injective, none-ne-some}
use mathlib.Core.Bool.{false≢true}
use assembler_project.Ir.Entry.{Entry, Choice, Section, Label, same_section}
use assembler_project.Ir.Opcode.{Opcode, ◌is◌, op_c_beqz, op_c_bnez, op_c_j, op_c_jal}
use assembler_project.Layout.Lands.{Lands, compute_disp-Lands}
use assembler_project.Layout.{
  pass2_compute_disp, pass2_choice_range_ok, even_within, pass2_peek_label_addr, validate_entry,
  validate_entries, retarget, target_of, needs_pc_rel,
}

abbrev pub is_branch : Opcode → Bool
is_branch op = op is op_c_beqz || op is op_c_bnez

-- An even offset, of 9 bits for a branch and of 12 for a jump.
abbrev pub Fits : Bool → ℤ → Type 0
Fits branch d =
    (bit_and (bits32 d) 1 ≡ 0)
    × (branch ≡ true → (negsuc 255 ≤ℤ d) × (d ≤ℤ pos 254))
    × (negsuc 2047 ≤ℤ d)
    × (d ≤ℤ pos 2046)

even_within-Fits :
    (branch : Bool) (lo hi d : ℤ)
    → negsuc 2047 ≤ℤ lo
    → hi ≤ℤ pos 2046
    → (branch ≡ true → (negsuc 255 ≤ℤ lo) × (hi ≤ℤ pos 254))
    → even_within lo hi d ≡ true
    → Fits branch d
even_within-Fits branch lo hi d wide wide' narrow h =
    let even : bit_and (bits32 d) 1 ≡ 0 = ground arith in
    let above : lo ≤ℤ d = ground arith in
    let below : d ≤ℤ hi = ground arith in
    (
      even,
      λ b. (omega (arith, (narrow b).0, above), omega (arith, (narrow b).1, below)),
      omega (arith, wide, above),
      omega (arith, wide', below),
    )

range_ok-Fits :
    (ch : Choice) (d : ℤ)
    → needs_pc_rel ch.op ≡ true
    → pass2_choice_range_ok ch d ≡ true
    → Fits (is_branch ch.op) d
unfolding pass2_choice_range_ok
range_ok-Fits ch d far = elim (Bool-cases (is_branch ch.op)) [
  | inl branch ↦ rw branch (
      even_within-Fits true (negsuc 255) (pos 254) d (omega arith) (omega arith)
        λ b. (omega arith, omega arith))
  | inr jump ↦
      let target : (ch.op is op_c_j || ch.op is op_c_jal) ≡ true = ground (arith, far, jump) in
      rw (jump, target)
        (even_within-Fits false (negsuc 2047) (pos 2046) d (omega arith) (omega arith)
          λ b. absurd (false≢true b))
]

-- A compressed branch or jump of the section to a label: the look-up knows the label, the
-- displacement leads from the entry's address to the address that the look-up gives, and it fits
-- the form.
abbrev pub Reaches : (Label → ℤ) → Section → Entry → Type 0
Reaches search_sym sect e =
    same_section e.sect sect ≡ true
    → e.has_c_choice ≡ true
    → needs_pc_rel e.choice.op ≡ true
    → (c : ℕ) (cs : List ℕ) → e.choice.label ≡ some (c ∷ cs)
    → (pos 0 ≤ℤ search_sym (c ∷ cs))
      × Lands e.addr e.choice.imm (search_sym (c ∷ cs))
      × Fits (is_branch e.choice.op) e.choice.imm

peek_label-known :
    (search_sym : Label → ℤ) (l : Label) (t : ℕ)
    → pass2_peek_label_addr search_sym l ≡ some t
    → (pos 0 ≤ℤ search_sym l) × (bits32 (search_sym l) ≡ t)
unfolding pass2_peek_label_addr
peek_label-known search_sym l t = elim (Bool-cases (ltb_ℤ (search_sym l) (pos 0))) [
  | inl missing ↦ rw missing λ h. absurd (none-ne-some t h)
  | inr known ↦ rw known λ h. (ground arith, some-injective _ _ h)
]

target_of-label :
    (search_sym : Label → ℤ) (addr : ℕ) (ch : Choice) (c : ℕ) (cs : List ℕ)
    → ch.label ≡ some (c ∷ cs)
    → target_of search_sym addr ch ≡ some (pass2_peek_label_addr search_sym (c ∷ cs))
target_of-label search_sym addr ch c cs l = rw l

abbrev ToLabel : (Label → ℤ) → Entry → Option (Option ℕ) → Type 0
ToLabel search_sym e t =
    (c : ℕ) (cs : List ℕ)
    → e.choice.label ≡ some (c ∷ cs)
    → t ≡ some (pass2_peek_label_addr search_sym (c ∷ cs))

retarget-Reaches :
    (search_sym : Label → ℤ) (sect : Section) (e : Entry) (t : Option (Option ℕ))
    → ToLabel search_sym e t
    → Reaches search_sym sect ((retarget t e).0)
retarget-Reaches search_sym sect e none leads =
    λ here chosen far c cs l. absurd (none-ne-some _ (leads c cs l))
retarget-Reaches search_sym sect e (some none) leads =
    λ here chosen far c cs l. absurd (false≢true chosen)
retarget-Reaches search_sym sect e (some (some to_addr)) leads =
    elim (Bool-cases (pass2_choice_range_ok e.choice (pass2_compute_disp e.addr to_addr))) [
      | inl fits ↦ rw fits λ here chosen far c cs l.
          let known =
            peek_label-known search_sym (c ∷ cs) to_addr
              (sym (some-injective _ _ (leads c cs l))) in
          (
            known.0,
            rw (← known.1) (compute_disp-Lands e.addr (search_sym (c ∷ cs))),
            range_ok-Fits e.choice _ far fits,
          )
      | inr wide ↦ rw wide λ here chosen far c cs l. absurd (false≢true chosen)
    ]

validate-Reaches :
    (search_sym : Label → ℤ) (sect : Section) (e : Entry)
    → Reaches search_sym sect ((validate_entry search_sym sect e).0)
unfolding validate_entry
validate-Reaches search_sym sect e =
    elim (Bool-cases
      (not (same_section e.sect sect) || not e.has_c_choice || not (needs_pc_rel e.choice.op))) [
        | inl skip ↦ rw skip λ here chosen far c cs l. ground (arith, here, chosen, far, skip)
        | inr look ↦ rw look (
            retarget-Reaches search_sym sect e (target_of search_sym e.addr e.choice)
              (target_of-label search_sym e.addr e.choice))
      ]

pub validate_entries-Reaches :
    (search_sym : Label → ℤ) (sect : Section) (es : List Entry)
    → All (Reaches search_sym sect) ((validate_entries search_sym sect es).0)
unfolding validate_entries
validate_entries-Reaches search_sym sect [] = tt
validate_entries-Reaches search_sym sect (e ∷ es) =
    (validate-Reaches search_sym sect e, validate_entries-Reaches search_sym sect es)
