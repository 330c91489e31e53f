-- ===== src/Layout/Places.antt =====
-- The addresses that `pass2_assign_addresses` gives, and a validation that changes nothing.
use assembler_project.Base.{
  ℕ, ◌+◌, ◌-◌, ◌^◌, ◌≤◌, ◌≡◌, refl, sym, ◌∙◌, inl, inr, true, false, not, ◌||◌, Option, none, some,
  List, [], ◌∷◌, arith, ltb, Bool-cases,
}
use assembler_project.Base.Int.{ℤ}
use assembler_project.Base.Word.{u32, bits32}
use assembler_project.Ir.Buffer.{ir_is_explicit_c}
use assembler_project.Ir.Entry.{
  Entry, Kind, Section, Label, ir_instr, ir_data, ir_align, same_section,
}
use assembler_project.Layout.{
  pass2_node_size_now, place, assign_from, retarget, set_disp, validate_entry, validate_entries,
  target_of, needs_pc_rel, pass2_compute_disp, pass2_choice_range_ok,
}

-- Where an entry of each kind stands when the program counter is `pc`, and how long it is.
abbrev pub Placed : Kind → ℕ → Entry → Type 0
Placed ir_instr pc e = (e.addr ≡ pc) × (e.size ≡ pass2_node_size_now e)
Placed ir_data pc e = e.addr ≡ pc
Placed ir_align pc e = (e.size ≡ u32 (e.addr + 2 ^ 32 - pc)) × (bits32 e.imm ≤ 1 → e.addr ≡ pc)

abbrev pub next : Kind → ℕ → Entry → ℕ
next ir_align pc e = e.addr
next _ pc e = u32 (pc + e.size)

-- The entries of a section stand one behind the other from `pc` on, whatever lies between them.
abbrev pub Laid : Section → ℕ → List Entry → Type 0
Laid sect pc [] = Unit
Laid sect pc (e ∷ es) =
    (same_section e.sect sect ≡ false → Laid sect pc es)
    × (same_section e.sect sect ≡ true → Placed e.kind pc e × Laid sect (next e.kind pc e) es)

-- What the place of an entry depends on.
pub record SamePlace (e e' : Entry) : Type 0 where
  pub kind : e'.kind ≡ e.kind
  pub sect : e'.sect ≡ e.sect
  pub addr : e'.addr ≡ e.addr
  pub size : e'.size ≡ e.size
  pub imm : e'.imm ≡ e.imm
  pub forced_size : e'.forced_size ≡ e.forced_size
  pub can_compress : e'.can_compress ≡ e.can_compress
  pub has_c_choice : e'.has_c_choice ≡ e.has_c_choice

same_self : (e : Entry) → SamePlace e e
same_self e = record {
  kind = refl;
  sect = refl;
  addr = refl;
  size = refl;
  imm = refl;
  forced_size = refl;
  can_compress = refl;
  has_c_choice = refl;
}

same_disp : (disp : ℤ) (e : Entry) → SamePlace e (set_disp disp e)
same_disp disp e = record {
  kind = refl;
  sect = refl;
  addr = refl;
  size = refl;
  imm = refl;
  forced_size = refl;
  can_compress = refl;
  has_c_choice = refl;
}

pub node_size-SamePlace :
    (e e' : Entry) → SamePlace e e' → pass2_node_size_now e' ≡ pass2_node_size_now e
unfolding pass2_node_size_now ir_is_explicit_c
node_size-SamePlace e e' s = rw (s.forced_size, s.can_compress, s.has_c_choice)

Placed-SamePlace :
    (k : Kind) (pc : ℕ) (e e' : Entry) → SamePlace e e' → Placed k pc e → Placed k pc e'
Placed-SamePlace ir_instr pc e e' s (a, z) =
    (s.addr ∙ a, s.size ∙ z ∙ sym (node_size-SamePlace e e' s))
Placed-SamePlace ir_data pc e e' s a = s.addr ∙ a
Placed-SamePlace ir_align pc e e' s (z, a) = (rw (s.addr, s.size) z, rw (s.addr, s.imm) a)

next-SamePlace : (k : Kind) (pc : ℕ) (e e' : Entry) → SamePlace e e' → next k pc e' ≡ next k pc e
next-SamePlace ir_instr pc e e' s = rw (s.size)
next-SamePlace ir_data pc e e' s = rw (s.size)
next-SamePlace ir_align pc e e' s = s.addr

place-Placed :
    (k : Kind) (pc : ℕ) (e : Entry)
    → Placed k pc ((place k pc e).0) × (next k pc ((place k pc e).0) ≡ (place k pc e).1)
unfolding place pass2_node_size_now ir_is_explicit_c
place-Placed ir_instr pc e = ((refl, refl), refl)
place-Placed ir_data pc e = (refl, refl)
place-Placed ir_align pc e = elim (Bool-cases (ltb 1 (bits32 e.imm))) [
  | inl big ↦ rw big ((refl, λ h. ground arith), refl)
  | inr small ↦ rw small ((ground arith, λ h. refl), refl)
]

place-keeps :
    (k : Kind) (pc : ℕ) (e : Entry)
    → ((place k pc e).0.kind ≡ e.kind)
      × ((place k pc e).0.sect ≡ e.sect)
      × ((place k pc e).0.has_c_choice ≡ e.has_c_choice)
      × ((place k pc e).0.choice ≡ e.choice)
unfolding place
place-keeps ir_instr pc e = (refl, refl, refl, refl)
place-keeps ir_data pc e = (refl, refl, refl, refl)
place-keeps ir_align pc e = elim (Bool-cases (ltb 1 (bits32 e.imm))) [
  | inl big ↦ rw big (refl, refl, refl, refl)
  | inr small ↦ rw small (refl, refl, refl, refl)
]

pub assign-Laid :
    (sect : Section) (pc : ℕ) (es : List Entry) → Laid sect pc (assign_from sect pc es)
unfolding assign_from
assign-Laid sect pc [] = tt
assign-Laid sect pc (e ∷ es) = elim (Bool-cases (same_section e.sect sect)) [
  | inl here ↦
      let p = place-Placed e.kind pc e in
      let kept = place-keeps e.kind pc e in
      rw here (
        λ h. ground (arith, kept),
        λ h. rw (kept.0) (p.0, rw (p.1) (assign-Laid sect ((place e.kind pc e).1) es)),
      )
  | inr away ↦ rw away (λ h. assign-Laid sect pc es, λ h. ground (arith, away, h))
]

retarget-SamePlace :
    (t : Option (Option ℕ)) (e : Entry) → (retarget t e).1 ≡ false → SamePlace e ((retarget t e).0)
retarget-SamePlace none e h = same_self e
retarget-SamePlace (some none) e h = ground arith
retarget-SamePlace (some (some to_addr)) e h =
    elim (Bool-cases (pass2_choice_range_ok e.choice (pass2_compute_disp e.addr to_addr))) [
      | inl fits ↦ rw fits (same_disp _ e)
      | inr wide ↦ ground (arith, wide, h)
    ]

validate-SamePlace :
    (search_sym : Label → ℤ) (sect : Section) (e : Entry)
    → (validate_entry search_sym sect e).1 ≡ false
    → SamePlace e ((validate_entry search_sym sect e).0)
unfolding validate_entry
validate-SamePlace search_sym sect e =
    elim (Bool-cases
      (not (same_section e.sect sect) || not e.has_c_choice || not (needs_pc_rel e.choice.op))) [
        | inl skip ↦ rw skip (λ h. same_self e)
        | inr look ↦ rw look (retarget-SamePlace (target_of search_sym e.addr e.choice) e)
      ]

-- A validation that reports no change leaves the layout as it is.
pub validate-Laid :
    (search_sym : Label → ℤ) (sect : Section) (pc : ℕ) (es : List Entry)
    → (validate_entries search_sym sect es).1 ≡ false
    → Laid sect pc es
    → Laid sect pc ((validate_entries search_sym sect es).0)
unfolding validate_entries
validate-Laid search_sym sect pc [] h laid = tt
validate-Laid search_sym sect pc (e ∷ es) h laid =
    let unchanged : (validate_entry search_sym sect e).1 ≡ false = ground (arith, h) in
    let rest : (validate_entries search_sym sect es).1 ≡ false = ground (arith, h) in
    let s = validate-SamePlace search_sym sect e unchanged in
    let n = next-SamePlace e.kind pc e ((validate_entry search_sym sect e).0) s in
    (
      λ away. validate-Laid search_sym sect pc es rest (laid.0 (rw (← s.sect) away)),
      λ here.
          let old = laid.1 (rw (← s.sect) here) in
          rw (s.kind) (
            Placed-SamePlace e.kind pc e _ s (old.0),
            rw n (validate-Laid search_sym sect (next e.kind pc e) es rest (old.1)),
          ),
    )
