-- ===== src/Layout/Keeps.antt =====
-- The layout keeps every entry well formed.
use assembler_project.Base.{
  ℕ, zero, suc, ◌≡◌, sym, ◌∙◌, inl, inr, true, false, not, ◌||◌, Option, none, some, List, [], ◌∷◌,
  arith, ltb, ◌==◌, if◌then◌else◌, Bool-cases, Option-cases, All,
}
use assembler_project.Base.Int.{ℤ}
use assembler_project.Base.Word.{bits32}
use assembler_project.CRules.{c_try_map}
use assembler_project.CRules.Sound.{c_try_map-IsSound}
use assembler_project.Ir.Buffer.{ir_is_explicit_c, ir_get_forced_size, ir_set_c_choice}
use assembler_project.Ir.Entry.{
  Entry, Kind, Section, Label, ir_instr, ir_data, ir_align, same_section, is_c_fmt, is_size_4,
}
use assembler_project.Ir.WellFormed.{WellFormed}
use assembler_project.Layout.{
  place, assign_from, pass2_assign_addresses, pass2_compute_disp, pass2_choice_range_ok,
  validate_entry, validate_entries, retarget, target_of, needs_pc_rel,
  pass2_validate_compressed_ranges, relayout, pass2_relayout_and_validate, drop_choice, plan_entry,
  plan_entries, pass2_plan_choices, pass2_node_can_attempt,
}
use assembler_project.Pass.{Arch}
use mathlib.Core.Bool.{false≢true}

-- A well-formed entry of which only the address and the size change, the choice is dropped or the
-- choice's immediate changes.
place-WellFormed : (k : Kind) (pc : ℕ) (e : Entry) → WellFormed e → WellFormed (place k pc e).0
unfolding place
place-WellFormed ir_instr pc e w = record {
  size_2 = w.size_2;
  fixed = w.fixed;
  wide = w.wide;
  free = w.free;
  short = w.short;
  padding = w.padding;
}
place-WellFormed ir_data pc e w = record {
  size_2 = w.size_2;
  fixed = w.fixed;
  wide = w.wide;
  free = w.free;
  short = w.short;
  padding = w.padding;
}
place-WellFormed ir_align pc e w = elim (Bool-cases (ltb 1 (bits32 e.imm))) [
  | inl big ↦ rw big (record {
    size_2 = w.size_2;
    fixed = w.fixed;
    wide = w.wide;
    free = w.free;
    short = w.short;
    padding = w.padding;
  })
  | inr small ↦ rw small (record {
    size_2 = w.size_2;
    fixed = w.fixed;
    wide = w.wide;
    free = w.free;
    short = w.short;
    padding = w.padding;
  })
]

drop-WellFormed : (e : Entry) → WellFormed e → WellFormed (drop_choice e)
drop-WellFormed e w = record {
  size_2 = w.size_2;
  fixed = w.fixed;
  wide = λ h. absurd (false≢true h);
  free = λ h. absurd (false≢true h);
  short = λ h. absurd (false≢true h);
  padding = w.padding;
}

retarget-WellFormed :
    (t : Option (Option ℕ)) (e : Entry) → WellFormed e → WellFormed (retarget t e).0
retarget-WellFormed none e w = w
retarget-WellFormed (some none) e w = drop-WellFormed e w
retarget-WellFormed (some (some to_addr)) e w =
    elim (Bool-cases (pass2_choice_range_ok e.choice (pass2_compute_disp e.addr to_addr))) [
      | inl fits ↦ rw fits (record {
        size_2 = w.size_2;
        fixed = w.fixed;
        wide = w.wide;
        free = w.free;
        short = w.short;
        padding = w.padding;
      })
      | inr wide ↦ rw wide (drop-WellFormed e w)
    ]

validate-WellFormed :
    (search_sym : Label → ℤ) (sect : Section) (e : Entry)
    → WellFormed e
    → WellFormed (validate_entry search_sym sect e).0
unfolding validate_entry
validate-WellFormed search_sym sect e w =
    elim (Bool-cases
      (not (same_section e.sect sect) || not e.has_c_choice || not (needs_pc_rel e.choice.op))) [
        | inl skip ↦ rw skip w
        | inr look ↦ rw look (retarget-WellFormed (target_of search_sym e.addr e.choice) e w)
      ]

can_attempt_lem :
    (a : Arch) (e : Entry)
    → pass2_node_can_attempt a e ≡ true
    → (e.can_compress ≡ true) × (is_size_4 e.forced_size ≡ false)
unfolding pass2_node_can_attempt ir_is_explicit_c ir_get_forced_size
can_attempt_lem a e h = (ground arith, ground arith)

plan-WellFormed : (a : Arch) (e : Entry) → WellFormed e → WellFormed (plan_entry a e)
unfolding plan_entry ir_set_c_choice
plan-WellFormed a e w = elim (Bool-cases (pass2_node_can_attempt a e)) [
  | inl go ↦ elim (Option-cases (c_try_map a e)) [
    | inl refused ↦ rw (go, refused) (drop-WellFormed e w)
    | inr (ch, chosen) ↦
        let may = can_attempt_lem a e go in
        let full : is_c_fmt e.fmt ≡ false = elim (Bool-cases (is_c_fmt e.fmt)) [
          | inl c ↦ absurd (false≢true (sym (w.fixed c) ∙ may.0))
          | inr full ↦ full
        ] in
        rw (go, chosen)
          (record {
            size_2 = w.size_2;
            fixed = w.fixed;
            wide = λ h. full;
            free = λ h. may.1;
            short = λ h. (c_try_map-IsSound a e ch chosen).short;
            padding = w.padding;
          })
  ]
  | inr stay ↦ rw stay w
]

assign-WellFormed :
    (sect : Section) (pc : ℕ) (es : List Entry)
    → All WellFormed es
    → All WellFormed (assign_from sect pc es)
unfolding assign_from
assign-WellFormed sect pc [] ws = tt
assign-WellFormed sect pc (e ∷ es) (w, ws) = elim (Bool-cases (same_section e.sect sect)) [
  | inl here ↦
      rw here (place-WellFormed e.kind pc e w, assign-WellFormed sect ((place e.kind pc e).1) es ws)
  | inr away ↦ rw away (w, assign-WellFormed sect pc es ws)
]

validate_entries-WellFormed :
    (search_sym : Label → ℤ) (sect : Section) (es : List Entry)
    → All WellFormed es
    → All WellFormed (validate_entries search_sym sect es).0
unfolding validate_entries
validate_entries-WellFormed search_sym sect [] ws = tt
validate_entries-WellFormed search_sym sect (e ∷ es) (w, ws) =
    (validate-WellFormed search_sym sect e w, validate_entries-WellFormed search_sym sect es ws)

plan_entries-WellFormed :
    (a : Arch) (es : List Entry) → All WellFormed es → All WellFormed (plan_entries a es)
unfolding plan_entries
plan_entries-WellFormed a [] ws = tt
plan_entries-WellFormed a (e ∷ es) (w, ws) =
    (plan-WellFormed a e w, plan_entries-WellFormed a es ws)

pub pass2_assign_addresses-WellFormed :
    (sect : Section) (es : List Entry)
    → All WellFormed es
    → All WellFormed (pass2_assign_addresses sect es)
unfolding pass2_assign_addresses
pass2_assign_addresses-WellFormed sect es ws = assign-WellFormed sect 0 es ws

pub pass2_plan_choices-WellFormed :
    (a : Arch) (es : List Entry) → All WellFormed es → All WellFormed (pass2_plan_choices a es)
unfolding pass2_plan_choices
pass2_plan_choices-WellFormed a es ws = elim (Bool-cases (not a.ext_c || not a.auto_c)) [
  | inl off ↦ rw off ws
  | inr on ↦ rw on (plan_entries-WellFormed a es ws)
]

ranges-WellFormed :
    (a : Arch) (search_sym : Label → ℤ) (sect : Section) (es : List Entry)
    → All WellFormed es
    → All WellFormed (pass2_validate_compressed_ranges a search_sym sect es).0
unfolding pass2_validate_compressed_ranges
ranges-WellFormed a search_sym sect es ws = elim (Bool-cases (not a.ext_c || not a.auto_c)) [
  | inl off ↦ rw off ws
  | inr on ↦ rw on (validate_entries-WellFormed search_sym sect es ws)
]

relayout-WellFormed :
    (a : Arch) (search_sym : Label → ℤ) (sect : Section) (left : ℕ) (es : List Entry)
    → All WellFormed es
    → All WellFormed (relayout a search_sym sect left es).1
unfolding relayout
relayout-WellFormed a search_sym sect zero es ws = ws
relayout-WellFormed a search_sym sect (suc left) es ws =
    let placed = pass2_assign_addresses sect es in
    let out = pass2_validate_compressed_ranges a search_sym sect placed in
    let kept =
      ranges-WellFormed a search_sym sect placed (pass2_assign_addresses-WellFormed sect es ws) in
    elim (Bool-cases (out.1)) [
      | inl changed ↦ rw changed (relayout-WellFormed a search_sym sect left (out.0) kept)
      | inr same ↦ rw same kept
    ]

pub pass2_relayout_and_validate-WellFormed :
    (a : Arch) (search_sym : Label → ℤ) (sect : Section) (max_iters : ℕ) (es : List Entry)
    → All WellFormed es
    → All WellFormed (pass2_relayout_and_validate a search_sym sect max_iters es).1
unfolding pass2_relayout_and_validate
pass2_relayout_and_validate-WellFormed a search_sym sect max_iters es ws =
    relayout-WellFormed a search_sym sect (if max_iters == 0 then 1 else max_iters) es ws
