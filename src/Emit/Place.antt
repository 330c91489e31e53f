-- ===== src/Emit/Place.antt =====
-- The addresses of the layout are the places in the buffers.
use assembler_project.Base.{
  ℕ, ◌+◌, ◌^◌, ◌≤◌, ◌<◌, ◌≡◌, refl, sym, ap, ◌∙◌, inl, inr, true, false, List, [], ◌∷◌, ◌++◌, arith,
  Bool-cases, All,
}
use assembler_project.Base.Int.{ℤ}
use assembler_project.Base.Word.{u32, bits32}
use assembler_project.Emit.{Emit, emit_entries, c_materialize}
use assembler_project.Emit.Run.{Ready, total, emit_entries-Emitted}
use assembler_project.Emit.Sizes.{bytes_of, fmt_bytes}
use assembler_project.Ir.Buffer.{ir_is_explicit_c}
use assembler_project.Ir.Entry.{
  Entry, Label, Kind, Section, same_section, ir_instr, ir_data, ir_align, sec_text, sec_data,
  is_c_fmt,
}
use assembler_project.Ir.WellFormed.{WellFormed}
use assembler_project.Layout.{pass2_node_size_now, needs_pc_rel}
use assembler_project.Layout.Places.{Laid, Placed, next}
use assembler_project.Out.Bytes.{held, share}
use assembler_project.Pass.{Arch}
use mathlib.Core.Bool.{false≢true}
use native.Mathlib.Nat.{mod-eq_of_lt}

materialize-choice :
    (e : Entry) → e.has_c_choice ≡ true → is_c_fmt (c_materialize e).fmt ≡ is_c_fmt e.choice.fmt
unfolding c_materialize
materialize-choice e h = elim (Bool-cases (needs_pc_rel e.choice.op)) [
  | inl far ↦ rw (h, far) refl
  | inr near ↦ rw (h, near) refl
]

materialize-plain : (e : Entry) → e.has_c_choice ≡ false → (c_materialize e).fmt ≡ e.fmt
unfolding c_materialize
materialize-plain e h = rw h refl

-- The size that the layout gives an instruction is the length of the form that is emitted.
pub node_size-fmt_bytes :
    (e : Entry) → WellFormed e → pass2_node_size_now e ≡ fmt_bytes (c_materialize e).fmt
unfolding pass2_node_size_now ir_is_explicit_c
node_size-fmt_bytes e w = elim (Bool-cases e.has_c_choice) [
  | inl chosen ↦
      rw
        (
          materialize-choice e chosen,
          w.short chosen,
          w.size_2,
          w.wide chosen,
          w.free chosen,
          chosen,
        )
        refl
  | inr plain ↦ elim (Bool-cases (is_c_fmt e.fmt)) [
    | inl c ↦ rw (materialize-plain e plain, w.size_2, w.fixed c, c, plain) refl
    | inr full ↦ rw (materialize-plain e plain, w.size_2, full, plain) (ground arith)
  ]
]

-- An entry that is laid out at `pc` adds to its section what the program counter moves by.
next-bytes_of :
    (k : Kind) (pc : ℕ) (e : Entry)
    → WellFormed e
    → (k ≡ ir_align → bits32 e.imm ≤ 1)
    → pc + bytes_of k e < 2 ^ 32
    → Placed k pc e
    → (next k pc e ≡ pc + bytes_of k e) × (e.addr ≡ pc)
next-bytes_of ir_instr pc e w pad small (a, z) =
    let size : e.size ≡ fmt_bytes (c_materialize e).fmt = z ∙ node_size-fmt_bytes e w in
    (ap (λ (n : ℕ). u32 (pc + n)) size ∙ mod-eq_of_lt small, a)
next-bytes_of ir_data pc e w pad small a = (mod-eq_of_lt small, a)
next-bytes_of ir_align pc e w pad small (z, a) =
    let at : e.addr ≡ pc = a (pad refl) in (omega (arith, at, z, small), at)

same_section_refl : (x : Section) → same_section x x ≡ true
same_section_refl sec_text = refl
same_section_refl sec_data = refl

share_here : (x sect : Section) (n : ℕ) → same_section x sect ≡ true → share sect x n ≡ n
share_here sec_text sec_text n h = refl
share_here sec_text sec_data n h = absurd (false≢true h)
share_here sec_data sec_text n h = absurd (false≢true h)
share_here sec_data sec_data n h = refl

share_away : (x sect : Section) (n : ℕ) → same_section x sect ≡ false → share sect x n ≡ 0
share_away sec_text sec_text n h = absurd (false≢true (sym h))
share_away sec_text sec_data n h = refl
share_away sec_data sec_text n h = refl
share_away sec_data sec_data n h = absurd (false≢true (sym h))

pub Laid-addr :
    (sect : Section) (pc : ℕ) (before : List Entry) (e : Entry) (after : List Entry)
    → All WellFormed (before ++ e ∷ after)
    → same_section e.sect sect ≡ true
    → pc + total sect (before ++ e ∷ []) < 2 ^ 32
    → Laid sect pc (before ++ e ∷ after)
    → e.addr ≡ pc + total sect before
Laid-addr sect pc [] e after (w, ws) here small laid =
    let own = share_here e.sect sect (bytes_of e.kind e) here in
    let at =
      (next-bytes_of e.kind pc e w w.padding (omega (arith, own, small)) ((laid.1 here).0)).1 in
    omega (arith, at)
Laid-addr sect pc (x ∷ xs) e after (w, ws) here small laid =
    elim (Bool-cases (same_section x.sect sect)) [
      | inl mine ↦
          let own = share_here x.sect sect (bytes_of x.kind x) mine in
          let n =
            next-bytes_of x.kind pc x w w.padding (omega (arith, own, small)) ((laid.1 mine).0) in
          let pc' = next x.kind pc x in
          let rest : e.addr ≡ pc' + total sect xs =
            Laid-addr sect pc' xs e after ws here (omega (arith, own, n.0, small))
              ((laid.1 mine).1) in
          omega (arith, own, n.0, rest)
      | inr other ↦
          let none_own = share_away x.sect sect (bytes_of x.kind x) other in
          let rest : e.addr ≡ pc + total sect xs =
            Laid-addr sect pc xs e after ws here (omega (arith, none_own, small)) (laid.0 other) in
          omega (arith, none_own, rest)
    ]

-- When the emission of an ELF file reaches an entry of a layout, with every entry before it
-- written from empty buffers on, the buffer of the entry's section holds exactly as many bytes as
-- the entry's address says. The entries are well formed, and the section stays below 4 GiB.
pub emit_entries-addr :
    (fwrite : List ℕ → List ℕ → ℕ) (a : Arch) (search_sym : Label → ℤ) (before : List Entry)
    (e : Entry) (after : List Entry) (s : Emit)
    → All WellFormed (before ++ e ∷ after)
    → Laid e.sect 0 (before ++ e ∷ after)
    → total e.sect (before ++ e ∷ []) < 2 ^ 32
    → Ready s
    → held e.sect s.out ≡ 0
    → (emit_entries fwrite a search_sym before s).0 ≡ true
    → held e.sect (emit_entries fwrite a search_sym before s).1.out ≡ e.addr
emit_entries-addr fwrite a search_sym before e after s ws laid small ready empty ok =
    let out = emit_entries-Emitted fwrite a search_sym before s ready ok in
    let at =
      Laid-addr e.sect 0 before e after ws (same_section_refl e.sect) (omega (arith, small)) laid in
    omega (arith, out.held e.sect, at, empty)
