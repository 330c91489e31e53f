-- ===== src/Pass1/Padding.antt =====
-- The two ways to align: `pass1_emit_align`, and the action of the directive.
use assembler_project.Base.{
  ℕ, ◌+◌, ◌-◌, ◌*◌, ◌/◌, ◌%◌, ◌^◌, ◌≤◌, ◌<◌, ◌≡◌, refl, sym, ap, ◌∙◌, ◌≢◌, inl, inr, false, List,
  arith, ltb, ◌==◌, if◌then◌else◌, Bool-cases,
}
use assembler_project.Base.Word.{u32, ◌<<◌}
use assembler_project.Ir.Buffer.{ir_append_align}
use assembler_project.Ir.Entry.{Entry, Section, sec_text, sec_data}
use assembler_project.Pass.{
  Pass, current_pc, add_pc, pass_current_pc, pass_advance_pc, pass_align_current_pc, pass_align_pad,
  pass_align_to_pow2,
}
use assembler_project.Pass.Align.{pass_align_lem}
use assembler_project.Pass1.{Front, padding, pass1_emit_align, align_directive}
use native.Mathlib.Nat.{mod-lt, mod-eq_of_lt, div-add-mod', one-le-pow, mod_self, mul-le-mul_right}

multiples : (x a t t' p p' : ℕ) → p < a → p' < a → x + p ≡ t * a → x + p' ≡ t' * a → p ≤ p'
multiples x a t t' p p' lt lt' e e' = elim (Bool-cases (ltb t' t)) [
  | inl below ↦
      let next : t' + 1 ≤ t = ground arith in absurd (omega (arith, mul-le-mul_right a next, e, e'))
  | inr above ↦ let next : t ≤ t' = ground arith in omega (arith, mul-le-mul_right a next, e, e')
]

-- The padding by remainders leads to a multiple.
padding-multiple :
    (addr pow2 : ℕ)
    → (padding addr pow2 < 2 ^ pow2) × ((t : ℕ) × (addr + padding addr pow2 ≡ t * 2 ^ pow2))
unfolding padding
padding-multiple addr pow2 =
    let a = 2 ^ pow2 in
    let pos_a : 0 < a = omega (arith, one-le-pow pow2 2) in
    let d = div-add-mod' addr a in
    let one_shift : 1 << pow2 ≡ a = omega arith in
    let rest : addr % a < a = mod-lt addr pos_a in
    rw one_shift (elim (Bool-cases (addr % a == 0)) [
      | inl aligned ↦
          let z : addr % a ≡ 0 = ground arith in
          let p : (a - addr % a) % a ≡ 0 =
            ap (λ (r : ℕ). (a - r) % a) z ∙ ap (λ (b : ℕ). b % a) (omega arith) ∙ mod_self a in
          (omega (arith, p, pos_a), (addr / a, omega (arith, p, d, z)))
      | inr between ↦
          let nz : addr % a ≢ 0 = λ h. ground arith in
          let p : (a - addr % a) % a ≡ a - addr % a =
            mod-eq_of_lt (omega (arith, nz, rest, pos_a)) in
          (omega (arith, p, nz, rest, pos_a), (addr / a + 1, omega (arith, p, d, rest)))
    ])

-- The padding by remainders is the padding by masks.
pub padding-eq :
    (addr pow2 : ℕ)
    → pow2 < 32
    → addr + 2 ^ pow2 ≤ 2 ^ 32
    → padding addr pow2 ≡ pass_align_pad addr pow2
padding-eq addr pow2 small fits =
    let (lo, hi, whole, sum) = pass_align_lem addr pow2 small fits in
    let (short, (t, e)) = padding-multiple addr pow2 in
    let up = pass_align_to_pow2 addr pow2 in
    let e' : addr + pass_align_pad addr pow2 ≡ up / 2 ^ pow2 * 2 ^ pow2 =
      omega (arith, sum, whole, div-add-mod' up (2 ^ pow2)) in
    let short' : pass_align_pad addr pow2 < 2 ^ pow2 = omega (arith, sum, hi) in
    omega (
      arith,
      multiples addr (2 ^ pow2) t (up / 2 ^ pow2) _ _ short short' e e',
      multiples addr (2 ^ pow2) (up / 2 ^ pow2) t _ _ short' short e' e,
    )

current_pc-moved :
    (cur : Section) (n : ℕ) (p : Pass)
    → current_pc cur (add_pc cur n p) ≡ u32 (current_pc cur p + n)
current_pc-moved sec_text n p = refl
current_pc-moved sec_data n p = refl

add_pc-none : (cur : Section) (p : Pass) → current_pc cur p < 2 ^ 32 → add_pc cur 0 p ≡ p
add_pc-none sec_text p h = ap (λ (pc : ℕ). record p { pc_text = pc }) (omega (arith, h))
add_pc-none sec_data p h = ap (λ (pc : ℕ). record p { pc_data = pc }) (omega (arith, h))

emitted_pass :
    (pad line : ℕ) (s : Front) (ir : List Entry)
    → current_pc s.pass.cur_section s.pass < 2 ^ 32
    → (if pad == 0
        then s
        else record s { ir = ir; pass = add_pc s.pass.cur_section pad s.pass }).pass
      ≡ add_pc s.pass.cur_section pad s.pass
emitted_pass pad line s ir bound = elim (Bool-cases (pad == 0)) [
  | inl nothing ↦
      let z : pad ≡ 0 = ground arith in rw z (sym (add_pc-none s.pass.cur_section s.pass bound))
  | inr some_bytes ↦ rw some_bytes refl
]

emitted_ir :
    (pad line addr : ℕ) (s : Front) (p : Pass)
    → (if pad == 0
        then s
        else record s { ir = ir_append_align s.ir s.pass.cur_section addr pad line; pass = p }).ir
      ≡ ir_append_align s.ir s.pass.cur_section addr pad line
unfolding ir_append_align
emitted_ir pad line addr s p = elim (Bool-cases (pad == 0)) [
  | inl nothing ↦ rw (nothing, ir_append_align) refl
  | inr some_bytes ↦ rw (some_bytes, ir_append_align) refl
]

-- Up to 2^31, and below the end of the address space, both ways to align move the program counter
-- alike. The action of the directive makes an entry of the aligned address's size,
-- `pass1_emit_align` one of the padding's; neither makes one of size 0.
pub pass1_emit_align-directive :
    (pow2 line : ℕ) (s : Front)
    → pow2 < 32
    → current_pc s.pass.cur_section s.pass + 2 ^ pow2 ≤ 2 ^ 32
    → ((pass1_emit_align pow2 line s).pass ≡ (align_directive pow2 line s).pass)
      × ((pass1_emit_align pow2 line s).ir
          ≡ ir_append_align s.ir s.pass.cur_section
              (current_pc s.pass.cur_section s.pass)
              (pass_align_pad (current_pc s.pass.cur_section s.pass) pow2)
              line)
      × ((align_directive pow2 line s).ir
          ≡ ir_append_align s.ir s.pass.cur_section
              (current_pc s.pass.cur_section s.pass)
              (pass_align_to_pow2 (current_pc s.pass.cur_section s.pass) pow2)
              line)
unfolding pass1_emit_align align_directive pass_align_current_pc pass_current_pc pass_advance_pc
pass1_emit_align-directive pow2 line s small fits =
    let cur = s.pass.cur_section in
    let addr = current_pc cur s.pass in
    let cap : ltb 31 pow2 ≡ false = ground arith in
    let same = padding-eq addr pow2 small fits in
    let (lo, hi, whole, sum) = pass_align_lem addr pow2 small fits in
    let pad = pass_align_pad addr pow2 in
    let up = pass_align_to_pow2 addr pow2 in
    let at : current_pc cur (add_pc cur pad s.pass) ≡ up =
      current_pc-moved cur pad s.pass ∙ omega (arith, sum, hi, fits) in
    let bound : addr < 2 ^ 32 = omega (arith, lo, hi, fits) in
    rw (cap, same, at)
      (emitted_pass pad line s _ bound, emitted_ir pad line addr s (add_pc cur pad s.pass), refl)
