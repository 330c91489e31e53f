-- ===== src/Encode/Compressed/Half/Put.antt =====
-- `put` into a clear field is a sum.
use assembler_project.Base.{
  ℕ, suc, ◌+◌, ◌-◌, ◌*◌, ◌/◌, ◌%◌, ◌^◌, ◌≤◌, ◌<◌, bit_and, bit_or, ◌≡◌, ap, ◌∙◌, false, ◌||◌, arith,
  ltb,
}
use assembler_project.Base.Word.{◌<<◌}
use native.Mathlib.Nat.{
  div-lt_iff_lt-mul, one-le-pow, mod-eq_of_lt, mul-le-mul_right, mul_assoc, mod-lt,
}
use assembler_project.Base.Bits.{
  bit_and_mask, bit_and_gap, bit_or_gap, div_mod_pow, pow_add, pred_mul,
}
use assembler_project.Encode.Compressed.Half.{put}

-- 2 ^ 32 as its parts above, inside and below a field.
pow_parts : (lo width n : ℕ) → lo + width ≤ n → 2 ^ n ≡ 2 ^ (n - lo - width) * (2 ^ width * 2 ^ lo)
pow_parts lo width n h =
    let sum : n ≡ n - lo - width + (width + lo) = omega arith in
    ap {B = ℕ} (λ (t : ℕ). 2 ^ t) sum
    ∙ pow_add (n - lo - width) (width + lo)
    ∙ ap {B = ℕ} (λ (t : ℕ). 2 ^ (n - lo - width) * t) (pow_add width lo)

gap_mask :
    (lo width : ℕ)
    → lo + width ≤ 32
    → 2 ^ 32 - 1 - (2 ^ width - 1) * 2 ^ lo
      ≡ (2 ^ (32 - lo - width) - 1) * 2 ^ width * 2 ^ lo + (2 ^ lo - 1)
gap_mask lo width h =
    let high = 2 ^ (32 - lo - width) in
    let gap = 2 ^ width * 2 ^ lo in
    omega (
      arith,
      pow_parts lo width 32 h,
      pred_mul high gap (one-le-pow _ 2 (omega arith)),
      pred_mul (2 ^ width) (2 ^ lo) (one-le-pow _ 2 (omega arith)),
      mul_assoc (high - 1) (2 ^ width) (2 ^ lo),
      one-le-pow lo 2,
      mul-le-mul_right gap (one-le-pow (32 - lo - width) 2 (omega arith)),
      mul-le-mul_right (2 ^ lo) (one-le-pow width 2 (omega arith)),
    )

module _ (lo width w v : ℕ) (h : lo + width ≤ 16) (small : w < 2 ^ 16)
    (clear : w / 2 ^ lo % 2 ^ width ≡ 0) where
  parts : w ≡ w / 2 ^ lo / 2 ^ width * 2 ^ width * 2 ^ lo + w % 2 ^ lo
  parts =
      let inner : w / 2 ^ lo ≡ w / 2 ^ lo / 2 ^ width * 2 ^ width =
        omega (arith, div_mod_pow width (w / 2 ^ lo)) in
      omega (arith, div_mod_pow lo w, ap (λ (t : ℕ). t * 2 ^ lo) inner)

  high_part : (n : ℕ) → lo + width ≤ n → w < 2 ^ n → w / 2 ^ lo / 2 ^ width < 2 ^ (n - lo - width)
  high_part n le lt = (div-lt_iff_lt-mul (one-le-pow width 2 (omega arith))).1 (
      (div-lt_iff_lt-mul (one-le-pow lo 2 (omega arith))).1
        (rw (mul_assoc, ← pow_parts lo width n le) lt))

  filled : w + v % 2 ^ width * 2 ^ lo < 2 ^ 16
  filled =
      let q = w / 2 ^ lo / 2 ^ width in
      let top = mul-le-mul_right (2 ^ width * 2 ^ lo) (high_part 16 h small) in
      let low =
        mul-le-mul_right (2 ^ lo) (mod-lt v {m = 2 ^ width} (one-le-pow width 2 (omega arith))) in
      omega (
        arith,
        parts,
        div_mod_pow lo w,
        pow_parts lo width 16 h,
        top,
        low,
        mul_assoc q (2 ^ width) (2 ^ lo),
      )

  masked :
      bit_or
        (bit_and w (2 ^ 32 - 1 - (2 ^ width - 1) * 2 ^ lo))
        (bit_and v (2 ^ width - 1) * 2 ^ lo)
      ≡ w + v % 2 ^ width * 2 ^ lo
  masked =
      let q = w / 2 ^ lo / 2 ^ width in
      let r = 32 - lo - width in
      rw
        (
          bit_and_gap lo width r _ w (gap_mask lo width (omega arith))
              (high_part 32 (omega arith) (omega arith)),
          bit_and_mask width v,
          bit_or_gap lo width q (v % 2 ^ width) (w % 2 ^ lo)
              (mod-lt v {m = 2 ^ width} (one-le-pow width 2 (omega arith)))
              (mod-lt w {m = 2 ^ lo} (one-le-pow lo 2 (omega arith))),
        )
        (omega (arith, parts))

-- Where the field of a halfword is clear, `put` adds the value's low bits there.
pub put_sum :
    (lo width w v : ℕ)
    → lo + suc width ≤ 16
    → w < 2 ^ 16
    → w / 2 ^ lo % 2 ^ suc width ≡ 0
    → put w (lo + width) lo v ≡ w + v % 2 ^ suc width * 2 ^ lo
unfolding put
put_sum lo width w v h small clear =
    let size : lo + width + 1 - lo ≡ suc width = omega arith in
    let one_shift : 1 << suc width ≡ 2 ^ suc width = omega arith in
    let fits : (ltb (lo + width) lo || ltb 15 (lo + width)) ≡ false = ground arith in
    rw (size, one_shift, fits, masked lo (suc width) w v h small clear)
      (mod-eq_of_lt (filled lo (suc width) w v h small clear))
