-- ===== src/Pass/Align.antt =====
-- Alignment rounds an address up to the next multiple of a power of two.
use assembler_project.Base.{ℕ, ◌+◌, ◌-◌, ◌*◌, ◌/◌, ◌%◌, ◌^◌, ◌≤◌, ◌<◌, bit_and, ◌≡◌, ap, ◌∙◌, arith}
use assembler_project.Base.Word.{u32, ◌<<◌}
use native.Mathlib.Nat.{div-lt_iff_lt-mul, mul-mod_left, one-le-pow, mod-eq_of_lt}
use assembler_project.Base.Bits.{bit_and_round, div_mod_pow, pow_add, pred_mul}
use assembler_project.Pass.{pass_align_to_pow2, pass_align_pad}

-- The masked sum, in a word of `w` bits, is the sum rounded down.
round_down :
    (w addr k : ℕ)
    → k ≤ w
    → addr + 2 ^ k ≤ 2 ^ w
    → bit_and ((addr + (2 ^ k - 1)) % 2 ^ w) (2 ^ w - 1 - (2 ^ k - 1))
      ≡ (addr + (2 ^ k - 1)) / 2 ^ k * 2 ^ k
round_down w addr k h fits =
    let x = addr + (2 ^ k - 1) in
    let pos_a : 0 < 2 ^ k = omega (arith, one-le-pow k 2) in
    let sum : w ≡ w - k + k = omega (arith, h) in
    let whole : 2 ^ w ≡ 2 ^ (w - k) * 2 ^ k =
      ap {B = ℕ} (λ (t : ℕ). 2 ^ t) sum ∙ pow_add (w - k) k in
    let small : x < 2 ^ w = omega (arith, pos_a, fits) in
    let mask : 2 ^ w - 1 - (2 ^ k - 1) ≡ (2 ^ (w - k) - 1) * 2 ^ k =
      omega (arith, pred_mul (2 ^ (w - k)) (2 ^ k) (omega (arith, one-le-pow (w - k) 2)), whole) in
    rw (mod-eq_of_lt small)
      (bit_and_round k (w - k) _ x mask ((div-lt_iff_lt-mul pos_a).1 (rw (← whole) small)))

-- In a word of `w` bits, the masked sum is the first multiple of `2 ^ k` from the address on.
pub round_up_lem :
    (w addr k r : ℕ)
    → r ≡ bit_and ((addr + (2 ^ k - 1)) % 2 ^ w) (2 ^ w - 1 - (2 ^ k - 1))
    → k ≤ w
    → addr + 2 ^ k ≤ 2 ^ w
    → (addr ≤ r) × (r < addr + 2 ^ k) × (r % 2 ^ k ≡ 0)
round_up_lem w addr k r is h fits =
    let e : r ≡ (addr + (2 ^ k - 1)) / 2 ^ k * 2 ^ k = is ∙ round_down w addr k h fits in
    let d = div_mod_pow k (addr + (2 ^ k - 1)) in
    (omega (arith, e, d), omega (arith, e, d, one-le-pow k 2), rw e (mul-mod_left _ _))

-- Unless the address space ends first, the aligned address is the first multiple of `2 ^ pow2` from
-- the address on, and the padding leads up to it.
pub pass_align_lem :
    (addr pow2 : ℕ)
    → pow2 < 32
    → addr + 2 ^ pow2 ≤ 2 ^ 32
    → (addr ≤ pass_align_to_pow2 addr pow2)
      × (pass_align_to_pow2 addr pow2 < addr + 2 ^ pow2)
      × (pass_align_to_pow2 addr pow2 % 2 ^ pow2 ≡ 0)
      × (addr + pass_align_pad addr pow2 ≡ pass_align_to_pow2 addr pow2)
unfolding pass_align_pad pass_align_to_pow2
pass_align_lem addr pow2 h fits =
    let one_shift : 1 << pow2 ≡ 2 ^ pow2 = omega arith in
    let up = pass_align_to_pow2 addr pow2 in
    let is : up ≡ bit_and (u32 (addr + (2 ^ pow2 - 1))) (2 ^ 32 - 1 - (2 ^ pow2 - 1)) =
      ap (λ (a : ℕ). bit_and (u32 (addr + (a - 1))) (2 ^ 32 - 1 - (a - 1))) one_shift in
    let (lo, hi, whole) = round_up_lem 32 addr pow2 up is (omega arith) fits in
    (lo, hi, whole, omega (arith, lo, hi, fits, one-le-pow pow2 2))
