-- ===== src/Base/Bits.antt =====
-- `|` of disjoint fields and `&` with a low mask, as arithmetic, at every width.
mod Step
mod Split
use Step.{bit_or_step, bit_and_step}
use Split.{shift_doubles, bit_and_split, bit_or_split}
use Prim.Native.Nat.{ℕ, zero, suc, ◌+◌, ◌-◌, ◌*◌, ◌/◌, ◌%◌, ◌^◌, ◌≤◌, ◌<◌, bit_and, bit_or}
use mathlib.Core.Path.{◌≡◌, refl, ap, ap₂, ◌∙◌}
use native.Mathlib.Nat.{pow-suc, one-le-pow, mul-one, mod-eq_of_lt}
use native.Mathlib.Omega.{arith}

-- Zero is neutral for `|` and absorbs under `&`, on either side.
zero_right : (bound a : ℕ) → a < bound → (bit_or a 0 ≡ a) × (bit_and a 0 ≡ 0)
zero_right zero a h = elim h [ ]
zero_right (suc bound) zero h = (refl, refl)
zero_right (suc bound) (suc a) h =
    let half = zero_right bound (suc a / 2) (omega arith) in
    (omega (arith, half, bit_or_step (suc a) 0), omega (arith, half, bit_and_step (suc a) 0))

bit_or-zero : (a : ℕ) → bit_or a 0 ≡ a
bit_or-zero a = (zero_right (suc a) a (omega arith)).0

bit_and-zero : (a : ℕ) → bit_and a 0 ≡ 0
bit_and-zero a = (zero_right (suc a) a (omega arith)).1

zero-bit_or : (bound b : ℕ) → b < bound → bit_or 0 b ≡ b
zero-bit_or zero b h = elim h [ ]
zero-bit_or (suc bound) zero h = refl
zero-bit_or (suc bound) (suc b) h =
    omega (arith, bit_or_step 0 (suc b), zero-bit_or bound (suc b / 2) (omega arith))

-- A high part that is a multiple of `2 ^ k` and a low part below it share no bit.
pub bit_or-high_low :
    (k high low : ℕ) → low < 2 ^ k → bit_or (high * 2 ^ k) low ≡ high * 2 ^ k + low
bit_or-high_low k high low h =
    let shaped : bit_or (high * 2 ^ k) low ≡ bit_or (high * 2 ^ k + 0) (0 * 2 ^ k + low) =
      ap₂ bit_or (omega arith) (omega arith) in
    omega (
      arith,
      shaped,
      bit_or_split k high 0 0 low (omega (arith, one-le-pow k 2)) h,
      ap (λ (t : ℕ). t * 2 ^ k) (bit_or-zero high),
      zero-bit_or (suc low) low (omega arith),
    )

pub bit_or_sum : (k a b : ℕ) → a % 2 ^ k ≡ 0 → b < 2 ^ k → bit_or a b ≡ a + b
bit_or_sum k a b e h =
    let whole : a ≡ a / 2 ^ k * 2 ^ k = ground (arith, one-le-pow k 2) in
    rw whole (bit_or-high_low k (a / 2 ^ k) b h)

-- `&` with `r` ones keeps a number of at most `r` bits.
pub bit_and_all : (r q : ℕ) → q < 2 ^ r → bit_and q (2 ^ r - 1) ≡ q
bit_and_all zero q h = let none_left : q ≡ 0 = omega arith in rw none_left
bit_and_all (suc r) q h = omega (
  arith,
  pow-suc 2 r,
  one-le-pow r 2,
  bit_and_step q (2 ^ suc r - 1),
  halved,
  bit_and_all r (q / 2) (omega (arith, pow-suc 2 r)),
)
  where
    halved : bit_and (q / 2) ((2 ^ suc r - 1) / 2) ≡ bit_and (q / 2) (2 ^ r - 1)
    halved = ap (bit_and (q / 2)) (omega (arith, pow-suc 2 r, one-le-pow r 2))

pub pow_add : (a b : ℕ) → 2 ^ (a + b) ≡ 2 ^ a * 2 ^ b
pow_add zero b = let e : zero + b ≡ b = omega arith in rw e (omega arith)
pow_add (suc a) b =
    let e : suc a + b ≡ suc (a + b) = omega arith in
    rw e (
      omega (
        arith,
        pow-suc 2 (a + b),
        pow-suc 2 a,
        pow_add a b,
        ap (λ (t : ℕ). t * 2 ^ b) (pow-suc 2 a),
      ))

pub div_mod_pow : (k x : ℕ) → (x ≡ x / 2 ^ k * 2 ^ k + x % 2 ^ k) × (x % 2 ^ k < 2 ^ k)
div_mod_pow k x = ground (arith, one-le-pow k 2)

-- `&` of a word with a mask, above and below bit `k`.
bit_and_parts :
    (k qm rm m x : ℕ)
    → m ≡ qm * 2 ^ k + rm
    → rm < 2 ^ k
    → bit_and x m ≡ bit_and (x / 2 ^ k) qm * 2 ^ k + bit_and (x % 2 ^ k) rm
bit_and_parts k qm rm m x e h =
    ap₂ bit_and (div_mod_pow k x).0 e
    ∙ bit_and_split k (x / 2 ^ k) (x % 2 ^ k) qm rm (div_mod_pow k x).1 h

-- A mask of `k` low bits is the remainder by `2 ^ k`.
pub bit_and_mask : (width x : ℕ) → bit_and x (2 ^ width - 1) ≡ x % 2 ^ width
bit_and_mask k a =
    let low = bit_and_all k (a % 2 ^ k) (div_mod_pow k a).1 in
    omega (
      arith,
      low,
      bit_and_parts k 0 (2 ^ k - 1) (2 ^ k - 1) a (omega arith) (omega (arith, one-le-pow k 2)),
      ap (λ (t : ℕ). t * 2 ^ k) (bit_and-zero (a / 2 ^ k)),
    )

-- `&` commutes with a shift of both sides.
bit_and_shift : (k a b : ℕ) → bit_and (a * 2 ^ k) (b * 2 ^ k) ≡ bit_and a b * 2 ^ k
bit_and_shift zero a b = rw (mul-one a, mul-one b, mul-one (bit_and a b))
bit_and_shift (suc k) a b = ground (
  arith,
  bit_and_step (a * 2 ^ suc k) (b * 2 ^ suc k),
  shift_doubles a k,
  shift_doubles b k,
  shift_doubles (bit_and a b) k,
  bit_and_shift k a b,
)

-- A mask that clears `k` low bits of a 32-bit word keeps a word where they are clear.
pub bit_and_high : (x : ℕ) → x < 2 ^ 32 → x % 2 ^ 12 ≡ 0 → bit_and x 0xfffff000 ≡ x
bit_and_high x h e =
    let whole : x ≡ x / 2 ^ 12 * 2 ^ 12 = omega arith in
    omega (
      arith,
      ap (λ (t : ℕ). bit_and t 0xfffff000) whole,
      bit_and_shift 12 (x / 2 ^ 12) (2 ^ 20 - 1),
      bit_and_mask 20 (x / 2 ^ 12),
    )

-- A mask whose low `k` bits are clear and whose next `r` bits are set rounds a word of `k + r` bits
-- down to a multiple of `2 ^ k`.
pub bit_and_round :
    (k r m x : ℕ) → m ≡ (2 ^ r - 1) * 2 ^ k → x / 2 ^ k < 2 ^ r → bit_and x m ≡ x / 2 ^ k * 2 ^ k
bit_and_round k r m x e h =
    let parts =
      bit_and_parts k (2 ^ r - 1) 0 m x (omega (arith, e)) (omega (arith, one-le-pow k 2)) in
    omega (
      arith,
      parts,
      bit_and-zero (x % 2 ^ k),
      ap (λ (t : ℕ). t * 2 ^ k) (bit_and_all r (x / 2 ^ k) h),
    )

-- A mask with a gap of `width` clear bits from `lo`.
pub bit_and_gap :
    (lo width r m x : ℕ)
    → m ≡ (2 ^ r - 1) * 2 ^ width * 2 ^ lo + (2 ^ lo - 1)
    → x / 2 ^ lo / 2 ^ width < 2 ^ r
    → bit_and x m ≡ x / 2 ^ lo / 2 ^ width * 2 ^ width * 2 ^ lo + x % 2 ^ lo
bit_and_gap lo width r m x e h =
    bit_and_parts lo ((2 ^ r - 1) * 2 ^ width) (2 ^ lo - 1) m x e (omega (arith, one-le-pow lo 2))
    ∙ ap₂ (λ (a b : ℕ). a * 2 ^ lo + b)
        (bit_and_round width r ((2 ^ r - 1) * 2 ^ width) (x / 2 ^ lo) refl h)
        (bit_and_all lo (x % 2 ^ lo) (div_mod_pow lo x).1)

-- Filling such a gap.
pub bit_or_gap :
    (lo width q v l : ℕ)
    → v < 2 ^ width
    → l < 2 ^ lo
    → bit_or (q * 2 ^ width * 2 ^ lo + l) (v * 2 ^ lo) ≡ (q * 2 ^ width + v) * 2 ^ lo + l
bit_or_gap lo width q v l h h' =
    ap (bit_or (q * 2 ^ width * 2 ^ lo + l)) (omega arith)
    ∙ bit_or_split lo (q * 2 ^ width) l v 0 h' (omega (arith, one-le-pow lo 2))
    ∙ ap₂ (λ (a b : ℕ). a * 2 ^ lo + b) (bit_or-high_low width q v h) (bit_or-zero l)

pub pred_mul : (p a : ℕ) → 0 < p → (p - 1) * a ≡ p * a - a
pred_mul zero a h = elim h [ ]
pred_mul (suc q) a h = let e : suc q - 1 ≡ q = omega arith in rw e (omega arith)
