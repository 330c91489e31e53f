-- ===== src/Base/Bits/Split.antt =====
-- `&` and `|` act on the parts of a word above and below any bit separately.
use Prim.Native.Nat.{ℕ, zero, suc, ◌+◌, ◌*◌, ◌/◌, ◌^◌, ◌<◌, bit_and, bit_or}
use mathlib.Core.Path.{◌≡◌, ap}
use native.Mathlib.Nat.{pow-suc, mul-one}
use native.Mathlib.Omega.{arith}
use assembler_project.Base.Bits.Step.{bit_or_step, bit_and_step}

-- One more place doubles.
pub shift_doubles : (x places : ℕ) → x * 2 ^ suc places ≡ x * 2 ^ places + x * 2 ^ places
shift_doubles x places =
    let doubled = pow-suc 2 places in omega (arith, doubled, ap (λ (place : ℕ). x * place) doubled)

pub bit_and_split :
    (k qa ra qb rb : ℕ)
    → ra < 2 ^ k
    → rb < 2 ^ k
    → bit_and (qa * 2 ^ k + ra) (qb * 2 ^ k + rb) ≡ bit_and qa qb * 2 ^ k + bit_and ra rb
bit_and_split zero qa ra qb rb h h' =
    let a : ra ≡ 0 = omega arith in
    let b : rb ≡ 0 = omega arith in
    rw (a, b, mul-one qa, mul-one qb, mul-one (bit_and qa qb))
      (ground (arith, mul-one qa, mul-one qb))
bit_and_split (suc k) qa ra qb rb h h' = ground (
  arith,
  bit_and_step (qa * 2 ^ suc k + ra) (qb * 2 ^ suc k + rb),
  bit_and_step ra rb,
  shift_doubles qa k,
  shift_doubles qb k,
  shift_doubles (bit_and qa qb) k,
  pow-suc 2 k,
  bit_and_split k qa (ra / 2) qb (rb / 2) (omega (arith, pow-suc 2 k)) (omega (arith, pow-suc 2 k)),
)

pub bit_or_split :
    (k qa ra qb rb : ℕ)
    → ra < 2 ^ k
    → rb < 2 ^ k
    → bit_or (qa * 2 ^ k + ra) (qb * 2 ^ k + rb) ≡ bit_or qa qb * 2 ^ k + bit_or ra rb
bit_or_split zero qa ra qb rb h h' =
    let a : ra ≡ 0 = omega arith in
    let b : rb ≡ 0 = omega arith in
    rw (a, b, mul-one qa, mul-one qb, mul-one (bit_or qa qb))
      (ground (arith, mul-one qa, mul-one qb))
bit_or_split (suc k) qa ra qb rb h h' = ground (
  arith,
  bit_or_step (qa * 2 ^ suc k + ra) (qb * 2 ^ suc k + rb),
  bit_or_step ra rb,
  shift_doubles qa k,
  shift_doubles qb k,
  shift_doubles (bit_or qa qb) k,
  pow-suc 2 k,
  bit_or_split k qa (ra / 2) qb (rb / 2) (omega (arith, pow-suc 2 k)) (omega (arith, pow-suc 2 k)),
)
