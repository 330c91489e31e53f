-- ===== src/Symtab/Primes/Trial.antt =====
-- Trial division up to the square root decides primality.
use assembler_project.Base.{
  ℕ, zero, suc, ◌+◌, ◌*◌, ◌/◌, ◌%◌, ◌≤◌, ◌<◌, ◌≡◌, refl, sym, ap, ◌∙◌, ◌≢◌, ◌↔◌, ◌⊎◌, inl, inr,
  true, arith, leb, ◌==◌, Bool-cases,
}
use native.Mathlib.Nat.{div-add-mod', mul_assoc, mul-le-mul, mul-le-mul_right, mul-mod_right}
use assembler_project.Symtab.Primes.{no_divisor, is_prime}

-- At least 2, and not divided by a smaller number from 2 on.
abbrev pub IsPrimeNumber : ℕ → Type 0
IsPrimeNumber p = (2 ≤ p) × ((d : ℕ) → 2 ≤ d → d < p → p % d ≢ 0)

-- What is relied on of the C library's `sqrt`, cut to an integer.
abbrev pub IsSqrt : (ℕ → ℕ) → Type 0
IsSqrt sqrt = (n : ℕ) → (sqrt n * sqrt n ≤ n) × (n < (sqrt n + 1) * (sqrt n + 1))

no_divisor_sound :
    (turns i limit n d : ℕ)
    → limit < i + 2 * turns
    → no_divisor turns i limit n ≡ true
    → i ≤ d
    → d ≤ limit
    → (d + i) % 2 ≡ 0
    → n % d ≢ 0
unfolding no_divisor
no_divisor_sound zero i limit n d enough h lo hi par = absurd (omega arith)
no_divisor_sound (suc turns) i limit n d enough h lo hi par = elim (Bool-cases (d == i)) [
  | inl here ↦ λ z. ground arith
  | inr later ↦
      no_divisor_sound turns (i + 2) limit n d (omega arith) (ground arith) (ground arith) hi
        (omega arith)
]

no_divisor_complete :
    (turns i limit n : ℕ)
    → ((d : ℕ) → i ≤ d → d ≤ limit → n % d ≢ 0)
    → no_divisor turns i limit n ≡ true
unfolding no_divisor
no_divisor_complete zero i limit n h = refl
no_divisor_complete (suc turns) i limit n h =
    let rest = no_divisor_complete turns (i + 2) limit n (λ d lo hi. h d (omega arith) hi) in
    ground (arith, rest, h i)

-- A divisor and its cofactor.
pub cofactor : (n d : ℕ) → n % d ≡ 0 → n ≡ n / d * d
cofactor n d h = omega (arith, div-add-mod' n d)

-- A number that the loop lets through has no divisor up to the limit.
no_small : (n s c : ℕ) → n % 2 ≢ 0 → no_divisor s 3 s n ≡ true → 2 ≤ c → c ≤ s → n % c ≢ 0
no_small n s c not_even h lo hi z = elim (Bool-cases (c % 2 == 0)) [
  | inl even ↦
      let half : c ≡ c / 2 * 2 = ground arith in
      let e : n ≡ n / c * (c / 2) * 2 =
        cofactor n c z
        ∙ ap {B = ℕ} (λ (t : ℕ). n / c * t) half
        ∙ sym (mul_assoc (n / c) (c / 2) 2) in
      not_even (omega (arith, e))
  | inr odd ↦ no_divisor_sound s 3 s n c (omega arith) h (ground arith) hi (ground arith) z
]

-- One of two factors is at most the square root.
small_factor : (s n d e : ℕ) → n < (s + 1) * (s + 1) → n ≡ e * d → (d ≤ s) ⊎ (e ≤ s)
small_factor s n d e lt prod = elim (Bool-cases (leb d s)) [
  | inl small ↦ inl (ground arith)
  | inr big ↦ elim (Bool-cases (leb e s)) [
    | inl small ↦ inr (ground arith)
    | inr both ↦
        let wide : s + 1 ≤ d = ground arith in
        let tall : s + 1 ≤ e = ground arith in
        absurd (omega (arith, mul-le-mul tall wide, prod, lt))
  ]
]

is_prime_sound : (sqrt : ℕ → ℕ) (n : ℕ) → IsSqrt sqrt → is_prime sqrt n ≡ true → IsPrimeNumber n
unfolding is_prime
is_prime_sound sqrt n root h = (
  ground arith,
  λ d lo hi z. elim (Bool-cases (leb n 3)) [
    | inl few ↦
        let two : d ≡ 2 = ground arith in
        let three : n ≡ 3 = ground arith in
        let z' : n % 2 ≡ 0 = rw two at z in omega (arith, z', three)
    | inr many ↦
        let odd : n % 2 ≢ 0 = λ even. ground arith in
        let through : no_divisor (sqrt n) 3 (sqrt n) n ≡ true = ground arith in
        let prod = cofactor n d z in
        let e = n / d in
        let e_lo : 2 ≤ e = elim (Bool-cases (leb e 1)) [
          | inl one ↦
              let few : e ≤ 1 = ground arith in
              absurd (omega (arith, mul-le-mul_right d few, prod, hi))
          | inr more ↦ ground arith
        ] in
        elim (small_factor (sqrt n) n d e ((root n).1) prod) [
          | inl small ↦ no_small n (sqrt n) d odd through lo small z
          | inr small ↦
              let ze : n % e ≡ 0 = ap {B = ℕ} (λ (t : ℕ). t % e) prod ∙ mul-mod_right e d in
              no_small n (sqrt n) e odd through e_lo small ze
        ]
  ],
)

is_prime_complete : (sqrt : ℕ → ℕ) (n : ℕ) → IsSqrt sqrt → IsPrimeNumber n → is_prime sqrt n ≡ true
unfolding is_prime
is_prime_complete sqrt n root (lo, none_divides) = elim (Bool-cases (leb n 3)) [
  | inl few ↦ ground arith
  | inr many ↦
      let below : sqrt n < n = elim (Bool-cases (leb n (sqrt n))) [
        | inl over ↦
            let above : n ≤ sqrt n = ground arith in
            let four : 4 ≤ n = ground arith in
            absurd (omega (arith, mul-le-mul above above, mul-le-mul_right n four, (root n).0))
        | inr under ↦ ground arith
      ] in
      let odd : n % 2 ≢ 0 = none_divides 2 (omega arith) (ground arith) in
      let through =
        no_divisor_complete (sqrt n) 3 (sqrt n) n
          (λ d a b. none_divides d (omega arith) (omega (arith, b, below))) in
      ground (arith, through, odd)
]

-- With the square root of the C library, the test accepts exactly the prime numbers.
pub is_prime_iff : (sqrt : ℕ → ℕ) (n : ℕ) → IsSqrt sqrt → (is_prime sqrt n ≡ true) ↔ IsPrimeNumber n
is_prime_iff sqrt n root = (is_prime_sound sqrt n root, is_prime_complete sqrt n root)
