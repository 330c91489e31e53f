-- ===== src/Symtab/Primes/Euclid.antt =====
-- There is always a next prime, so the search for it ends.
use assembler_project.Base.{
  ℕ, zero, suc, ◌+◌, ◌-◌, ◌*◌, ◌/◌, ◌%◌, ◌≤◌, ◌<◌, ◌≡◌, sym, ap, ◌∙◌, ◌≢◌, inl, inr, true, arith,
  ltb, ◌==◌, Bool-cases,
}
use mathlib.Core.Bool.{false≢true}
use native.Mathlib.Nat.{
  mul_assoc, mul-mod_right, mul-mod_left, mul-add-mod_self_right, mod-eq_of_lt,
}
use assembler_project.Symtab.Primes.{is_prime, next_prime_from, factorial, find_next_prime}
use assembler_project.Symtab.Primes.Trial.{IsPrimeNumber, IsSqrt, is_prime_iff, cofactor}

divides_trans : (m d c : ℕ) → m % d ≡ 0 → d % c ≡ 0 → m % c ≡ 0
divides_trans m d c h k =
    let e : m ≡ m / d * (d / c) * c =
      cofactor m d h
      ∙ ap {B = ℕ} (λ (t : ℕ). m / d * t) (cofactor d c k)
      ∙ sym (mul_assoc (m / d) (d / c) c) in
    ap {B = ℕ} (λ (t : ℕ). t % c) e ∙ mul-mod_left (m / d * (d / c)) c

-- The least divisor from 2 on is prime.
abbrev HasPrime : ℕ → Type 0
HasPrime m = (p : ℕ) × IsPrimeNumber p × (m % p ≡ 0)

least_divisor : (k d m : ℕ) → 2 ≤ d → d + k ≡ m → ((c : ℕ) → 2 ≤ c → c < d → m % c ≢ 0) → HasPrime m
least_divisor zero d m lo sum none_below =
    let self : d ≡ m = omega (arith, sum) in
    let divides : m % d ≡ 0 =
      rw self (ap {B = ℕ} (λ (t : ℕ). t % m) (omega arith) ∙ mul-mod_right m 1) in
    (d, (lo, λ c a b z. none_below c a b (divides_trans m d c divides z)), divides)
least_divisor (suc k) d m lo sum none_below = elim (Bool-cases (m % d == 0)) [
  | inl found ↦
      let divides : m % d ≡ 0 = ground arith in
      (d, (lo, λ c a b z. none_below c a b (divides_trans m d c divides z)), divides)
  | inr missed ↦ least_divisor k (d + 1) m (omega arith) (omega arith) λ c a b z.
      elim (Bool-cases (c == d)) [
        | inl same ↦
            let e : c ≡ d = ground arith in let divides : m % d ≡ 0 = rw e at z in ground arith
        | inr other ↦ none_below c a (ground arith) z
      ]
]

factorial_divides : (n p : ℕ) → 1 ≤ p → p ≤ n → factorial n % p ≡ 0
unfolding factorial
factorial_divides zero p lo hi = absurd (omega arith)
factorial_divides (suc n) p lo hi = elim (Bool-cases (p == suc n)) [
  | inl same ↦ let e : p ≡ suc n = ground arith in rw e (mul-mod_right (suc n) (factorial n))
  | inr below ↦
      let h = cofactor (factorial n) p (factorial_divides n p lo (ground arith)) in
      let e : suc n * factorial n ≡ suc n * (factorial n / p) * p =
        ap {B = ℕ} (λ (t : ℕ). suc n * t) h ∙ sym (mul_assoc (suc n) (factorial n / p) p) in
      ap {B = ℕ} (λ (t : ℕ). t % p) e ∙ mul-mod_left (suc n * (factorial n / p)) p
]

factorial_pos : (n : ℕ) → 1 ≤ factorial n
unfolding factorial
factorial_pos zero = omega arith
factorial_pos (suc n) = grind (arith, factorial_pos n)

-- A prime divisor of `n! + 1` lies from `n` to `n! + 1`.
divisor_bounds : (n p : ℕ) → 2 ≤ p → (factorial n + 1) % p ≡ 0 → (n ≤ p) × (p ≤ factorial n + 1)
divisor_bounds n p lo divides = (
  elim (Bool-cases (ltb p n)) [
    | inl below ↦
        let h = cofactor (factorial n) p (factorial_divides n p (omega arith) (ground arith)) in
        let e : (factorial n + 1) % p ≡ 1 % p =
          ap {B = ℕ} (λ (t : ℕ). (t + 1) % p) h ∙ mul-add-mod_self_right (factorial n / p) p 1 in
        let one_mod : 1 % p ≡ 1 = mod-eq_of_lt lo in absurd (omega (arith, e, one_mod, divides))
    | inr above ↦ ground arith
  ],
  elim (Bool-cases (ltb (factorial n + 1) p)) [
    | inl above ↦
        let small : factorial n + 1 < p = ground arith in
        absurd (omega (arith, mod-eq_of_lt small, divides))
    | inr below ↦ ground arith
  ],
)

next_prime_from_lem :
    (turns : ℕ) (sqrt : ℕ → ℕ) (n p : ℕ)
    → IsSqrt sqrt
    → IsPrimeNumber p
    → n ≤ p
    → p < n + turns
    → IsPrimeNumber (next_prime_from turns sqrt n)
      × (n ≤ next_prime_from turns sqrt n)
      × ((q : ℕ) → IsPrimeNumber q → n ≤ q → next_prime_from turns sqrt n ≤ q)
unfolding next_prime_from
next_prime_from_lem zero sqrt n p root prime lo hi = absurd (omega arith)
next_prime_from_lem (suc turns) sqrt n p root prime lo hi = elim (Bool-cases (is_prime sqrt n)) [
  | inl yes_prime ↦
      rw yes_prime ((is_prime_iff sqrt n root).0 yes_prime, omega arith, λ q h above. above)
  | inr composite ↦
      let skip : (q : ℕ) → IsPrimeNumber q → n ≤ q → n + 1 ≤ q = λ q h above.
        elim (Bool-cases (n == q)) [
          | inl same ↦
              let e : n ≡ q = ground arith in
              let bad : is_prime sqrt n ≡ true = rw e ((is_prime_iff sqrt q root).1 h) in
              absurd (false≢true (sym composite ∙ bad))
          | inr other ↦ ground arith
        ] in
      let rest =
        next_prime_from_lem turns sqrt (n + 1) p root prime (skip p prime lo) (omega arith) in
      rw composite (rest.0, omega (arith, rest.1), λ q h above. rest.2 q h (skip q h above))
]

-- With the square root of the C library, the loop ends at the least prime from `n` on.
pub find_next_prime_lem :
    (sqrt : ℕ → ℕ) (n : ℕ)
    → IsSqrt sqrt
    → IsPrimeNumber (find_next_prime sqrt n)
      × (n ≤ find_next_prime sqrt n)
      × ((p : ℕ) → IsPrimeNumber p → n ≤ p → find_next_prime sqrt n ≤ p)
unfolding find_next_prime
find_next_prime_lem sqrt n root =
    let m = factorial n + 1 in
    let (p, prime, divides) =
      least_divisor (m - 2) 2 m (omega arith) (omega (arith, factorial_pos n))
        (λ c a b. absurd (omega arith)) in
    let bounds = divisor_bounds n p (prime.0) divides in
    next_prime_from_lem (factorial n + 2) sqrt n p root prime (bounds.0) (omega (arith, bounds.1))
