-- ===== src/Symtab/Primes.antt =====
-- The sizes of the table: `is_prime` and `find_next_prime` (Assembler/src/symtab.c). `sqrt` is the
-- C library's, cut to an `int`. An `int` does not overflow at the sizes that memory holds.
pub mod Trial
pub mod Euclid
use assembler_project.Base.{
  ℕ, zero, suc, ◌+◌, ◌-◌, ◌*◌, ◌/◌, ◌%◌, ◌^◌, ◌≤◌, ◌<◌, bit_and, bit_or, ◌≡◌, refl, sym, ap, ◌∙◌,
  ◌≢◌, ◌↔◌, ◌⊎◌, inl, inr, Bool, true, false, not, ◌&&◌, ◌||◌, Option, none, some, List, [], ◌∷◌,
  ◌++◌, arith, ltb, leb, ◌==◌, ◌!=◌, if◌then◌else◌, ==_iff, Bool-cases, Option-cases, length,
  get_elem?, get_or, set, replicate, length-append, length-replicate, length-set, All,
}
use assembler_project.Base.Int.{
  ℤ, pos, negsuc, pos_part, neg_part, sub_ℕ, ◌+ℤ◌, ◌-ℤ◌, ◌≤ℤ◌, ltb_ℤ, eqb_ℤ, +ℤ_parts, -ℤ_parts,
  eq_of_parts, int_laws,
}
use assembler_project.Base.Word.{
  u8, u16, u32, u64, ◌<<◌, ◌>>◌, bits64, bits32, asr, signed, to_int32, field,
}

-- The loop over the odd numbers from `i` to `limit`, with the turns that are left.
unfoldable pub no_divisor : ℕ → ℕ → ℕ → ℕ → Bool
no_divisor zero i limit n = true
no_divisor (suc turns) i limit n =
    let rest = no_divisor turns (i + 2) limit n in
    if ltb limit i then true else if n % i == 0 then false else rest

-- As many turns as the limit are enough.
unfoldable pub is_prime : (ℕ → ℕ) → ℕ → Bool
unfolding no_divisor
is_prime sqrt n =
    if ltb n 2
    then false
    else if leb n 3
    then true
    else if n % 2 == 0
    then false
    else no_divisor (sqrt n) 3 (sqrt n) n

unfoldable pub next_prime_from : ℕ → (ℕ → ℕ) → ℕ → ℕ
unfolding is_prime
next_prime_from zero sqrt n = n
next_prime_from (suc turns) sqrt n =
    let rest = next_prime_from turns sqrt (n + 1) in if is_prime sqrt n then n else rest

unfoldable pub factorial : ℕ → ℕ
factorial zero = 1
factorial (suc n) = suc n * factorial n

-- There is a prime between `n` and `n! + 1`, so the loop ends within these turns.
unfoldable pub find_next_prime : (ℕ → ℕ) → ℕ → ℕ
unfolding next_prime_from factorial
find_next_prime sqrt n = next_prime_from (factorial n + 2) sqrt n
