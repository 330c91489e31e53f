-- ===== src/Tests/Symtab.antt =====
-- The symbol table with a square root that is computed, on three calls.
use assembler_project.Base.{
  ℕ, zero, suc, ◌+◌, ◌*◌, ◌≤◌, ◌≡◌, ◌↔◌, inl, inr, true, false, List, [], ◌∷◌, arith, leb,
  if◌then◌else◌, Bool-cases,
}
use assembler_project.Base.Int.{pos, negsuc}
use assembler_project.Ir.Entry.{Label}
use assembler_project.Symtab.{create_symtab, insert_sym, insert_nested}
use assembler_project.Symtab.Calls.{
  Call, insert_call, search_call, remove_call, verdict, value, answers, answers-create_symtab,
}
use assembler_project.Symtab.Methods.{create_symtab-Refines, insert_nested-depth}
use assembler_project.Symtab.Nodes.{str_eq}
use assembler_project.Symtab.Primes.{is_prime, find_next_prime}
use assembler_project.Symtab.Primes.Trial.{IsPrimeNumber, IsSqrt, is_prime_iff}
use assembler_project.Symtab.Primes.Euclid.{find_next_prime_lem}

abbrev pub isqrt : ℕ → ℕ
isqrt zero = 0
isqrt (suc n) = let r = isqrt n in if leb ((r + 1) * (r + 1)) (suc n) then r + 1 else r

square_next : (r : ℕ) → (r + 1) * (r + 1) + 1 ≤ (r + 1 + 1) * (r + 1 + 1)
square_next r = grind arith

pub isqrt-IsSqrt : IsSqrt isqrt
isqrt-IsSqrt zero = omega arith
isqrt-IsSqrt (suc n) =
    let (lo, hi) = isqrt-IsSqrt n in
    let r = isqrt n in
    elim (Bool-cases (leb ((r + 1) * (r + 1)) (suc n))) [
      | inl up ↦ rw up (ground arith, omega (arith, hi, square_next r))
      | inr same ↦ rw same (omega (arith, lo), ground arith)
    ]

abbrev main_label : Label
main_label = 109 ∷ 97 ∷ []

abbrev loop_label : Label
loop_label = 108 ∷ []

abbrev calls : List Call
calls =
    insert_call main_label (pos 8)
    ∷ (insert_call main_label (pos 12)
        ∷ (search_call main_label
            ∷ (remove_call loop_label ∷ (remove_call main_label ∷ (search_call main_label ∷ [])))))

answers-create_symtab_example :
    answers isqrt calls create_symtab
    ≡ verdict true
      ∷ (verdict false
          ∷ (value (pos 8) ∷ (verdict false ∷ (verdict true ∷ (value (negsuc 0) ∷ [])))))
unfolding str_eq
answers-create_symtab_example = answers-create_symtab isqrt calls isqrt-IsSqrt

is_prime_iff_example : (is_prime isqrt 107 ≡ true) ↔ IsPrimeNumber 107
is_prime_iff_example = is_prime_iff isqrt 107 isqrt-IsSqrt

find_next_prime_lem_example :
    IsPrimeNumber (find_next_prime isqrt 106)
    × (106 ≤ find_next_prime isqrt 106)
    × ((p : ℕ) → IsPrimeNumber p → 106 ≤ p → find_next_prime isqrt 106 ≤ p)
find_next_prime_lem_example = find_next_prime_lem isqrt 106 isqrt-IsSqrt

insert_nested-depth_example :
    insert_nested 5 isqrt main_label (pos 8) create_symtab
    ≡ insert_sym isqrt main_label (pos 8) create_symtab
insert_nested-depth_example =
    insert_nested-depth isqrt main_label (pos 8) create_symtab 3 isqrt-IsSqrt
      create_symtab-Refines.valid
