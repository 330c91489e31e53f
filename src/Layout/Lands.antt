-- ===== src/Layout/Lands.antt =====
-- Where a jump by a displacement of `pass2_compute_disp` (Assembler/src/pass2.c) arrives.
use assembler_project.Base.{ℕ, ◌+◌, ◌^◌, ◌%◌, ◌≡◌, arith}
use assembler_project.Base.Int.{ℤ, pos, negsuc, pos_part, neg_part, ◌+ℤ◌, ◌-ℤ◌, int_laws}
use assembler_project.Base.Word.{bits32, to_int32}
use assembler_project.Layout.{pass2_compute_disp}

-- Addresses are numbers of 32 bits: a jump from `addr` by `imm` arrives at `target`.
abbrev pub Lands : ℕ → ℤ → ℤ → Type 0
Lands addr imm target = bits32 (pos addr +ℤ imm) ≡ bits32 target

-- Two integers that differ by a multiple of 2 ^ 32 have the same bits.
bits32_eq :
    (x y : ℤ)
    → (pos_part x + neg_part y) % 2 ^ 32 ≡ (pos_part y + neg_part x) % 2 ^ 32
    → bits32 x ≡ bits32 y
bits32_eq (pos m) (pos n) h = omega (arith, h)
bits32_eq (pos m) (negsuc n) h = omega (arith, h)
bits32_eq (negsuc m) (pos n) h = omega (arith, h)
bits32_eq (negsuc m) (negsuc n) h = omega (arith, h)

to_int32-parts :
    (x : ℤ)
    → (pos_part (to_int32 x) + neg_part x) % 2 ^ 32 ≡ (pos_part x + neg_part (to_int32 x)) % 2 ^ 32
to_int32-parts (pos n) = ground arith
to_int32-parts (negsuc n) = ground arith

bits32-parts : (x : ℤ) → (bits32 x + neg_part x) % 2 ^ 32 ≡ pos_part x % 2 ^ 32
bits32-parts (pos n) = omega arith
bits32-parts (negsuc n) = omega arith

-- `a` and `b` stand for the address and for the target's bits `n`.
offset-Lands :
    (addr n : ℕ) (a b t : ℤ)
    → (pos_part a + 0) % 2 ^ 32 ≡ (addr + neg_part a) % 2 ^ 32
    → (pos_part b + 0) % 2 ^ 32 ≡ (n + neg_part b) % 2 ^ 32
    → (n + neg_part t) % 2 ^ 32 ≡ pos_part t % 2 ^ 32
    → Lands addr (b -ℤ a) t
offset-Lands addr n a b t from to at =
    bits32_eq (pos addr +ℤ (b -ℤ a)) t (omega (int_laws, from, to, at))

pub compute_disp-Lands : (addr : ℕ) (t : ℤ) → Lands addr (pass2_compute_disp addr (bits32 t)) t
unfolding pass2_compute_disp
compute_disp-Lands addr t =
    offset-Lands addr (bits32 t) (to_int32 (pos addr)) (to_int32 (pos (bits32 t))) t
      (to_int32-parts (pos addr)) (to_int32-parts (pos (bits32 t))) (bits32-parts t)
