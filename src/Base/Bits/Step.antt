-- ===== src/Base/Bits/Step.antt =====
-- One digit of `|` and `&`. The native operations stand for `digits`, which is run with its first
-- argument as the fuel; more fuel than that changes nothing.
use Prim.Native.Nat.{
  ℕ, zero, suc, ◌+◌, ◌-◌, ◌*◌, ◌/◌, ◌%◌, ◌≤◌, min, max, digits, bit_and, bit_or, bit_and-bitwise,
  bit_or-bitwise,
}
use mathlib.Core.Path.{◌≡◌, sym}
use native.Mathlib.Omega.{arith}

-- With any fuel from `x` on, the result is that of the fuel `x + spare`.
spare_fuel :
    (last : ℕ → ℕ) (digit : ℕ → ℕ → ℕ) (fuel spare x y : ℕ)
    → x ≤ fuel
    → digits last digit fuel x y ≡ digits last digit (spare + fuel) x y
spare_fuel last digit fuel zero x y le = let same : zero + fuel ≡ fuel = omega arith in rw same
spare_fuel last digit zero (suc spare) zero y le =
    let one_more : suc spare + zero ≡ suc spare = omega arith in rw one_more
spare_fuel last digit zero (suc spare) (suc x) y le = absurd (omega arith)
spare_fuel last digit (suc fuel) (suc spare) zero y le =
    let one_more : suc spare + suc fuel ≡ suc (suc spare + fuel) = omega arith in rw one_more
spare_fuel last digit (suc fuel) (suc spare) (suc x) y le =
    let one_more : suc spare + suc fuel ≡ suc (suc spare + fuel) = omega arith in
    rw (one_more, ← spare_fuel last digit fuel (suc spare) (suc x / 2) (y / 2) (omega arith))

-- So one round may be read off, with the halves run on fuel of their own.
halves :
    (last : ℕ → ℕ) (digit : ℕ → ℕ → ℕ) (x y : ℕ)
    → digits last digit x (suc x / 2) (y / 2) ≡ digits last digit (suc x / 2) (suc x / 2) (y / 2)
halves last digit x y =
    let more : x - suc x / 2 + suc x / 2 ≡ x = omega arith in
    sym (
      rw more at
        (spare_fuel last digit (suc x / 2) (x - suc x / 2) (suc x / 2) (y / 2) (omega arith)))

pub bit_and_step : (x : ℕ) (y : ℕ) → bit_and x y ≡ bit_and (x / 2) (y / 2) * 2 + min (x % 2) (y % 2)
bit_and_step zero y = rw (bit_and-bitwise zero y, bit_and-bitwise (zero / 2) (y / 2)) (omega arith)
bit_and_step (suc x) y =
    rw (bit_and-bitwise (suc x) y, bit_and-bitwise (suc x / 2) (y / 2))
      (omega (arith, halves (λ t. 0) min x y))

pub bit_or_step : (x : ℕ) (y : ℕ) → bit_or x y ≡ bit_or (x / 2) (y / 2) * 2 + max (x % 2) (y % 2)
bit_or_step zero y = rw (bit_or-bitwise zero y, bit_or-bitwise (zero / 2) (y / 2)) (omega arith)
bit_or_step (suc x) y =
    rw (bit_or-bitwise (suc x) y, bit_or-bitwise (suc x / 2) (y / 2))
      (omega (arith, halves (λ t. t) max x y))
