-- ===== src/Encode/Compressed/Half/Registers.antt =====
-- The registers x8 to x15, which three bits name.
use assembler_project.Base.{ℕ, ◌+◌, ◌-◌, ◌≤◌, ◌<◌, ◌≡◌, some, arith}
use assembler_project.Encode.Compressed.Half.{c_regp}

abbrev pub IsPrime : ℕ → Type 0
IsPrime x = (8 ≤ x) × (x ≤ 15)

pub regp_lem : (x : ℕ) → IsPrime x → (c_regp x ≡ some (x - 8)) × (x - 8 < 8) × (x - 8 + 8 ≡ x)
unfolding c_regp
regp_lem x h = (ground (arith, h), omega (arith, h), omega (arith, h))
