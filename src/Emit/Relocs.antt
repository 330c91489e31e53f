-- ===== src/Emit/Relocs.antt =====
-- The two halves of a pc-relative address: what HI20 and LO12 make of one target at one address.
use assembler_project.Base.{ℕ, ◌%◌, ◌≡◌, arith}
use assembler_project.Base.Int.{ℤ, pos, negsuc, ◌+ℤ◌, ◌-ℤ◌, ◌≤ℤ◌, int_laws}
use assembler_project.Base.Word.{bits32, to_int32}
use assembler_project.Emit.Resolve.{shl, upper, relocate}
use assembler_project.Ir.Entry.{reloc_hi20, reloc_lo12}

abbrev hi : ℤ → ℤ
hi d = shl (upper d) 12

-- `hi` rounds to the nearest multiple of 4096, so what is left fits a signed 12-bit immediate.
upper_half : (d : ℤ) → (hi d ≤ℤ (d +ℤ pos 2048)) × (d ≤ℤ (hi d +ℤ pos 2047))
unfolding ◌+ℤ◌
upper_half (pos n) = ground arith
upper_half (negsuc n) = ground arith

to_int32_lem : (x : ℤ) → negsuc 2147483647 ≤ℤ x → x ≤ℤ pos 2147483647 → to_int32 x ≡ x
to_int32_lem (pos n) lo hi = ground arith
to_int32_lem (negsuc n) lo hi = ground arith

whole : (x : ℤ) → bits32 (shl x 12) % 4096 ≡ 0
whole (pos n) = ground arith
whole (negsuc n) = ground arith

-- For one target and one address at most 2147481599 bytes apart, the HI20 value is a multiple of 4096, the
-- LO12 value fits a signed 12-bit immediate, and together they make up the distance.
pub relocate-halves :
    (t : ℤ) (addr : ℕ)
    → negsuc 2147481598 ≤ℤ (t -ℤ pos addr)
    → (t -ℤ pos addr) ≤ℤ pos 2147481599
    → (relocate reloc_hi20 t addr +ℤ relocate reloc_lo12 t addr ≡ t -ℤ pos addr)
      × (negsuc 2047 ≤ℤ relocate reloc_lo12 t addr)
      × (relocate reloc_lo12 t addr ≤ℤ pos 2047)
      × (bits32 (relocate reloc_hi20 t addr) % 4096 ≡ 0)
unfolding relocate
relocate-halves t addr lo hi' =
    let d = t -ℤ pos addr in
    let u = upper_half d in
    let e : to_int32 (hi d) ≡ hi d =
      to_int32_lem (hi d) (omega (int_laws, u.0, u.1, lo, hi'))
        (omega (int_laws, u.0, u.1, lo, hi')) in
    let f : to_int32 (d -ℤ hi d) ≡ d -ℤ hi d =
      to_int32_lem (d -ℤ hi d) (omega (int_laws, u.0, u.1)) (omega (int_laws, u.0, u.1)) in
    rw (e, f)
      (
        omega (int_laws, u.0, u.1),
        omega (int_laws, u.0, u.1),
        omega (int_laws, u.0, u.1),
        whole (upper d),
      )
