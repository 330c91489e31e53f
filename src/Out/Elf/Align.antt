-- ===== src/Out/Elf/Align.antt =====
-- The offsets that `out_finish` rounds up.
use assembler_project.Base.{
  ℕ, ◌+◌, ◌%◌, ◌^◌, ◌≤◌, ◌<◌, ◌≡◌, refl, ◌≢◌, inl, inr, Bool, true, false, arith, ◌==◌, Bool-cases,
}
use assembler_project.Base.Word.{u32, u64}
use assembler_project.Out.Elf.Planned.{align_up_u64, align_up_u32, align_off, place_section}
use assembler_project.Pass.Align.{round_up_lem}
use native.Mathlib.Nat.{one-le-pow}

pub align_off_lem :
    (is64 : Bool) (off k : ℕ)
    → k ≤ 12
    → off + 2 ^ k ≤ 2 ^ 32
    → (off ≤ align_off is64 off (2 ^ k))
      × (align_off is64 off (2 ^ k) < off + 2 ^ k)
      × (align_off is64 off (2 ^ k) % 2 ^ k ≡ 0)
unfolding align_up_u64 align_up_u32
align_off_lem true off k h fits =
    round_up_lem 64 off k _ refl (omega (arith, h)) (omega (arith, fits))
align_off_lem false off k h fits =
    let small : u32 off ≡ off = omega (arith, fits, one-le-pow k 2) in
    rw small (round_up_lem 32 off k _ refl (omega (arith, h)) fits)

-- A section that is not empty starts on a page behind what stands before it.
pub place_section_lem :
    (is64 : Bool) (off size : ℕ)
    → off + size + 4096 ≤ 2 ^ 32
    → (off ≤ (place_section is64 off size).1)
      × ((place_section is64 off size).1 ≤ off + size + 4096)
      × (size ≢ 0
          → (off ≤ (place_section is64 off size).0)
            × ((place_section is64 off size).0 + size ≡ (place_section is64 off size).1)
            × ((place_section is64 off size).0 % 4096 ≡ 0))
place_section_lem is64 off size fits =
    let (lo, hi, page) = align_off_lem is64 off 12 (omega arith) (omega (arith, fits)) in
    elim (Bool-cases (size == 0)) [
      | inl nothing ↦
          let z : size ≡ 0 = ground arith in
          rw nothing (omega arith, omega arith, λ h. absurd (h z))
      | inr some_bytes ↦
          let at = align_off is64 off 0x1000 in
          let sum : u64 (at + size) ≡ at + size = omega (arith, hi, fits) in
          rw (some_bytes, sum) (omega (arith, lo), omega (arith, hi), λ h. (lo, refl, page))
    ]
