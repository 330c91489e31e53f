-- ===== src/Ir/Capacity.antt =====
-- The growth of the IR buffer (Assembler/src/ir.c, `ensure_capacity`). A `size_t` has 64 bits; the
-- allocation succeeds.
use assembler_project.Base.{
  ℕ, zero, suc, ◌+◌, ◌*◌, ◌^◌, ◌≤◌, ◌<◌, ◌≡◌, refl, ap, ◌⊎◌, inl, inr, arith, ltb, leb, ◌==◌,
  if◌then◌else◌, Bool-cases,
}
use assembler_project.Base.Word.{u64}
use native.Mathlib.Nat.{pow-suc}

-- `while (len + need > new_cap) new_cap *= 2;` with the turns that are left
unfoldable pub doubled : ℕ → ℕ → ℕ → ℕ
doubled zero wanted new_cap = new_cap
doubled (suc turns) wanted new_cap =
    let more = doubled turns wanted (u64 (new_cap * 2)) in
    if ltb new_cap wanted then more else new_cap

-- The capacity after the call. 64 turns are enough for what fits in half of the address space.
unfoldable pub ensure_capacity : ℕ → ℕ → ℕ → ℕ
ensure_capacity len cap need =
    if leb (len + need) cap then cap else doubled 64 (len + need) (if cap == 0 then 128 else cap)

doubled-enough :
    (turns wanted new_cap : ℕ)
    → 1 ≤ new_cap
    → wanted ≤ 2 ^ 63
    → wanted ≤ new_cap * 2 ^ turns
    → (wanted ≤ doubled turns wanted new_cap)
      × ((doubled turns wanted new_cap ≡ new_cap) ⊎ (doubled turns wanted new_cap ≤ 2 * wanted))
unfolding doubled
doubled-enough zero wanted new_cap pos_cap small enough = (omega (arith, enough), inl refl)
doubled-enough (suc turns) wanted new_cap pos_cap small enough =
    elim (Bool-cases (ltb new_cap wanted)) [
      | inl short ↦
          let less : new_cap < wanted = ground arith in
          let exact : u64 (new_cap * 2) ≡ new_cap * 2 = omega (arith, less, small) in
          let pow : 2 ^ suc turns ≡ 2 ^ turns * 2 = pow-suc 2 turns in
          let room : wanted ≤ new_cap * 2 * 2 ^ turns =
            omega (arith, enough, ap {B = ℕ} (λ (t : ℕ). new_cap * t) pow) in
          let (here, bound) =
            doubled-enough turns wanted (new_cap * 2) (omega (arith, pos_cap)) small room in
          rw (short, exact)
            (
              here,
              elim bound [ inl same ↦ inr (omega (arith, same, less)) | inr twice ↦ inr twice ],
            )
      | inr long ↦ rw long (ground arith, inl refl)
    ]

summed :
    (cap wanted x : ℕ)
    → cap < wanted
    → wanted ≤ x
    → (x ≡ (if cap == 0 then 128 else cap)) ⊎ (x ≤ 2 * wanted)
    → (wanted ≤ x) × (cap ≤ x) × ((x ≤ cap) ⊎ ((x ≤ 128) ⊎ (x ≤ 2 * wanted)))
summed cap wanted x full enough bound = ground (arith, full, enough, bound)

-- After `ensure_capacity`, for up to 2^63 entries, the ones that are needed fit, the capacity has not
-- shrunk, and it is the old one, at most 128, or at most twice what is needed.
pub ensure_capacity_lem :
    (len cap need : ℕ)
    → len + need ≤ 2 ^ 63
    → (len + need ≤ ensure_capacity len cap need)
      × (cap ≤ ensure_capacity len cap need)
      × ((ensure_capacity len cap need ≤ cap)
          ⊎ ((ensure_capacity len cap need ≤ 128)
              ⊎ (ensure_capacity len cap need ≤ 2 * (len + need))))
unfolding ensure_capacity
ensure_capacity_lem len cap need small = elim (Bool-cases (leb (len + need) cap)) [
  | inl fits ↦ rw fits (ground arith, omega arith, inl (omega arith))
  | inr full ↦
      let first : ℕ = if cap == 0 then 128 else cap in
      let pos_first : 1 ≤ first = ground arith in
      let (enough, bound) =
        doubled-enough 64 (len + need) first pos_first small (omega (arith, pos_first, small)) in
      rw full (summed cap (len + need) (doubled 64 (len + need) first) (ground arith) enough bound)
]
