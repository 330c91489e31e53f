-- ===== src/Out/Elf/Ends.antt =====
-- `out_finish` succeeds where the C library's calls do.
use assembler_project.Base.{
  ℕ, zero, suc, ◌+◌, ◌≤◌, ◌≡◌, refl, sym, ap, ◌∙◌, inl, inr, true, false, Option, some, List, [],
  ◌∷◌, arith, ◌==◌, Bool-cases, length,
}
use assembler_project.Out.{Out, OutFormat, out_elf, out_raw, take}
use mathlib.Core.Bool.{false≢true}
use assembler_project.Out.Elf.{elf_writes, finish, finish_elf, out_finish, is_some}
use assembler_project.Out.Elf.Planned.{plan}
use assembler_project.Out.Elf.Kept.{IsStdio, length-take-drop}
use assembler_project.Out.Elf.Pieces.{Piece}
use assembler_project.Out.Elf.Write.{Stdio, store, drop, write_loop, write_at, write_all, is_empty}

-- `fwrite` takes a byte at least where there is one, and the position can be told and set.
pub record IsWorking (io : Stdio) : Type 0 where
  pub takes : IsStdio io
  pub some_byte :
      (f : List ℕ) (off : ℕ) (bytes : List ℕ) → 1 ≤ length bytes → 1 ≤ io.fwrite f off bytes
  pub tells : (f : List ℕ) → (cur : ℕ) × (io.ftello f ≡ some cur)
  pub seeks : (f : List ℕ) (off : ℕ) → io.fseeko f off ≡ true

is_empty-length :
    (bytes : List ℕ)
    → (is_empty bytes ≡ false → 1 ≤ length bytes) × (length bytes ≡ 0 → is_empty bytes ≡ true)
is_empty-length [] = (λ h. absurd (false≢true (sym h)), λ h. refl)
is_empty-length (b ∷ bs) = (λ h. omega arith, λ h. absurd (omega (arith, h)))

write_loop-ends :
    (turns : ℕ) (io : Stdio) (off : ℕ) (bytes f : List ℕ)
    → IsWorking io
    → length bytes ≤ turns
    → (write_loop turns io off bytes f).0 ≡ true
unfolding write_loop
write_loop-ends zero io off bytes f w enough = (is_empty-length bytes).1 (omega arith)
write_loop-ends (suc turns) io off bytes f w enough = elim (Bool-cases (is_empty bytes)) [
  | inl done ↦ rw done refl
  | inr left ↦
      let wrote = io.fwrite f off bytes in
      let one : 1 ≤ wrote = w.some_byte f off bytes ((is_empty-length bytes).0 left) in
      let (t, d) = length-take-drop wrote bytes (w.takes f off bytes) in
      let some_bytes : (wrote == 0) ≡ false = ground (arith, one) in
      rw (left, some_bytes)
        (write_loop-ends turns io (off + wrote) (drop wrote bytes) (store f off (take wrote bytes))
          w (omega (arith, d, one, enough)))
]

write_at-ends :
    (io : Stdio) (f : List ℕ) (off : ℕ) (bytes : List ℕ)
    → IsWorking io
    → (write_at io f off bytes).0 ≡ true
unfolding write_at
write_at-ends io f off bytes w =
    let (cur, told) = w.tells f in
    let loop = write_loop-ends (length bytes) io off bytes f w (omega arith) in
    let back = w.seeks (write_loop (length bytes) io off bytes f).1 cur in
    rw (told, w.seeks f off, loop, back) refl

write_all-ends :
    (io : Stdio) (ws : List Piece) (f : List ℕ) → IsWorking io → (write_all io ws f).0 ≡ true
unfolding write_all
write_all-ends io [] f w = refl
write_all-ends io (v ∷ ws) f w =
    rw (write_at-ends io f v.0 v.1 w) (write_all-ends io ws (write_at io f v.0 v.1).1 w)

-- Where the calls of the C library work, `out_finish` ends with success for a file that is set,
-- whatever the sections and however few bytes each write takes.
pub out_finish-ends :
    (io : Stdio) (entry_addr : ℕ) (g : Out) (f : List ℕ)
    → g.fp ≡ some f
    → IsWorking io
    → (out_finish io entry_addr g).0 ≡ true
unfolding out_finish
out_finish-ends io entry_addr g f file w = go g.fmt
  where
    go : (m : OutFormat) → (finish m io entry_addr g).0 ≡ true
    go out_raw = ap is_some file
    go out_elf =
        let is64 = g.xlen == 64 in
        let ws = elf_writes is64 entry_addr g (plan is64 (length g.text) (length g.data_bytes)) in
        ap (λ (o : Option (List ℕ)). (finish_elf io entry_addr g o).0) file
        ∙ write_all-ends io ws f w
