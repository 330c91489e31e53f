-- ===== src/Out/Elf/Write.antt =====
-- `write_at` (Assembler/src/out.c) and sequences of it. `Stdio` is the C library's: how many of the
-- bytes `fwrite` takes at an offset, the position that `ftello` tells, and whether `fseeko` succeeds.
-- A write behind the end of the file fills the gap with zeros.
use assembler_project.Base.{
  ℕ, zero, suc, ◌+◌, Bool, true, false, Option, none, some, List, [], ◌∷◌, ◌==◌, if◌then◌else◌,
  length,
}
use assembler_project.Out.{take}

pub record Stdio : Type 0 where
  pub fwrite : List ℕ → ℕ → List ℕ → ℕ
  pub ftello : List ℕ → Option ℕ
  pub fseeko : List ℕ → ℕ → Bool

abbrev pub store_byte : List ℕ → ℕ → ℕ → List ℕ
store_byte [] zero b = b ∷ []
store_byte [] (suc i) b = 0 ∷ store_byte [] i b
store_byte (x ∷ xs) zero b = b ∷ xs
store_byte (x ∷ xs) (suc i) b = x ∷ store_byte xs i b

abbrev pub store : List ℕ → ℕ → List ℕ → List ℕ
store f off [] = f
store f off (b ∷ bs) = store (store_byte f off b) (suc off) bs

abbrev pub drop : ℕ → List ℕ → List ℕ
drop zero xs = xs
drop (suc n) [] = []
drop (suc n) (x ∷ xs) = drop n xs

abbrev pub is_empty : List ℕ → Bool
is_empty [] = true
is_empty (b ∷ bs) = false

-- The loop over the bytes that are left. Each turn that goes on takes one at least.
unfoldable pub write_loop : ℕ → Stdio → ℕ → List ℕ → List ℕ → Bool × List ℕ
write_loop zero io off bytes f = (is_empty bytes, f)
write_loop (suc turns) io off bytes f =
    let wrote = io.fwrite f off bytes in
    let f' = store f off (take wrote bytes) in
    let rest = write_loop turns io (off + wrote) (drop wrote bytes) f' in
    if is_empty bytes then (true, f) else if wrote == 0 then (false, f') else rest

abbrev pub back_to : Stdio → ℕ → Bool × List ℕ → Bool × List ℕ
back_to io cur r = (if r.0 then io.fseeko r.1 cur else false, r.1)

abbrev pub from_cur : Stdio → ℕ → List ℕ → List ℕ → Option ℕ → Bool × List ℕ
from_cur io off bytes f none = (false, f)
from_cur io off bytes f (some cur) =
    if io.fseeko f off
    then back_to io cur (write_loop (length bytes) io off bytes f)
    else (false, f)

-- Called with a file and a buffer that are not NULL.
unfoldable pub write_at : Stdio → List ℕ → ℕ → List ℕ → Bool × List ℕ
unfolding write_loop
write_at io f off bytes = from_cur io off bytes f (io.ftello f)

-- The writes in order, up to the first that fails.
unfoldable pub write_all : Stdio → List (ℕ × List ℕ) → List ℕ → Bool × List ℕ
unfolding write_at
write_all io [] f = (true, f)
write_all io (w ∷ ws) f =
    let r = write_at io f w.0 w.1 in let rest = write_all io ws r.1 in if r.0 then rest else r
