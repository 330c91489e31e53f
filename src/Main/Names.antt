-- ===== src/Main/Names.antt =====
-- The name of the output, derived from the name of the input.
use assembler_project.Base.{
  ℕ, suc, ◌≡◌, refl, ap, ◌≢◌, true, false, none, some, [], ◌∷◌, ◌++◌, arith, ◌==◌, length, All,
}
use assembler_project.Ir.Entry.{Label}
use assembler_project.Main.{strrchr, derive_output_name, extension}
use assembler_project.Out.{OutFormat, take}
use assembler_project.Out.Elf.Write.{drop}

-- The byte does not occur.
abbrev pub Lacks : ℕ → Label → Type 0
Lacks c xs = All (λ (x : ℕ). x ≢ c) xs

strrchr-none : (xs : Label) (c : ℕ) → Lacks c xs → strrchr xs c ≡ none
strrchr-none [] c h = refl
strrchr-none (x ∷ xs) c (other, h) =
    let miss : (x == c) ≡ false = ground (arith, other) in rw (strrchr-none xs c h, miss) refl

strrchr-last : (a b : Label) (c : ℕ) → Lacks c b → strrchr (a ++ c ∷ b) c ≡ some (length a)
strrchr-last [] b c h =
    let hit : (c == c) ≡ true = ground arith in rw (strrchr-none b c h, hit) refl
strrchr-last (x ∷ a) b c h = rw (strrchr-last a b c h) refl

drop-append : (a b : Label) (c : ℕ) → drop (suc (length a)) (a ++ c ∷ b) ≡ b
drop-append [] b c = refl
drop-append (x ∷ a) b c = drop-append a b c

take-append : (a b : Label) → take (length a) (a ++ b) ≡ a
take-append [] b = refl
take-append (x ∷ a) b = ap (λ (r : Label). x ∷ r) (take-append a b)

-- From a path with a directory, whose file's name has something before its last '.', the output's name
-- is the file's name with the new extension in place of the suffix.
pub derive_output_name-suffix :
    (dir stem suffix : Label) (first : ℕ) (fmt : OutFormat)
    → Lacks b'/' (first ∷ (stem ++ b'.' ∷ suffix))
    → Lacks b'.' suffix
    → derive_output_name (dir ++ b'/' ∷ (first ∷ (stem ++ b'.' ∷ suffix))) fmt
      ≡ first ∷ (stem ++ extension fmt)
unfolding derive_output_name
derive_output_name-suffix dir stem suffix first fmt no_slash no_dot =
    let base = first ∷ (stem ++ b'.' ∷ suffix) in
    let name = first ∷ stem in
    rw
      (
        strrchr-last dir base b'/' no_slash,
        drop-append dir base b'/',
        strrchr-last name suffix b'.' no_dot,
      )
      (ap (λ (r : Label). r ++ extension fmt) (take-append name (b'.' ∷ suffix)))
