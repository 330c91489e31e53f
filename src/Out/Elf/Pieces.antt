-- ===== src/Out/Elf/Pieces.antt =====
-- Writes that do not overlap all stand in the file at the end.
use assembler_project.Base.{
  ℕ, ◌+◌, ◌≤◌, ◌≡◌, sym, ap, ◌∙◌, ◌⊎◌, inl, inr, Bool, true, List, [], ◌∷◌, ◌++◌, arith, Bool-cases,
  length, All,
}
use assembler_project.Out.Elf.Kept.{Has, IsApart, IsStdio, write_at-keeps, write_at-Has}
use assembler_project.Out.Elf.Write.{Stdio, write_at, write_all}
use mathlib.Core.Path.{subst}
use mathlib.Core.Bool.{false≢true}

abbrev pub Piece : Type 0
Piece = ℕ × List ℕ

abbrev Misses : Piece → Piece → Type 0
Misses w v = IsApart v.0 (length v.1) w.0 (length w.1)

abbrev pub Pairwise : List Piece → Type 0
Pairwise [] = Unit
Pairwise (w ∷ ws) = All (Misses w) ws × Pairwise ws

write_all-keeps :
    (io : Stdio) (ws : List Piece) (f : List ℕ) (w : Piece)
    → IsStdio io
    → All (Misses w) ws
    → Has f w.0 w.1
    → Has (write_all io ws f).1 w.0 w.1
unfolding write_all
write_all-keeps io [] f w lib apart h = h
write_all-keeps io (v ∷ ws) f w lib (first, apart) h =
    let kept = write_at-keeps io f v.0 v.1 w.0 w.1 lib first h in
    elim (Bool-cases (write_at io f v.0 v.1).0) [
      | inl ok ↦ rw ok (write_all-keeps io ws (write_at io f v.0 v.1).1 w lib apart kept)
      | inr failed ↦ rw failed kept
    ]

pub write_all-Has :
    (io : Stdio) (ws : List Piece) (f : List ℕ) (r : Bool × List ℕ)
    → IsStdio io
    → Pairwise ws
    → write_all io ws f ≡ r
    → r.0 ≡ true
    → All (λ (w : Piece). Has r.1 w.0 w.1) ws
unfolding write_all
write_all-Has io [] f r lib p is ok = tt
write_all-Has io (w ∷ ws) f r lib (apart, p) is ok =
    let f' = (write_at io f w.0 w.1).1 in
    elim (Bool-cases (write_at io f w.0 w.1).0) [
      | inl done ↦
          let rest : write_all io ws f' ≡ r = rw done at is in
          let kept = write_all-keeps io ws f' w lib apart (write_at-Has io f w.0 w.1 lib done) in
          (
            subst (λ (q : Bool × List ℕ). Has q.1 w.0 w.1) rest kept,
            write_all-Has io ws f' r lib p rest ok,
          )
      | inr failed ↦
          let stop : write_at io f w.0 w.1 ≡ r = rw failed at is in
          absurd (false≢true (sym failed ∙ ap (λ (q : Bool × List ℕ). q.0) stop ∙ ok))
    ]

-- Writes from `lo` up to `hi`, in any order, that do not overlap.
pub record Between (lo hi : ℕ) (ws : List Piece) : Type 0 where
  pub inside : All (λ (w : Piece). (lo ≤ w.0) × (w.0 + length w.1 ≤ hi)) ws
  pub pairwise : Pairwise ws

Misses-All :
    (w : Piece) (a b lo hi : ℕ) (ws : List Piece)
    → (lo ≤ w.0) × (w.0 + length w.1 ≤ hi)
    → (hi ≤ a) ⊎ (b ≤ lo)
    → All (λ (v : Piece). (a ≤ v.0) × (v.0 + length v.1 ≤ b)) ws
    → All (Misses w) ws
Misses-All w a b lo hi [] win away h = tt
Misses-All w a b lo hi (v ∷ ws) win away (here, h) =
    (ground (arith, win, here, away), Misses-All w a b lo hi ws win away h)

widen :
    (a b lo hi : ℕ) (ws : List Piece)
    → lo ≤ a
    → b ≤ hi
    → All (λ (v : Piece). (a ≤ v.0) × (v.0 + length v.1 ≤ b)) ws
    → All (λ (v : Piece). (lo ≤ v.0) × (v.0 + length v.1 ≤ hi)) ws
widen a b lo hi [] l h all = tt
widen a b lo hi (v ∷ ws) l h ((x, y), all) =
    ((omega (arith, x, l), omega (arith, y, h)), widen a b lo hi ws l h all)

All-both : (P : Piece → Type 0) (ws vs : List Piece) → All P ws → All P vs → All P (ws ++ vs)
All-both P [] vs p q = q
All-both P (w ∷ ws) vs (h, p) q = (h, All-both P ws vs p q)

Pairwise-both :
    (a b c d : ℕ) (ws vs : List Piece)
    → Between a b ws
    → Between c d vs
    → (b ≤ c) ⊎ (d ≤ a)
    → Pairwise (ws ++ vs)
Pairwise-both a b c d [] vs x y away = y.pairwise
Pairwise-both a b c d (w ∷ ws) vs x y away = (
  All-both (Misses w) ws vs x.pairwise.0 (Misses-All w c d a b vs x.inside.0 away y.inside),
  Pairwise-both a b c d ws vs (record { inside = x.inside.1; pairwise = x.pairwise.1 }) y away,
)

pub Between-append :
    (lo hi a b c d : ℕ) (ws vs : List Piece)
    → Between a b ws
    → Between c d vs
    → (b ≤ c) ⊎ (d ≤ a)
    → (lo ≤ a) × (lo ≤ c) × (b ≤ hi) × (d ≤ hi)
    → Between lo hi (ws ++ vs)
Between-append lo hi a b c d ws vs x y away (la, lc, bh, dh) = record {
  inside =
      All-both (λ (v : Piece). (lo ≤ v.0) × (v.0 + length v.1 ≤ hi)) ws vs
        (widen a b lo hi ws la bh x.inside) (widen c d lo hi vs lc dh y.inside);
  pairwise = Pairwise-both a b c d ws vs x y away;
}

pub Between-one :
    (lo hi : ℕ) (w : Piece) → lo ≤ w.0 → w.0 + length w.1 ≤ hi → Between lo hi (w ∷ [])
Between-one lo hi w l h = record { inside = ((l, h), tt); pairwise = (tt, tt) }
