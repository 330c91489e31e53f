-- ===== src/Symtab/Flat.antt =====
-- The nodes of all chains as one chain, in the order in which `resize_symtab` moves them.
use assembler_project.Base.{
  ℕ, zero, suc, ◌+◌, ◌<◌, ◌≡◌, refl, sym, ◌∙◌, ◌≢◌, ◌⊎◌, inl, inr, Bool, none, List, [], ◌∷◌, ◌++◌,
  arith, ◌==◌, Bool-cases, length, length-append, All,
}
use assembler_project.Base.Int.{ℤ}
use assembler_project.Ir.Entry.{Label}
use assembler_project.Symtab.{Symtab, chain_at, move_chain, move_table}
use assembler_project.Symtab.Buckets.{entries}
use assembler_project.Symtab.Nodes.{Chain, find, str_eq_iff, Distinct, find-append}

-- All nodes in the order of the loops.
abbrev pub flat : List Chain → Chain
flat [] = []
flat (c ∷ bs) = c ++ flat bs

move_chain-append :
    (insert : Label → ℤ → Symtab → Bool × Symtab) (a b : Chain) (t : Symtab)
    → move_chain insert (a ++ b) t ≡ move_chain insert b (move_chain insert a t)
unfolding move_chain
move_chain-append insert [] b t = refl
move_chain-append insert (e ∷ a) b t = move_chain-append insert a b (insert e.0 e.1 t).1

pub move_table-flat :
    (insert : Label → ℤ → Symtab → Bool × Symtab) (bs : List Chain) (t : Symtab)
    → move_table insert bs t ≡ move_chain insert (flat bs) t
unfolding move_table move_chain
move_table-flat insert [] t = refl
move_table-flat insert (c ∷ bs) t =
    move_table-flat insert bs (move_chain insert c t) ∙ sym (move_chain-append insert c (flat bs) t)

pub length-flat : (bs : List Chain) → length (flat bs) ≡ entries bs
length-flat [] = refl
length-flat (c ∷ bs) = omega (arith, length-append c (flat bs), length-flat bs)

-- A key stands only in the chain of its place `h`, counted from `off` on.
abbrev pub Only : (Label → ℕ) → ℕ → List Chain → Type 0
Only h off bs = (q : Label) (i : ℕ) → h q ≢ i + off → find q (chain_at bs i) ≡ none

Only-rest :
    (h : Label → ℕ) (off : ℕ) (c : Chain) (bs : List Chain)
    → Only h off (c ∷ bs)
    → Only h (suc off) bs
Only-rest h off c bs only q i away = only q (suc i) (λ e. away (omega (arith, e)))

find-flat_absent :
    (h : Label → ℕ) (off : ℕ) (bs : List Chain) (q : Label)
    → Only h off bs
    → h q < off
    → find q (flat bs) ≡ none
unfolding find
find-flat_absent h off [] q only before = refl
find-flat_absent h off (c ∷ bs) q only before =
    let here : find q c ≡ none = only q 0 (λ e. omega (arith, e, before)) in
    rw (find-append q c (flat bs), here)
      (find-flat_absent h (suc off) bs q (Only-rest h off c bs only) (omega arith))

pub find-flat :
    (h : Label → ℕ) (off i : ℕ) (bs : List Chain) (q : Label)
    → Only h off bs
    → h q ≡ i + off
    → find q (flat bs) ≡ find q (chain_at bs i)
unfolding find
find-flat h off i [] q only at = refl
find-flat h off zero (c ∷ bs) q only at =
    let later = find-flat_absent h (suc off) bs q (Only-rest h off c bs only) (omega (arith, at)) in
    rw (find-append q c (flat bs), later) (ground arith)
find-flat h off (suc i) (c ∷ bs) q only at =
    let here : find q c ≡ none = only q 0 (λ e. omega (arith, e, at)) in
    rw (find-append q c (flat bs), here)
      (find-flat h (suc off) i bs q (Only-rest h off c bs only) (omega (arith, at)))

Distinct-join :
    (a b : Chain)
    → Distinct a
    → Distinct b
    → ((q : Label) → (find q a ≡ none) ⊎ (find q b ≡ none))
    → Distinct (a ++ b)
unfolding find
Distinct-join [] b da db apart = db
Distinct-join (e ∷ a) b (fresh, da) db apart = (
  rw (find-append e.0 a b, fresh)
      (elim (apart e.0) [
        | inl no_key ↦ ground (arith, no_key, str_eq_iff e.0 e.0)
        | inr absent ↦ absent
      ]),
  Distinct-join a b da db
      (λ q. elim (apart q) [ inl gone ↦ inl (ground (arith, gone)) | inr absent ↦ inr absent ]),
)

pub Distinct-flat :
    (h : Label → ℕ) (off : ℕ) (bs : List Chain)
    → Only h off bs
    → All Distinct bs
    → Distinct (flat bs)
Distinct-flat h off [] only ds = tt
Distinct-flat h off (c ∷ bs) only (d, ds) =
    let rest = Only-rest h off c bs only in
    Distinct-join c (flat bs) d (Distinct-flat h (suc off) bs rest ds) λ q.
      elim (Bool-cases (h q == off)) [
        | inl here ↦ inr (find-flat_absent h (suc off) bs q rest (ground arith))
        | inr away ↦ inl (only q 0 (λ e. ground arith))
      ]
