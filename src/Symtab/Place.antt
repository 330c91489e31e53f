-- ===== src/Symtab/Place.antt =====
-- `insert_sym` behind its test of the load: a new key is added, an old one refused.
use assembler_project.Base.{
  ℕ, suc, ◌+◌, ◌≡◌, refl, ap, ◌⊎◌, inl, inr, Bool, true, false, none, some, [], ◌∷◌, ◌++◌, arith,
  if◌then◌else◌, Bool-cases, length-append,
}
use assembler_project.Base.Int.{ℤ}
use assembler_project.Ir.Entry.{Label}
use assembler_project.Symtab.{Symtab, hash, chain_at, place, insert_nested, is_full, resize_symtab}
use assembler_project.Symtab.Buckets.{IsPlaced, Updates, set-Updates, view, Distinct-chain_at}
use assembler_project.Symtab.Nodes.{
  Chain, find, str_eq, str_eq_iff, Distinct-append, insert_node-eq, find-append,
}

append_reads :
    (k : Label) (v : ℤ) (c : Chain) (q : Label)
    → find k c ≡ none
    → find q (c ++ (k, v) ∷ []) ≡ (if str_eq k q then some v else find q c)
unfolding find
append_reads k v c q absent = elim (Bool-cases (str_eq k q)) [
  | inl same ↦
      let gone : find q c ≡ none = rw (← (str_eq_iff k q).0 same) absent in
      rw (find-append q c ((k, v) ∷ []), gone, same) refl
  | inr other ↦ rw (find-append q c ((k, v) ∷ []), other) (ground arith)
]

-- The three outcomes that matter: what the table says of the key, the verdict, and the new table.
pub record Added (k : Label) (v : ℤ) (t : Symtab) (r : Bool × Symtab) : Type 0 where
  pub absent : view t k ≡ none
  pub verdict : r.0 ≡ true
  pub count : r.1.count ≡ t.count + 1
  pub updates : Updates k (some v) t r.1

pub place-eq :
    (k : Label) (v : ℤ) (t : Symtab)
    → IsPlaced t
    → Added k v t (place k v t) ⊎ ((x : ℤ) × (view t k ≡ some x) × (place k v t ≡ (false, t)))
unfolding place
place-eq k v t p =
    let c = chain_at t.table (hash k t.size) in
    elim (insert_node-eq k v c) [
      | inl (absent, grown) ↦ inl (
          rw (grown, place)
            (record {
              absent = absent;
              verdict = refl;
              count = refl;
              updates =
                  set-Updates k (some v) t (c ++ (k, v) ∷ []) (t.count + 1) p
                    (omega (arith, length-append c ((k, v) ∷ [])))
                    (Distinct-append k v c absent
                      (Distinct-chain_at t.table (hash k t.size) p.distinct))
                    (λ q. append_reads k v c q absent);
            }))
      | inr (x, found, refused) ↦ inr (x, found, rw (refused, place) refl)
    ]

pub insert_nested-place :
    (depth : ℕ) (sqrt : ℕ → ℕ) (k : Label) (v : ℤ) (t : Symtab)
    → is_full t ≡ false
    → insert_nested (suc depth) sqrt k v t ≡ place k v t
unfolding insert_nested
insert_nested-place depth sqrt k v t room =
    ap (λ (b : Bool). place k v (if b then resize_symtab (insert_nested depth sqrt) sqrt t else t))
      room
