-- ===== src/Symtab/Resize.antt =====
-- A resize moves every key to the larger table, and sets off no other resize.
use assembler_project.Base.{
  ℕ, zero, suc, ◌+◌, ◌*◌, ◌≤◌, ◌≡◌, refl, sym, ap, ◌∙◌, ◌⊎◌, inl, inr, false, Option, none, some,
  [], ◌∷◌, arith, if◌then◌else◌, Bool-cases, length, replicate, length-replicate, All,
}
use assembler_project.Base.Int.{ℤ}
use assembler_project.Ir.Entry.{Label}
use assembler_project.Symtab.{
  Symtab, hash, chain_at, place, insert_nested, is_full, move_chain, move_table, resize_symtab,
}
use assembler_project.Symtab.Buckets.{IsPlaced, Updates, view, entries}
use assembler_project.Symtab.Flat.{
  flat, move_table-flat, length-flat, Only, find-flat, Distinct-flat,
}
use assembler_project.Symtab.Nodes.{Chain, find, str_eq, str_eq_iff, Distinct, find_congr, first_of}
use assembler_project.Symtab.Place.{place-eq, insert_nested-place}
use assembler_project.Symtab.Primes.{find_next_prime}
use mathlib.Core.Option.{some-ne-none}

-- `t'` holds the pairs of `t` and those of `c`.
record Moved (c : Chain) (t t' : Symtab) : Type 0 where
  size : t'.size ≡ t.size
  placed : IsPlaced t'
  count : t'.count ≡ t.count + length c
  reads : (q : Label) → view t' q ≡ first_of (view t q) (find q c)
  plain : t' ≡ move_chain place c t

-- No key of `c` is in `t`.
abbrev Fresh : Chain → Symtab → Type 0
Fresh c t = (q : Label) → (find q c ≡ none) ⊎ (view t q ≡ none)

Fresh-head : (e : Label × ℤ) (c : Chain) (t : Symtab) → Fresh (e ∷ c) t → view t e.0 ≡ none
unfolding find
Fresh-head e c t fresh = elim (fresh e.0) [
  | inl gone ↦ absurd (some-ne-none _ (rw ((str_eq_iff e.0 e.0).1 refl) at gone))
  | inr absent ↦ absent
]

Fresh-rest :
    (e : Label × ℤ) (c : Chain) (t t' : Symtab)
    → Fresh (e ∷ c) t
    → find e.0 c ≡ none
    → Updates e.0 (some e.1) t t'
    → Fresh c t'
unfolding find
Fresh-rest e c t t' fresh once u = λ q. elim (Bool-cases (str_eq e.0 q)) [
  | inl same ↦ inl (find_congr e.0 q c same ∙ once)
  | inr other ↦ elim (fresh q) [
    | inl gone ↦ inl (rw other at gone)
    | inr absent ↦ inr (u.reads q ∙ rw other absent)
  ]
]

both_read :
    (e : Label × ℤ) (c : Chain) (t : Symtab) (q : Label)
    → view t e.0 ≡ none
    → first_of (if str_eq e.0 q then some e.1 else view t q) (find q c)
      ≡ first_of (view t q) (find q (e ∷ c))
unfolding find
both_read e c t q absent = elim (Bool-cases (str_eq e.0 q)) [
  | inl same ↦
      let gone : view t q ≡ none =
        ap (λ (l : Label). view t l) (sym ((str_eq_iff e.0 q).0 same)) ∙ absent in
      rw (same, gone) refl
  | inr other ↦ rw other refl
]

move_chain-Moved :
    (depth : ℕ) (sqrt : ℕ → ℕ) (c : Chain) (t : Symtab)
    → IsPlaced t
    → 2 * (t.count + length c) ≤ t.size + 1
    → Distinct c
    → Fresh c t
    → Moved c t (move_chain (insert_nested (suc depth) sqrt) c t)
unfolding move_chain find
move_chain-Moved depth sqrt [] t p room d fresh = record {
  size = refl;
  placed = p;
  count = omega arith;
  reads = λ q. ground arith;
  plain = refl;
}
move_chain-Moved depth sqrt (e ∷ c) t p room (once, d) fresh =
    let spare : is_full t ≡ false = ground arith in
    let absent = Fresh-head e c t fresh in
    let step = insert_nested-place depth sqrt e.0 e.1 t spare in
    elim (place-eq e.0 e.1 t p) [
      | inr (x, found, _) ↦ absurd (some-ne-none x (sym found ∙ absent))
      | inl added ↦
          let u = added.updates in
          let t1 = (place e.0 e.1 t).1 in
          let rest =
            move_chain-Moved depth sqrt c t1 u.placed (omega (arith, added.count, u.size, room)) d
              (Fresh-rest e c t t1 fresh once u) in
          rw step (record {
            size = rest.size ∙ u.size;
            placed = rest.placed;
            count = omega (arith, rest.count, added.count);
            reads = λ q.
                rest.reads q
                ∙ ap (λ (o : Option ℤ). first_of o (find q c)) (u.reads q)
                ∙ both_read e c t q absent;
            plain = rest.plain;
          })
    ]

chain_at-replicate : (n i : ℕ) → chain_at (replicate n []) i ≡ []
chain_at-replicate zero i = refl
chain_at-replicate (suc n) zero = refl
chain_at-replicate (suc n) (suc i) = chain_at-replicate n i

entries-replicate : (n : ℕ) → entries (replicate n []) ≡ 0
entries-replicate zero = refl
entries-replicate (suc n) = omega (arith, entries-replicate n)

Distinct-replicate : (n : ℕ) → All Distinct (replicate n [])
Distinct-replicate zero = tt
Distinct-replicate (suc n) = (tt, Distinct-replicate n)

abbrev pub empty_table : ℕ → Symtab
empty_table n = record { table = replicate n []; count = 0; size = n }

pub empty_table_reads : (n : ℕ) (q : Label) → view (empty_table n) q ≡ none
unfolding find
empty_table_reads n q = rw (chain_at-replicate n (hash q n)) refl

pub empty_table-IsPlaced : (n : ℕ) → 2 ≤ n → IsPlaced (empty_table n)
unfolding find
empty_table-IsPlaced n h = record {
  room = h;
  sized = length-replicate n [];
  counted = entries-replicate n;
  home = λ q i away. rw (chain_at-replicate n i) refl;
  distinct = Distinct-replicate n;
}

-- The same map in a table of another size, reached with no test of the load on the way.
pub record Grown (sqrt : ℕ → ℕ) (t t' : Symtab) : Type 0 where
  pub size : t'.size ≡ find_next_prime sqrt (t.size * 2)
  pub placed : IsPlaced t'
  pub count : t'.count ≡ t.count
  pub reads : (q : Label) → view t' q ≡ view t q
  pub plain : t' ≡ move_table place t.table (empty_table (find_next_prime sqrt (t.size * 2)))

pub resize_symtab-Grown :
    (depth : ℕ) (sqrt : ℕ → ℕ) (t : Symtab)
    → IsPlaced t
    → 2 * t.count ≤ t.size + 1
    → t.size * 2 ≤ find_next_prime sqrt (t.size * 2)
    → Grown sqrt t (resize_symtab (insert_nested (suc depth) sqrt) sqrt t)
unfolding resize_symtab find
resize_symtab-Grown depth sqrt t p sparse bigger =
    let n = find_next_prime sqrt (t.size * 2) in
    let insert = insert_nested (suc depth) sqrt in
    let only : Only (λ (q : Label). hash q t.size) 0 t.table =
      λ q i away. p.home q i (λ e. away (omega (arith, e))) in
    let moved =
      move_chain-Moved depth sqrt (flat t.table) (empty_table n)
        (empty_table-IsPlaced n (omega (arith, p.room)))
        (omega (arith, length-flat t.table, p.counted))
        (Distinct-flat (λ (q : Label). hash q t.size) 0 t.table only p.distinct)
        (λ q. inr (empty_table_reads n q)) in
    rw (move_table-flat insert t.table (empty_table n)) (record {
      size = moved.size;
      placed = moved.placed;
      count = omega (arith, moved.count, length-flat t.table, p.counted);
      reads = λ q.
          moved.reads q
          ∙ ap (λ (o : Option ℤ). first_of o (find q (flat t.table))) (empty_table_reads n q)
          ∙ find-flat (λ (l : Label). hash l t.size) 0 (hash q t.size) t.table q only (omega arith);
      plain = moved.plain ∙ sym (move_table-flat place t.table (empty_table n));
    })
