-- ===== src/Symtab/Methods.antt =====
-- The operations of the table against a map from labels to optional values.
use assembler_project.Base.{
  ℕ, zero, suc, ◌+◌, ◌-◌, ◌*◌, ◌≤◌, ◌<◌, ◌≡◌, refl, sym, ap, ◌∙◌, inl, inr, Bool, true, false, not,
  Option, none, some, List, [], ◌∷◌, arith, if◌then◌else◌, Bool-cases, length, replicate,
}
use assembler_project.Base.Int.{ℤ, negsuc}
use assembler_project.Ir.Entry.{Label}
use assembler_project.Symtab.{
  Symtab, create_symtab, hash, chain_at, place, insert_nested, insert_sym, search_sym, remove_sym,
  remove_all_sym, clear_from, is_full, resize_symtab,
}
use assembler_project.Symtab.Buckets.{
  IsPlaced, view, entries-set, fits_table, set-Updates, Distinct-chain_at,
}
use assembler_project.Symtab.Nodes.{Chain, str_eq, str_eq_iff, remove_node-eq}
use assembler_project.Symtab.Place.{place-eq}
use assembler_project.Symtab.Primes.Trial.{IsSqrt}
use assembler_project.Symtab.Primes.Euclid.{find_next_prime_lem}
use assembler_project.Symtab.Resize.{
  empty_table, empty_table_reads, empty_table-IsPlaced, Grown, resize_symtab-Grown,
}
use mathlib.Core.Path.{fun_ext}

-- Chains as they must be, and a load that `insert_sym` reaches at most.
pub record IsValid (t : Symtab) : Type 0 where
  pub placed : IsPlaced t
  pub sparse : 2 * t.count ≤ t.size + 1

-- The abstract table.
abbrev pub Map : Type 0
Map = Label → Option ℤ

abbrev pub is_there : Option ℤ → Bool
is_there none = false
is_there (some v) = true

abbrev pub put : Label → Option ℤ → Map → Map
put k v m q = if str_eq k q then v else m q

-- A key that is there is not overwritten.
abbrev pub map_insert : Label → ℤ → Map → Bool × Map
map_insert k v m = (not (is_there (m k)), if is_there (m k) then m else put k (some v) m)

abbrev pub map_remove : Label → Map → Bool × Map
map_remove k m = (is_there (m k), put k none m)

abbrev pub map_search : Label → Map → ℤ
map_search k m = elim (m k) [ some v ↦ v | none ↦ negsuc 0 ]

-- A table and a verdict that stand for a map and a verdict.
pub record Refines (r : Bool × Symtab) (s : Bool × Map) : Type 0 where
  pub valid : IsValid r.1
  pub verdict : r.0 ≡ s.0
  pub reads : (q : Label) → view r.1 q ≡ s.1 q

place-Refines :
    (k : Label) (v : ℤ) (t : Symtab)
    → IsPlaced t
    → 2 * t.count < t.size
    → Refines (place k v t) (map_insert k v (view t))
place-Refines k v t p room = elim (place-eq k v t p) [
  | inl added ↦ record {
    valid = record {
      placed = added.updates.placed;
      sparse = omega (arith, added.count, added.updates.size, room);
    };
    verdict = rw (added.absent, added.verdict) refl;
    reads = λ q. added.updates.reads q ∙ rw added.absent refl;
  }
  | inr (x, found, same) ↦ rw same (record {
    valid = record { placed = p; sparse = omega (arith, room) };
    verdict = rw found refl;
    reads = λ q. rw found refl;
  })
]

-- The map that a grown table stands for is the old one.
regrown-Refines :
    (k : Label) (v : ℤ) (r : Bool × Symtab) (t t' : Symtab)
    → ((q : Label) → view t' q ≡ view t q)
    → Refines r (map_insert k v (view t'))
    → Refines r (map_insert k v (view t))
regrown-Refines k v r t t' same h = record {
  valid = h.valid;
  verdict = h.verdict ∙ ap (λ (o : Option ℤ). not (is_there o)) (same k);
  reads = λ q. h.reads q ∙ ap {B = Option ℤ} (λ (m : Map). (map_insert k v m).1 q) (fun_ext same);
}

grown :
    (sqrt : ℕ → ℕ) (t : Symtab)
    → IsSqrt sqrt
    → IsValid t
    → (depth : ℕ) → Grown sqrt t (resize_symtab (insert_nested (suc depth) sqrt) sqrt t)
grown sqrt t root valid depth =
    resize_symtab-Grown depth sqrt t valid.placed valid.sparse
      ((find_next_prime_lem sqrt (t.size * 2) root).1)

-- A new label is stored and an old one refused, whether or not the table grows on the way.
pub insert_sym-Refines :
    (sqrt : ℕ → ℕ) (k : Label) (v : ℤ) (t : Symtab)
    → IsSqrt sqrt
    → IsValid t
    → Refines (insert_sym sqrt k v t) (map_insert k v (view t))
unfolding insert_sym insert_nested
insert_sym-Refines sqrt k v t root valid = elim (Bool-cases (is_full t)) [
  | inl full ↦
      let g = grown sqrt t root valid 0 in
      let t' = resize_symtab (insert_nested 1 sqrt) sqrt t in
      let bigger = (find_next_prime_lem sqrt (t.size * 2) root).1 in
      let room : 2 * t'.count < t'.size =
        omega (arith, g.count, g.size, bigger, valid.sparse, valid.placed.room) in
      rw full (regrown-Refines k v (place k v t') t t' g.reads (place-Refines k v t' g.placed room))
  | inr spare ↦ rw spare (place-Refines k v t valid.placed (ground arith))
]

-- On a valid table, with the square root of the C library, a third level of nested calls is never
-- reached: more depth gives the same table and verdict.
pub insert_nested-depth :
    (sqrt : ℕ → ℕ) (k : Label) (v : ℤ) (t : Symtab) (depth : ℕ)
    → IsSqrt sqrt
    → IsValid t
    → insert_nested (2 + depth) sqrt k v t ≡ insert_sym sqrt k v t
unfolding insert_sym
insert_nested-depth sqrt k v t depth root valid =
    let two : 2 + depth ≡ suc (suc depth) = omega arith in
    let same = (grown sqrt t root valid depth).plain ∙ sym (grown sqrt t root valid 0).plain in
    rw two
      (unfold insert_nested in ap (λ (t' : Symtab). place k v (if is_full t then t' else t)) same)

pub search_sym-eq : (k : Label) (t : Symtab) → search_sym t k ≡ map_search k (view t)
unfolding search_sym
search_sym-eq k t = refl

pub remove_sym-Refines :
    (k : Label) (t : Symtab) → IsValid t → Refines (remove_sym k t) (map_remove k (view t))
unfolding remove_sym
remove_sym-Refines k t valid =
    let p = valid.placed in
    let i = hash k t.size in
    let c = chain_at t.table i in
    elim (remove_node-eq k c (Distinct-chain_at t.table i p.distinct)) [
      | inl (absent, kept) ↦
          rw (kept, remove_sym)
            (record {
              valid = valid;
              verdict = rw absent refl;
              reads = λ q. elim (Bool-cases (str_eq k q)) [
                | inl same ↦
                    let e : k ≡ q = (str_eq_iff k q).0 same in
                    rw same (ap (λ (l : Label). view t l) (sym e) ∙ absent)
                | inr other ↦ rw other refl
              ];
            })
      | inr (x, found, (c', cut, r)) ↦
          let size = entries-set t.table i c' (fits_table k t p) in
          let u =
            set-Updates k none t c' (t.count - 1) p (omega (arith, size, r.length, p.counted))
              r.distinct r.reads in
          rw (cut, remove_sym)
            (record {
              valid = record { placed = u.placed; sparse = omega (arith, valid.sparse) };
              verdict = rw found refl;
              reads = u.reads;
            })
    ]

clear_from-replicate : (bs : List Chain) (n : ℕ) → length bs ≡ n → clear_from n bs ≡ replicate n []
unfolding clear_from
clear_from-replicate [] zero h = refl
clear_from-replicate [] (suc n) h = absurd (omega (arith, h))
clear_from-replicate (b ∷ bs) zero h = absurd (omega (arith, h))
clear_from-replicate (b ∷ bs) (suc n) h =
    ap (λ (r : List Chain). [] ∷ r) (clear_from-replicate bs n (omega (arith, h)))

empty_table-IsValid : (n : ℕ) → 2 ≤ n → IsValid (empty_table n)
empty_table-IsValid n h = record { placed = empty_table-IsPlaced n h; sparse = omega arith }

pub remove_all_sym-Refines :
    (t : Symtab) → IsValid t → Refines (true, remove_all_sym t) (true, λ (q : Label). none)
unfolding remove_all_sym
remove_all_sym-Refines t valid =
    rw (clear_from-replicate t.table t.size valid.placed.sized) (record {
      valid = empty_table-IsValid t.size valid.placed.room;
      verdict = refl;
      reads = empty_table_reads t.size;
    })

pub create_symtab-Refines : Refines (true, create_symtab) (true, λ (q : Label). none)
unfolding create_symtab
create_symtab-Refines = record {
  valid = empty_table-IsValid 53 (omega arith);
  verdict = refl;
  reads = empty_table_reads 53;
}
