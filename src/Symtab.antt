-- ===== src/Symtab.antt =====
-- The symbol table (Assembler/src/symtab.c): separate chaining. A function that changes the table
-- returns it, with its verdict first; memory does not run out. `sqrt` is the C library's (Primes).
pub mod Primes
pub mod Nodes
pub mod Buckets
pub mod Place
pub mod Flat
pub mod Resize
pub mod Methods
pub mod Calls
use assembler_project.Base.{
  ℕ, zero, suc, ◌+◌, ◌-◌, ◌*◌, ◌/◌, ◌%◌, ◌^◌, ◌≤◌, ◌<◌, bit_and, bit_or, ◌≡◌, refl, sym, ap, ◌∙◌,
  ◌≢◌, ◌↔◌, ◌⊎◌, inl, inr, Bool, true, false, not, ◌&&◌, ◌||◌, Option, none, some, List, [], ◌∷◌,
  ◌++◌, arith, ltb, leb, ◌==◌, ◌!=◌, if◌then◌else◌, ==_iff, Bool-cases, Option-cases, length,
  get_elem?, get_or, set, replicate, length-append, length-replicate, length-set, All,
}
use assembler_project.Base.Int.{
  ℤ, pos, negsuc, pos_part, neg_part, sub_ℕ, ◌+ℤ◌, ◌-ℤ◌, ◌≤ℤ◌, ltb_ℤ, eqb_ℤ, +ℤ_parts, -ℤ_parts,
  eq_of_parts, int_laws,
}
use assembler_project.Base.Word.{
  u8, u16, u32, u64, ◌<<◌, ◌>>◌, bits64, bits32, asr, signed, to_int32, field,
}
use assembler_project.Ir.Entry.{Label}
use assembler_project.Symtab.Nodes.{Chain, find, insert_node, remove_node}
use assembler_project.Symtab.Primes.{find_next_prime}

pub record Symtab : Type 0 where
  pub table : List Chain
  pub count : ℕ
  pub size : ℕ

unfoldable pub create_symtab : Symtab
create_symtab = record { table = replicate 53 []; count = 0; size = 53 }

-- A plain `char` is signed, and becomes an `unsigned long` in the sum.
abbrev pub char_value : ℕ → ℕ
char_value c = if ltb c 128 then c else 2 ^ 64 - 256 + c

unfoldable pub djb2 : ℕ → Label → ℕ
djb2 h [] = h
djb2 h (c ∷ cs) = djb2 (u64 (h * 33 + char_value c)) cs

unfoldable pub hash : Label → ℕ → ℕ
unfolding djb2
hash key table_size = djb2 5381 key % table_size

abbrev pub chain_at : List Chain → ℕ → Chain
chain_at bs i = get_or bs i []

-- `insert_sym` behind its test of the load.
unfoldable pub place : Label → ℤ → Symtab → Bool × Symtab
unfolding insert_node
place k v t =
    let index = hash k t.size in
    elim (insert_node k v (chain_at t.table index)) [
      | none ↦ (false, t)
      | some c ↦ (true, record t { table = set t.table index c; count = t.count + 1 })
    ]

-- The loops of `resize_symtab`, over the nodes of a chain and over the chains, given `insert_sym`.
unfoldable pub move_chain : (Label → ℤ → Symtab → Bool × Symtab) → Chain → Symtab → Symtab
move_chain insert [] t = t
move_chain insert (e ∷ c) t = move_chain insert c (insert e.0 e.1 t).1

unfoldable pub move_table : (Label → ℤ → Symtab → Bool × Symtab) → List Chain → Symtab → Symtab
move_table insert [] t = t
move_table insert (c ∷ cs) t = move_table insert cs (move_chain insert c t)

unfoldable pub resize_symtab : (Label → ℤ → Symtab → Bool × Symtab) → (ℕ → ℕ) → Symtab → Symtab
resize_symtab insert sqrt t =
    let new_size = find_next_prime sqrt (t.size * 2) in
    move_table insert t.table (record { table = replicate new_size []; count = 0; size = new_size })

-- `(float)count / size >= 0.5`. The quotient is exact enough for sizes below 2 ^ 24.
abbrev pub is_full : Symtab → Bool
is_full t = leb t.size (2 * t.count)

-- `insert_sym` and `resize_symtab` call each other. `depth` bounds how deep; at 0 nothing is done.
unfoldable pub insert_nested : ℕ → (ℕ → ℕ) → Label → ℤ → Symtab → Bool × Symtab
unfolding place
insert_nested zero sqrt k v t = (false, t)
insert_nested (suc depth) sqrt k v t =
    let grown = resize_symtab (insert_nested depth sqrt) sqrt t in
    place k v (if is_full t then grown else t)

-- A resize does not set off another, so two levels are enough.
unfoldable pub insert_sym : (ℕ → ℕ) → Label → ℤ → Symtab → Bool × Symtab
insert_sym sqrt k v t = insert_nested 2 sqrt k v t

unfoldable pub search_sym : Symtab → Label → ℤ
unfolding find
search_sym t k = elim (find k (chain_at t.table (hash k t.size))) [ some v ↦ v | none ↦ negsuc 0 ]

unfoldable pub remove_sym : Label → Symtab → Bool × Symtab
unfolding remove_node
remove_sym k t =
    let index = hash k t.size in
    elim (remove_node k (chain_at t.table index)) [
      | none ↦ (false, t)
      | some c ↦ (true, record t { table = set t.table index c; count = t.count - 1 })
    ]

-- The loop that empties every chain, up to `size`.
unfoldable pub clear_from : ℕ → List Chain → List Chain
clear_from zero bs = bs
clear_from (suc n) [] = []
clear_from (suc n) (c ∷ bs) = [] ∷ clear_from n bs

unfoldable pub remove_all_sym : Symtab → Symtab
remove_all_sym t = record t { table = clear_from t.size t.table; count = 0 }
