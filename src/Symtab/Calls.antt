-- ===== src/Symtab/Calls.antt =====
-- Every sequence of calls on a new table gets the answers of a map.
use assembler_project.Base.{ℕ, ◌≡◌, refl, ap, ◌∙◌, Bool, true, none, List, [], ◌∷◌}
use assembler_project.Base.Int.{ℤ}
use assembler_project.Ir.Entry.{Label}
use assembler_project.Symtab.{
  Symtab, create_symtab, insert_sym, search_sym, remove_sym, remove_all_sym,
}
use assembler_project.Symtab.Buckets.{view}
use assembler_project.Symtab.Methods.{
  IsValid, Map, Refines, map_insert, map_remove, map_search, insert_sym-Refines, remove_sym-Refines,
  remove_all_sym-Refines, create_symtab-Refines, search_sym-eq,
}
use assembler_project.Symtab.Primes.Trial.{IsSqrt}
use mathlib.Core.Path.{fun_ext}

pub data Call : Type 0 where
  insert_call : Label → ℤ → Call
  search_call remove_call : Label → Call
  remove_all_call : Call

pub data Answer : Type 0 where
  verdict : Bool → Answer
  value : ℤ → Answer

unfoldable pub answer : (ℕ → ℕ) → Call → Symtab → Answer × Symtab
answer sqrt (insert_call k v) t = let r = insert_sym sqrt k v t in (verdict r.0, r.1)
answer sqrt (search_call k) t = (value (search_sym t k), t)
answer sqrt (remove_call k) t = let r = remove_sym k t in (verdict r.0, r.1)
answer sqrt remove_all_call t = (verdict true, remove_all_sym t)

unfoldable pub answers : (ℕ → ℕ) → List Call → Symtab → List Answer
unfolding answer
answers sqrt [] t = []
answers sqrt (c ∷ cs) t = let r = answer sqrt c t in r.0 ∷ answers sqrt cs r.1

abbrev map_answer : Call → Map → Answer × Map
map_answer (insert_call k v) m = let r = map_insert k v m in (verdict r.0, r.1)
map_answer (search_call k) m = (value (map_search k m), m)
map_answer (remove_call k) m = let r = map_remove k m in (verdict r.0, r.1)
map_answer remove_all_call m = (verdict true, λ q. none)

abbrev pub map_answers : List Call → Map → List Answer
map_answers [] m = []
map_answers (c ∷ cs) m = let r = map_answer c m in r.0 ∷ map_answers cs r.1

-- One call: the same answer, and a table that stands for the map after it.
record Step (r : Answer × Symtab) (s : Answer × Map) : Type 0 where
  same : r.0 ≡ s.0
  valid : IsValid r.1
  reads : view r.1 ≡ s.1

from_Refines :
    (r : Bool × Symtab) (s : Bool × Map) → Refines r s → Step (verdict r.0, r.1) (verdict s.0, s.1)
from_Refines r s h = record {
  same = ap verdict h.verdict;
  valid = h.valid;
  reads = fun_ext h.reads;
}

answer_lem :
    (sqrt : ℕ → ℕ) (c : Call) (t : Symtab)
    → IsSqrt sqrt
    → IsValid t
    → Step (answer sqrt c t) (map_answer c (view t))
unfolding answer
answer_lem sqrt (insert_call k v) t root valid =
    from_Refines (insert_sym sqrt k v t) (map_insert k v (view t))
      (insert_sym-Refines sqrt k v t root valid)
answer_lem sqrt (search_call k) t root valid = record {
  same = ap value (search_sym-eq k t);
  valid = valid;
  reads = refl;
}
answer_lem sqrt (remove_call k) t root valid =
    from_Refines (remove_sym k t) (map_remove k (view t)) (remove_sym-Refines k t valid)
answer_lem sqrt remove_all_call t root valid =
    from_Refines (true, remove_all_sym t) (true, λ (q : Label). none)
      (remove_all_sym-Refines t valid)

answers-from :
    (sqrt : ℕ → ℕ) (cs : List Call) (t : Symtab)
    → IsSqrt sqrt
    → IsValid t
    → answers sqrt cs t ≡ map_answers cs (view t)
unfolding answers
answers-from sqrt [] t root valid = refl
answers-from sqrt (c ∷ cs) t root valid =
    let s = answer_lem sqrt c t root valid in
    rw (s.same, answers-from sqrt cs (answer sqrt c t).1 root s.valid, s.reads) refl

-- With the square root of the C library, any calls on a new table are answered as a map answers
-- them: an insertion of a key that is there is refused and changes nothing, a missing key is found
-- as -1, and resizes do not show.
pub answers-create_symtab :
    (sqrt : ℕ → ℕ) (cs : List Call)
    → IsSqrt sqrt
    → answers sqrt cs create_symtab ≡ map_answers cs (λ (q : Label). none)
answers-create_symtab sqrt cs root =
    answers-from sqrt cs create_symtab root create_symtab-Refines.valid
    ∙ ap (λ (m : Map). map_answers cs m) (fun_ext create_symtab-Refines.reads)
