-- ===== src/Symtab/Nodes.antt =====
-- One bucket of the table (Assembler/src/symtab.c): the nodes of a `kvp_t` list in their order. A key
-- is the bytes of a string without its end, so `strcmp` says 0 for equal lists.
use assembler_project.Base.{
  ◌+◌, ◌≡◌, refl, sym, ap, ◌∙◌, ◌↔◌, ◌⊎◌, inl, inr, Bool, true, false, ◌&&◌, Option, none, some,
  List, [], ◌∷◌, ◌++◌, arith, ◌==◌, if◌then◌else◌, Bool-cases, length,
}
use assembler_project.Base.Int.{ℤ}
use mathlib.Core.Option
use mathlib.Core.Option.{some-ne-none}
use assembler_project.Ir.Entry.{Label}

abbrev pub Chain : Type 0
Chain = List (Label × ℤ)

-- `strcmp(a, b) == 0`
unfoldable pub str_eq : Label → Label → Bool
str_eq [] [] = true
str_eq [] (b ∷ bs) = false
str_eq (a ∷ as') [] = false
str_eq (a ∷ as') (b ∷ bs) = a == b && str_eq as' bs

pub str_eq_iff : (a b : Label) → (str_eq a b ≡ true) ↔ (a ≡ b)
unfolding str_eq
str_eq_iff [] [] = (λ h. refl, λ h. refl)
str_eq_iff [] (b ∷ bs) = (λ h. cc, λ h. cc)
str_eq_iff (a ∷ as') [] = (λ h. cc, λ h. cc)
str_eq_iff (a ∷ as') (b ∷ bs) = ground (arith, str_eq_iff as' bs)

-- The walk of `search_sym`.
unfoldable pub find : Label → Chain → Option ℤ
find k [] = none
find k (e ∷ c) = if str_eq e.0 k then some e.1 else find k c

-- The walk of `insert_sym`: `none` where the key is there, else a node behind the last one.
unfoldable pub insert_node : Label → ℤ → Chain → Option Chain
insert_node k v [] = some ((k, v) ∷ [])
insert_node k v (e ∷ c) =
    if str_eq e.0 k then none else Option.map (λ (rest : Chain). e ∷ rest) (insert_node k v c)

-- The walk of `remove_sym`: `none` where the key is not there.
unfoldable pub remove_node : Label → Chain → Option Chain
remove_node k [] = none
remove_node k (e ∷ c) =
    if str_eq e.0 k then some c else Option.map (λ (rest : Chain). e ∷ rest) (remove_node k c)

-- No key twice.
abbrev pub Distinct : Chain → Type 0
Distinct [] = Unit
Distinct (e ∷ c) = (find e.0 c ≡ none) × Distinct c

-- The first of two results that is there.
abbrev pub first_of : Option ℤ → Option ℤ → Option ℤ
first_of none y = y
first_of (some x) y = some x

pub find-append : (q : Label) (a b : Chain) → find q (a ++ b) ≡ first_of (find q a) (find q b)
unfolding find
find-append q [] b = refl
find-append q (e ∷ a) b = ground (arith, find-append q a b)

pub find_congr : (k q : Label) (c : Chain) → str_eq k q ≡ true → find q c ≡ find k c
find_congr k q c h = rw ((str_eq_iff k q).0 h)

-- A new key goes behind the chain; a key that is there already is refused.
pub insert_node-eq :
    (k : Label) (v : ℤ) (c : Chain)
    → ((find k c ≡ none) × (insert_node k v c ≡ some (c ++ (k, v) ∷ [])))
      ⊎ ((x : ℤ) × (find k c ≡ some x) × (insert_node k v c ≡ none))
unfolding find insert_node
insert_node-eq k v [] = inl (refl, refl)
insert_node-eq k v (e ∷ c) = elim (Bool-cases (str_eq e.0 k)) [
  | inl here ↦ inr (e.1, rw here refl, rw here refl)
  | inr later ↦ elim (insert_node-eq k v c) [
    | inl (absent, grown) ↦ inl (rw later absent, rw (later, grown) refl)
    | inr (x, found, refused) ↦ inr (x, rw later found, rw (later, refused) refl)
  ]
]

str_eq_sym : (a b : Label) → str_eq a b ≡ false → str_eq b a ≡ false
str_eq_sym a b h = ground (arith, str_eq_iff a b, str_eq_iff b a)

pub Distinct-append :
    (k : Label) (v : ℤ) (c : Chain) → find k c ≡ none → Distinct c → Distinct (c ++ (k, v) ∷ [])
unfolding find
Distinct-append k v [] absent d = (refl, tt)
Distinct-append k v (e ∷ c) absent (fresh, d) = elim (Bool-cases (str_eq e.0 k)) [
  | inl here ↦ absurd (some-ne-none _ (rw here at absent))
  | inr later ↦ (
    rw (find-append e.0 c ((k, v) ∷ []), fresh, str_eq_sym e.0 k later) refl,
    Distinct-append k v c (rw later at absent) d,
  )
]

-- What the removal of a key that is there leaves.
pub record Removed (k : Label) (c c' : Chain) : Type 0 where
  pub length : length c' + 1 ≡ length c
  pub reads : (q : Label) → find q c' ≡ (if str_eq k q then none else find q c)
  pub distinct : Distinct c'

cut_reads :
    (k q : Label) (e : Label × ℤ) (c : Chain)
    → str_eq e.0 k ≡ true
    → find e.0 c ≡ none
    → find q c ≡ (if str_eq k q then none else find q (e ∷ c))
unfolding find
cut_reads k q e c here fresh =
    let head : e.0 ≡ k = (str_eq_iff e.0 k).0 here in
    elim (Bool-cases (str_eq k q)) [
      | inl same ↦
          let eq : e.0 ≡ q = head ∙ (str_eq_iff k q).0 same in
          rw same (ap (λ (l : Label). find l c) (sym eq) ∙ fresh)
      | inr other ↦
          let miss : str_eq e.0 q ≡ false = ap (λ (l : Label). str_eq l q) head ∙ other in
          rw (other, miss) refl
    ]

keep_reads :
    (k q : Label) (e : Label × ℤ) (c c' : Chain)
    → str_eq e.0 k ≡ false
    → find q c' ≡ (if str_eq k q then none else find q c)
    → find q (e ∷ c') ≡ (if str_eq k q then none else find q (e ∷ c))
unfolding find
keep_reads k q e c c' later reads = elim (Bool-cases (str_eq k q)) [
  | inl same ↦
      let miss : str_eq e.0 q ≡ false =
        ap (λ (l : Label). str_eq e.0 l) (sym ((str_eq_iff k q).0 same)) ∙ later in
      rw (miss, reads, same) refl
  | inr other ↦ rw (reads, other) refl
]

pub remove_node-eq :
    (k : Label) (c : Chain)
    → Distinct c
    → ((find k c ≡ none) × (remove_node k c ≡ none))
      ⊎ ((x : ℤ) × (find k c ≡ some x)
          × ((c' : Chain) × (remove_node k c ≡ some c') × Removed k c c'))
unfolding find remove_node
remove_node-eq k [] d = inl (refl, refl)
remove_node-eq k (e ∷ c) (fresh, d) = elim (Bool-cases (str_eq e.0 k)) [
  | inl here ↦ inr (
    e.1,
    rw here refl,
    (
      c,
      rw here refl,
      record { length = omega arith; reads = λ q. cut_reads k q e c here fresh; distinct = d },
    ),
  )
  | inr later ↦ elim (remove_node-eq k c d) [
    | inl (absent, kept) ↦ inl (rw later absent, rw (later, kept) refl)
    | inr (x, found, (c', cut, r)) ↦ inr (
      x,
      rw later found,
      (
        e ∷ c',
        rw (later, cut) refl,
        record {
          length = omega (arith, r.length);
          reads = λ q. keep_reads k q e c c' later (r.reads q);
          distinct = (rw (r.reads e.0) (ground (arith, fresh)), r.distinct);
        },
      ),
    )
  ]
]
