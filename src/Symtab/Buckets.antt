-- ===== src/Symtab/Buckets.antt =====
-- Where the keys stand in the table, and what a write to one chain does.
use assembler_project.Base.{
  ℕ, zero, suc, ◌+◌, ◌≤◌, ◌<◌, ◌≡◌, refl, sym, ap, ◌∙◌, ◌≢◌, inl, inr, false, Option, none, List,
  [], ◌∷◌, arith, ◌==◌, if◌then◌else◌, Bool-cases, length, set, length-set, All,
}
use assembler_project.Base.Int.{ℤ}
use assembler_project.Ir.Entry.{Label}
use assembler_project.Symtab.{Symtab, hash, chain_at}
use assembler_project.Symtab.Nodes.{Chain, find, str_eq, str_eq_iff, Distinct}
use native.Mathlib.Nat.{mod-lt}

-- All nodes of the chains, counted.
abbrev pub entries : List Chain → ℕ
entries [] = 0
entries (c ∷ bs) = length c + entries bs

abbrev pub view : Symtab → Label → Option ℤ
view t k = find k (chain_at t.table (hash k t.size))

-- The chains of the table's size hold each key once, in the chain of its hash, and are counted.
pub record IsPlaced (t : Symtab) : Type 0 where
  pub room : 2 ≤ t.size
  pub sized : length t.table ≡ t.size
  pub counted : entries t.table ≡ t.count
  pub home : (k : Label) (i : ℕ) → hash k t.size ≢ i → find k (chain_at t.table i) ≡ none
  pub distinct : All Distinct t.table

pub get_or-set_self :
    (bs : List Chain) (i : ℕ) (c : Chain) → i < length bs → chain_at (set bs i c) i ≡ c
get_or-set_self [] i c h = absurd (omega arith)
get_or-set_self (b ∷ bs) zero c h = refl
get_or-set_self (b ∷ bs) (suc i) c h = get_or-set_self bs i c (omega arith)

pub get_or-set_other :
    (bs : List Chain) (i j : ℕ) (c : Chain) → i ≢ j → chain_at (set bs i c) j ≡ chain_at bs j
get_or-set_other [] i j c h = refl
get_or-set_other (b ∷ bs) zero zero c h = absurd (h refl)
get_or-set_other (b ∷ bs) zero (suc j) c h = refl
get_or-set_other (b ∷ bs) (suc i) zero c h = refl
get_or-set_other (b ∷ bs) (suc i) (suc j) c h = get_or-set_other bs i j c (λ e. h (ap suc e))

pub entries-set :
    (bs : List Chain) (i : ℕ) (c : Chain)
    → i < length bs
    → entries (set bs i c) + length (chain_at bs i) ≡ entries bs + length c
entries-set [] i c h = absurd (omega arith)
entries-set (b ∷ bs) zero c h = omega arith
entries-set (b ∷ bs) (suc i) c h = omega (arith, entries-set bs i c (omega arith))

Distinct-set :
    (bs : List Chain) (i : ℕ) (c : Chain) → Distinct c → All Distinct bs → All Distinct (set bs i c)
Distinct-set [] i c d ds = tt
Distinct-set (b ∷ bs) zero c d (old, ds) = (d, ds)
Distinct-set (b ∷ bs) (suc i) c d (old, ds) = (old, Distinct-set bs i c d ds)

pub Distinct-chain_at : (bs : List Chain) (i : ℕ) → All Distinct bs → Distinct (chain_at bs i)
Distinct-chain_at [] i ds = tt
Distinct-chain_at (b ∷ bs) zero (d, ds) = d
Distinct-chain_at (b ∷ bs) (suc i) (d, ds) = Distinct-chain_at bs i ds

pub hash-lt : (k : Label) (n : ℕ) → 2 ≤ n → hash k n < n
unfolding hash
hash-lt k n h = mod-lt _ (omega arith)

-- `t'` holds what `t` holds, but `v` at the key `k`.
pub record Updates (k : Label) (v : Option ℤ) (t t' : Symtab) : Type 0 where
  pub size : t'.size ≡ t.size
  pub placed : IsPlaced t'
  pub reads : (q : Label) → view t' q ≡ (if str_eq k q then v else view t q)

-- What is asked of the chain that takes the place of the one of `k`.
abbrev pub Rewrites : Label → Option ℤ → Symtab → Chain → Type 0
Rewrites k v t c =
    (q : Label) → find q c ≡ (if str_eq k q then v else find q (chain_at t.table (hash k t.size)))

apart : (k q : Label) (n : ℕ) → hash k n ≢ hash q n → str_eq k q ≡ false
apart k q n away = elim (Bool-cases (str_eq k q)) [
  | inl same ↦ absurd (away (ap (λ (l : Label). hash l n) ((str_eq_iff k q).0 same)))
  | inr other ↦ other
]

pub fits_table : (k : Label) (t : Symtab) → IsPlaced t → hash k t.size < length t.table
fits_table k t p = omega (arith, hash-lt k t.size p.room, p.sized)

still_home :
    (k : Label) (v : Option ℤ) (t : Symtab) (c : Chain) (q : Label) (j : ℕ)
    → IsPlaced t
    → Rewrites k v t c
    → hash q t.size ≢ j
    → find q (chain_at (set t.table (hash k t.size) c) j) ≡ none
still_home k v t c q j p reads away = elim (Bool-cases (hash k t.size == j)) [
  | inl here ↦
      let e : hash k t.size ≡ j = ground arith in
      let miss = apart k q t.size (λ h. away (sym h ∙ e)) in
      let gone : find q (chain_at t.table (hash k t.size)) ≡ none =
        p.home q (hash k t.size) (λ h. away (h ∙ e)) in
      ap (λ (i : ℕ). find q (chain_at (set t.table (hash k t.size) c) i)) (sym e)
      ∙ ap (λ (b : Chain). find q b) (get_or-set_self t.table (hash k t.size) c (fits_table k t p))
      ∙ reads q
      ∙ rw (miss, gone) refl
  | inr there ↦
      ap (λ (b : Chain). find q b)
        (get_or-set_other t.table (hash k t.size) j c (λ h. ground arith))
      ∙ p.home q j away
]

now_reads :
    (k : Label) (v : Option ℤ) (t : Symtab) (c : Chain) (q : Label)
    → IsPlaced t
    → Rewrites k v t c
    → find q (chain_at (set t.table (hash k t.size) c) (hash q t.size))
      ≡ (if str_eq k q then v else view t q)
now_reads k v t c q p reads = elim (Bool-cases (hash k t.size == hash q t.size)) [
  | inl here ↦
      let e : hash k t.size ≡ hash q t.size = ground arith in
      ap (λ (i : ℕ). find q (chain_at (set t.table (hash k t.size) c) i)) (sym e)
      ∙ ap (λ (b : Chain). find q b) (get_or-set_self t.table (hash k t.size) c (fits_table k t p))
      ∙ reads q
      ∙ ap (λ (i : ℕ). if str_eq k q then v else find q (chain_at t.table i)) e
  | inr there ↦
      let away : hash k t.size ≢ hash q t.size = λ h. ground arith in
      ap (λ (b : Chain). find q b) (get_or-set_other t.table (hash k t.size) (hash q t.size) c away)
      ∙ rw (apart k q t.size away) refl
]

-- The chain of `k` is replaced by one that holds `v` at `k` and the old values elsewhere.
pub set-Updates :
    (k : Label) (v : Option ℤ) (t : Symtab) (c : Chain) (n : ℕ)
    → IsPlaced t
    → n + length (chain_at t.table (hash k t.size)) ≡ t.count + length c
    → Distinct c
    → Rewrites k v t c
    → Updates k v t (record t { table = set t.table (hash k t.size) c; count = n })
set-Updates k v t c n p len d reads =
    let i = hash k t.size in
    let fits = fits_table k t p in
    record {
      size = refl;
      placed = record {
        room = p.room;
        sized = length-set t.table i c ∙ p.sized;
        counted = omega (arith, entries-set t.table i c fits, p.counted, len);
        home = λ q j away. still_home k v t c q j p reads away;
        distinct = Distinct-set t.table i c d p.distinct;
      };
      reads = λ q. now_reads k v t c q p reads;
    }
