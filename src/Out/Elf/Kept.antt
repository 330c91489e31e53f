-- ===== src/Out/Elf/Kept.antt =====
-- What stands in the file after a sequence of writes that succeeds.
use assembler_project.Base.{
  ℕ, zero, suc, ◌+◌, ◌≤◌, ◌<◌, ◌≡◌, refl, sym, ap, ◌≢◌, ◌⊎◌, inl, inr, Bool, true, false, Option,
  none, some, List, [], ◌∷◌, arith, ◌==◌, if◌then◌else◌, Bool-cases, length, get_elem?,
}
use assembler_project.Out.{take}
use assembler_project.Out.Elf.Write.{
  Stdio, store, store_byte, drop, write_loop, write_at, is_empty, from_cur,
}
use mathlib.Core.Path.{subst}
use mathlib.Core.Bool.{false≢true}
use mathlib.Core.Option.{some-ne-none}

-- The file holds the bytes from the offset on.
abbrev pub Has : List ℕ → ℕ → List ℕ → Type 0
Has f off [] = Unit
Has f off (b ∷ bs) = (get_elem? f off ≡ some b) × Has f (suc off) bs

store_byte_self : (f : List ℕ) (i b : ℕ) → get_elem? (store_byte f i b) i ≡ some b
store_byte_self [] zero b = refl
store_byte_self [] (suc i) b = store_byte_self [] i b
store_byte_self (x ∷ xs) zero b = refl
store_byte_self (x ∷ xs) (suc i) b = store_byte_self xs i b

store_byte-other :
    (f : List ℕ) (i j b c : ℕ)
    → i ≢ j
    → get_elem? f j ≡ some c
    → get_elem? (store_byte f i b) j ≡ some c
store_byte-other [] i j b c away h = absurd (some-ne-none c (sym h))
store_byte-other (x ∷ xs) zero zero b c away h = absurd (away refl)
store_byte-other (x ∷ xs) zero (suc j) b c away h = h
store_byte-other (x ∷ xs) (suc i) zero b c away h = h
store_byte-other (x ∷ xs) (suc i) (suc j) b c away h =
    store_byte-other xs i j b c (λ e. away (ap suc e)) h

-- Two ranges with nothing in common, each an offset and a length.
abbrev pub IsApart : ℕ → ℕ → ℕ → ℕ → Type 0
IsApart o n o' n' = (o + n ≤ o') ⊎ (o' + n' ≤ o)

store_byte-Has :
    (f : List ℕ) (i b off : ℕ) (bs : List ℕ)
    → (i < off) ⊎ (off + length bs ≤ i)
    → Has f off bs
    → Has (store_byte f i b) off bs
store_byte-Has f i b off [] away h = tt
store_byte-Has f i b off (c ∷ bs) away (here, h) = (
  store_byte-other f i off b c (λ e. ground (arith, e)) here,
  store_byte-Has f i b (suc off) bs (ground arith) h,
)

store-Has_apart :
    (f : List ℕ) (o : ℕ) (cs : List ℕ) (off : ℕ) (bs : List ℕ)
    → IsApart o (length cs) off (length bs)
    → Has f off bs
    → Has (store f o cs) off bs
store-Has_apart f o [] off bs apart h = h
store-Has_apart f o (c ∷ cs) off [] apart h = tt
store-Has_apart f o (c ∷ cs) off (b ∷ bs) apart h =
    store-Has_apart (store_byte f o c) (suc o) cs off (b ∷ bs) (ground arith)
      (store_byte-Has f o c off (b ∷ bs) (ground arith) h)

store-Has : (f : List ℕ) (off : ℕ) (bs : List ℕ) → Has (store f off bs) off bs
store-Has f off [] = tt
store-Has f off (b ∷ bs) =
    let f' = store_byte f off b in
    let head : Has f' off (b ∷ []) = (store_byte_self f off b, tt) in
    (
      (store-Has_apart f' (suc off) bs off (b ∷ []) (inr (omega arith)) head).0,
      store-Has f' (suc off) bs,
    )

Has-at : (f : List ℕ) (off off' : ℕ) (bs : List ℕ) → off ≡ off' → Has f off bs → Has f off' bs
Has-at f off off' bs e h = subst (λ (o : ℕ). Has f o bs) e h

Has-join :
    (f : List ℕ) (off n : ℕ) (bs : List ℕ)
    → Has f off (take n bs)
    → Has f (off + n) (drop n bs)
    → Has f off bs
Has-join f off zero bs h k = Has-at f (off + 0) off bs (omega arith) k
Has-join f off (suc n) [] h k = tt
Has-join f off (suc n) (b ∷ bs) (here, h) k = (
  here,
  Has-join f (suc off) n bs h (Has-at f (off + suc n) (suc off + n) (drop n bs) (omega arith) k),
)

pub length-take-drop :
    (n : ℕ) (bs : List ℕ)
    → n ≤ length bs
    → (length (take n bs) ≡ n) × (length (drop n bs) + n ≡ length bs)
length-take-drop zero bs h = (refl, omega arith)
length-take-drop (suc n) [] h = absurd (omega arith)
length-take-drop (suc n) (b ∷ bs) h =
    let (t, d) = length-take-drop n bs (omega arith) in (omega (arith, t), omega (arith, d))

-- What is relied on of `fwrite`: it takes at most what it is given.
abbrev pub IsStdio : Stdio → Type 0
IsStdio io = (f : List ℕ) (off : ℕ) (bytes : List ℕ) → io.fwrite f off bytes ≤ length bytes

write_loop-keeps :
    (turns : ℕ) (io : Stdio) (off : ℕ) (bytes f : List ℕ) (o : ℕ) (bs : List ℕ)
    → IsStdio io
    → IsApart off (length bytes) o (length bs)
    → Has f o bs
    → Has (write_loop turns io off bytes f).1 o bs
unfolding write_loop
write_loop-keeps zero io off bytes f o bs lib apart h = h
write_loop-keeps (suc turns) io off bytes f o bs lib apart h =
    let wrote = io.fwrite f off bytes in
    let (t, d) = length-take-drop wrote bytes (lib f off bytes) in
    let stored : Has (store f off (take wrote bytes)) o bs =
      store-Has_apart f off (take wrote bytes) o bs (ground (arith, t, lib f off bytes)) h in
    elim (Bool-cases (is_empty bytes)) [
      | inl done ↦ rw done h
      | inr left ↦ elim (Bool-cases (wrote == 0)) [
        | inl failed ↦ rw (left, failed) stored
        | inr some_bytes ↦
            rw (left, some_bytes)
              (write_loop-keeps turns io (off + wrote) (drop wrote bytes)
                (store f off (take wrote bytes)) o bs lib (ground (arith, d)) stored)
      ]
    ]

no_bytes : (f : List ℕ) (off : ℕ) (bytes : List ℕ) → is_empty bytes ≡ true → Has f off bytes
no_bytes f off [] h = tt
no_bytes f off (b ∷ bs) h = absurd (false≢true h)

write_loop-Has :
    (turns : ℕ) (io : Stdio) (off : ℕ) (bytes f : List ℕ)
    → IsStdio io
    → (write_loop turns io off bytes f).0 ≡ true
    → Has (write_loop turns io off bytes f).1 off bytes
unfolding write_loop
write_loop-Has zero io off bytes f lib = λ ok. no_bytes f off bytes ok
write_loop-Has (suc turns) io off bytes f lib =
    let wrote = io.fwrite f off bytes in
    let (t, d) = length-take-drop wrote bytes (lib f off bytes) in
    let f' = store f off (take wrote bytes) in
    elim (Bool-cases (is_empty bytes)) [
      | inl done ↦ rw done λ ok. no_bytes f off bytes done
      | inr left ↦ elim (Bool-cases (wrote == 0)) [
        | inl failed ↦ rw (left, failed) λ ok. absurd (false≢true ok)
        | inr some_bytes ↦
            rw (left, some_bytes)
              λ ok.
                let rest = drop wrote bytes in
                let kept =
                  write_loop-keeps turns io (off + wrote) rest f' off (take wrote bytes) lib
                    (inr (omega (arith, t))) (store-Has f off (take wrote bytes)) in
                Has-join (write_loop turns io (off + wrote) rest f').1 off wrote bytes kept
                  (write_loop-Has turns io (off + wrote) rest f' lib ok)
      ]
    ]

-- The two facts for `write_at`.
pub write_at-keeps :
    (io : Stdio) (f : List ℕ) (off : ℕ) (bytes : List ℕ) (o : ℕ) (bs : List ℕ)
    → IsStdio io
    → IsApart off (length bytes) o (length bs)
    → Has f o bs
    → Has (write_at io f off bytes).1 o bs
unfolding write_at
write_at-keeps io f off bytes o bs lib apart h = go (io.ftello f)
  where
    go : (at : Option ℕ) → Has (from_cur io off bytes f at).1 o bs
    go none = h
    go (some cur) = elim (Bool-cases (io.fseeko f off)) [
      | inl moved ↦ rw moved (write_loop-keeps (length bytes) io off bytes f o bs lib apart h)
      | inr stuck ↦ rw stuck h
    ]

both_true : (a b : Bool) → (if a then b else false) ≡ true → a ≡ true
both_true a b h = ground (arith, h)

pub write_at-Has :
    (io : Stdio) (f : List ℕ) (off : ℕ) (bytes : List ℕ)
    → IsStdio io
    → (write_at io f off bytes).0 ≡ true
    → Has (write_at io f off bytes).1 off bytes
unfolding write_at
write_at-Has io f off bytes lib = go (io.ftello f)
  where
    go :
        (at : Option ℕ)
        → (from_cur io off bytes f at).0 ≡ true
        → Has (from_cur io off bytes f at).1 off bytes
    go none = λ ok. absurd (false≢true ok)
    go (some cur) = elim (Bool-cases (io.fseeko f off)) [
      | inl moved ↦
          rw moved λ ok. write_loop-Has (length bytes) io off bytes f lib (both_true _ _ ok)
      | inr stuck ↦ rw stuck λ ok. absurd (false≢true ok)
    ]
