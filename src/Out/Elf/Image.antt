-- ===== src/Out/Elf/Image.antt =====
-- Reading a file: slices, little-endian fields, and the loader of the ELF specification.
use assembler_project.Base.{
  ℕ, zero, suc, ◌+◌, ◌*◌, ◌/◌, ◌^◌, ◌≤◌, ◌<◌, ◌≡◌, refl, sym, ap, ◌∙◌, Bool, true, false, some,
  List, [], ◌∷◌, arith, ◌==◌, if◌then◌else◌, length, get_elem?,
}
use assembler_project.Out.{take, bytes_le}
use assembler_project.Out.Elf.{phdr_bytes}
use assembler_project.Out.Elf.Headers.{Phdr, elf32_phdr, elf64_phdr}
use assembler_project.Out.Elf.Kept.{Has}
use assembler_project.Out.Elf.Write.{drop}
use native.Mathlib.Nat.{pow-suc}
use mathlib.Core.Option.{some_inj, some-ne-none}

abbrev pub slice : List ℕ → ℕ → ℕ → List ℕ
slice f off n = take n (drop off f)

-- The number that bytes stand for, the low one first.
abbrev pub from_le : List ℕ → ℕ
from_le [] = 0
from_le (b ∷ bs) = b + 256 * from_le bs

-- A field of `w` bytes.
abbrev pub read : ℕ → List ℕ → ℕ → ℕ
read w f off = from_le (slice f off w)

pub record Segment : Type 0 where
  pub vaddr : ℕ
  pub flags : ℕ
  pub content : List ℕ

-- A program header at an offset, and the bytes it names.
abbrev pub load_at : Bool → List ℕ → ℕ → Segment
load_at true f at = record {
  vaddr = read 8 f (at + 16);
  flags = read 4 f (at + 4);
  content = slice f (read 8 f (at + 8)) (read 8 f (at + 32));
}
load_at false f at = record {
  vaddr = read 4 f (at + 8);
  flags = read 4 f (at + 24);
  content = slice f (read 4 f (at + 4)) (read 4 f (at + 16));
}

abbrev pub segments : ℕ → Bool → List ℕ → ℕ → ℕ → List Segment
segments zero is64 f at size = []
segments (suc n) is64 f at size = load_at is64 f at ∷ segments n is64 f (at + size) size

-- The segments that the program headers of a file describe.
abbrev pub load_elf : List ℕ → List Segment
load_elf f =
    if read 1 f 4 == 2
    then segments (read 2 f 56) true f (read 8 f 32) (read 2 f 54)
    else segments (read 2 f 44) false f (read 4 f 28) (read 2 f 42)

drop_nothing : (off n : ℕ) → take n (drop off []) ≡ take n []
drop_nothing zero n = refl
drop_nothing (suc off) n = refl

next_byte :
    (f : List ℕ) (off b n : ℕ)
    → get_elem? f off ≡ some b
    → slice f off (suc n) ≡ b ∷ slice f (suc off) n
next_byte [] off b n h = absurd (some-ne-none b (sym h))
next_byte (x ∷ f) zero b n h = ap (λ (c : ℕ). c ∷ take n f) (some_inj.0 h)
next_byte (x ∷ f) (suc off) b n h = next_byte f off b n h

Has-slice :
    (f : List ℕ) (off i n : ℕ) (bs : List ℕ)
    → i + n ≤ length bs
    → Has f off bs
    → slice f (off + i) n ≡ slice bs i n
Has-slice f off i zero bs fits h = refl
Has-slice f off i (suc n) [] fits h = absurd (omega arith)
Has-slice f off zero (suc n) (b ∷ bs) fits (here, h) =
    ap (λ (o : ℕ). slice f o (suc n)) (omega arith)
    ∙ next_byte f off b n here
    ∙ ap (λ (r : List ℕ). b ∷ r)
        (ap (λ (o : ℕ). slice f o n) {x = suc off} (omega arith)
          ∙ Has-slice f (suc off) 0 n bs (omega arith) h)
Has-slice f off (suc i) (suc n) (b ∷ bs) fits (here, h) =
    ap (λ (o : ℕ). slice f o (suc n)) (omega arith)
    ∙ Has-slice f (suc off) i (suc n) bs (omega arith) h

pub from_le-bytes_le : (n v : ℕ) → v < 256 ^ n → from_le (bytes_le n v) ≡ v
from_le-bytes_le zero v h = omega arith
from_le-bytes_le (suc n) v h =
    let pow : 256 ^ suc n ≡ 256 ^ n * 256 = pow-suc 256 n in
    omega (arith, from_le-bytes_le n (v / 256) (omega (arith, h, pow)))

-- A field inside bytes that the file holds.
pub read_field :
    (w : ℕ) (f : List ℕ) (off i v : ℕ) (bs : List ℕ)
    → Has f off bs
    → i + w ≤ length bs
    → slice bs i w ≡ bytes_le w v
    → v < 256 ^ w
    → read w f (off + i) ≡ v
read_field w f off i v bs h fits e small =
    ap from_le (Has-slice f off i w bs fits h ∙ e) ∙ from_le-bytes_le w v small

take_all : (bs : List ℕ) → take (length bs) bs ≡ bs
take_all [] = refl
take_all (b ∷ bs) = ap (λ (r : List ℕ). b ∷ r) (take_all bs)

-- Bytes that the file holds are what a slice of their length gives.
pub Has-whole : (f : List ℕ) (off : ℕ) (bs : List ℕ) → Has f off bs → slice f off (length bs) ≡ bs
Has-whole f off bs h =
    ap (λ (o : ℕ). slice f o (length bs)) {y = off + 0} (omega arith)
    ∙ Has-slice f off 0 (length bs) bs (omega arith) h
    ∙ take_all bs

-- The fields of a program header fit in its 32-bit form.
pub record IsShort (h : Phdr) : Type 0 where
  pub vaddr : h.p_vaddr < 2 ^ 32
  pub flags : h.p_flags < 2 ^ 32
  pub offset : h.p_offset < 2 ^ 32
  pub filesz : h.p_filesz < 2 ^ 32

-- A program header in the file is loaded as it was meant.
pub load_at-phdr :
    (is64 : Bool) (f : List ℕ) (at : ℕ) (h : Phdr) (content : List ℕ)
    → IsShort h
    → Has f at (phdr_bytes is64 h)
    → Has f h.p_offset content
    → length content ≡ h.p_filesz
    → load_at is64 f at ≡ record { vaddr = h.p_vaddr; flags = h.p_flags; content = content }
unfolding elf32_phdr elf64_phdr
load_at-phdr true f at h content small held body size =
    let bs = elf64_phdr h in
    let vaddr =
      read_field 8 f at 16 h.p_vaddr bs held (omega arith) refl (omega (arith, small.vaddr)) in
    let flags =
      read_field 4 f at 4 h.p_flags bs held (omega arith) refl (omega (arith, small.flags)) in
    let offset =
      read_field 8 f at 8 h.p_offset bs held (omega arith) refl (omega (arith, small.offset)) in
    let filesz =
      read_field 8 f at 32 h.p_filesz bs held (omega arith) refl (omega (arith, small.filesz)) in
    rw (vaddr, flags, offset, filesz, ← size, Has-whole f h.p_offset content body) refl
load_at-phdr false f at h content small held body size =
    let bs = elf32_phdr h in
    let vaddr =
      read_field 4 f at 8 h.p_vaddr bs held (omega arith) refl (omega (arith, small.vaddr)) in
    let flags =
      read_field 4 f at 24 h.p_flags bs held (omega arith) refl (omega (arith, small.flags)) in
    let offset =
      read_field 4 f at 4 h.p_offset bs held (omega arith) refl (omega (arith, small.offset)) in
    let filesz =
      read_field 4 f at 16 h.p_filesz bs held (omega arith) refl (omega (arith, small.filesz)) in
    rw (vaddr, flags, offset, filesz, ← size, Has-whole f h.p_offset content body) refl
