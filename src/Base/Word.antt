-- ===== src/Base/Word.antt =====
-- Machine words as native numbers: the casts, the shifts and the two's complement of C.
use Prim.Native.Nat.{ℕ, ◌-◌, ◌*◌, ◌/◌, ◌%◌, ◌^◌}
use assembler_project.Base.Int.{ℤ, pos, negsuc}
use assembler_project.Base.Tests.{ltb, if◌then◌else◌}

abbrev pub u8 : ℕ → ℕ
u8 x = x % 2 ^ 8

abbrev pub u16 : ℕ → ℕ
u16 x = x % 2 ^ 16

abbrev pub u32 : ℕ → ℕ
u32 x = x % 2 ^ 32

abbrev pub u64 : ℕ → ℕ
u64 x = x % 2 ^ 64

infixl 75 ◌<<◌ ◌>>◌
-- `x << k` on a value that the caller keeps within its type, and `x >> k`, both unsigned.
abbrev pub ◌<<◌ : ℕ → ℕ → ℕ
x << k = x * 2 ^ k

abbrev pub ◌>>◌ : ℕ → ℕ → ℕ
x >> k = x / 2 ^ k

-- The bit pattern of a signed 64-bit value, and the `uint32_t` that a cast makes of it.
abbrev pub bits64 : ℤ → ℕ
bits64 (pos n) = n % 2 ^ 64
bits64 (negsuc n) = 2 ^ 64 - 1 - n % 2 ^ 64

abbrev pub bits32 : ℤ → ℕ
bits32 (pos n) = n % 2 ^ 32
bits32 (negsuc n) = 2 ^ 32 - 1 - n % 2 ^ 32

-- `x >> k` on a signed value, which rounds down.
abbrev pub asr : ℤ → ℕ → ℤ
asr (pos n) k = pos (n / 2 ^ k)
asr (negsuc n) k = negsuc (n / 2 ^ k)

-- The signed value that a `w`-bit pattern stands for.
abbrev pub signed : ℕ → ℕ → ℤ
signed w x = if ltb x (2 ^ (w - 1)) then pos x else negsuc (2 ^ w - 1 - x)

-- The cast to `int32_t`.
abbrev pub to_int32 : ℤ → ℤ
to_int32 x = signed 32 (bits32 x)

-- The bits from `lo`, `width` of them.
abbrev pub field : ℕ → ℕ → ℕ → ℕ
field lo width x = x / 2 ^ lo % 2 ^ width
