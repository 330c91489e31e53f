-- ===== src/Encode/Compressed/Half.antt =====
-- What the 16-bit encoders share: the checks of the target, register numbers, and the writing of
-- fields into a halfword.
pub mod Put
pub mod Registers
use assembler_project.Base.{
  ℕ, ◌+◌, ◌-◌, ◌^◌, bit_and, bit_or, Bool, ◌&&◌, ◌||◌, Option, none, some, ltb, ◌==◌, ◌!=◌,
  if◌then◌else◌,
}
use assembler_project.Base.Word.{u16, ◌<<◌}
use assembler_project.Encode.CTable.{CEncodingInfo, c_encoding_table, c_any, c_rv_32, c_rv_64}
use assembler_project.Ir.Opcode.{Opcode}
use assembler_project.Pass.{Arch}

-- `require_C` and `require_c_for_op`: C is on, the table has the opcode, and it exists for `xlen`.
unfoldable pub require_c_for_op : Arch → Opcode → Bool
require_c_for_op a op =
    let ci = c_encoding_table op in
    let have = if a.xlen == 64 then c_rv_64 else c_rv_32 in
    a.ext_c && ci.needs_c != 0 && bit_and ci.rv_req have != 0

-- `c_regp`: x8 to x15 as 0 to 7; `none` is -1.
unfoldable pub c_regp : ℕ → Option ℕ
c_regp x = if ltb x 8 || ltb 15 x then none else some (x - 8)

-- Set bits [hi:lo] of `w` to `v`. The mask's complement is that of a `uint32_t`.
unfoldable pub put : ℕ → ℕ → ℕ → ℕ → ℕ
put w hi lo v =
    let ones = (1 << (hi + 1 - lo)) - 1 in
    if ltb hi lo || ltb 15 hi
    then w
    else u16 (bit_or (bit_and w (2 ^ 32 - 1 - (ones << lo))) (bit_and v ones << lo))

-- A field of the table goes in unless it is `C_ANY`.
abbrev tag : ℕ → ℕ → ℕ → ℕ → ℕ
tag value mask shift w = if value != c_any then bit_or w (bit_and value mask << shift) else w

-- `c_build_tags`
unfoldable pub c_build_tags : CEncodingInfo → ℕ
c_build_tags i = tag i.op6_5 0x3 5 (
    tag i.op11_10 0x3 10
      (tag i.op12 0x1 12 (bit_or (bit_and i.funct3 0x7 << 13) (bit_and i.quadrant 0x3))))
