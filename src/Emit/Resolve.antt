-- ===== src/Emit/Resolve.antt =====
-- What pass 2 asks before it encodes an instruction (Assembler/src/pass2.c): whether the target has
-- it, and the value of its label.
use assembler_project.Base.{
  ℕ, suc, ◌-◌, ◌*◌, ◌^◌, Bool, true, ◌&&◌, Option, none, some, ◌==◌, if◌then◌else◌,
}
use assembler_project.Base.Int.{ℤ, pos, negsuc, ◌+ℤ◌, ◌-ℤ◌, ltb_ℤ}
use assembler_project.Base.Word.{asr, to_int32}
use assembler_project.Ir.Entry.{
  Label, Reloc, reloc_none, reloc_hi20, reloc_lo12, reloc_boff, reloc_jtgt,
}
use assembler_project.Ir.Opcode.{
  Opcode, op_addw, op_subw, op_sllw, op_srlw, op_sraw, op_addiw, op_srliw, op_sraiw, op_slliw,
  op_lwu, op_ld, op_sd, op_mul, op_mulh, op_mulhsu, op_mulhu, op_div, op_divu, op_rem, op_remu,
  op_mulw, op_divw, op_divuw, op_remw, op_remuw,
}
use assembler_project.Pass.{Arch}

-- `x << k` on a signed value.
abbrev pub shl : ℤ → ℕ → ℤ
shl (pos n) k = pos (n * 2 ^ k)
shl (negsuc n) k = negsuc (suc n * 2 ^ k - 1)

-- `(pc_offset + 0x800) >> 12`
abbrev pub upper : ℤ → ℤ
upper pc_offset = asr (pc_offset +ℤ pos 0x800) 12

-- What a relocation makes of the target `t` and the instruction's address.
unfoldable pub relocate : Reloc → ℤ → ℕ → ℤ
relocate reloc_hi20 t addr = to_int32 (shl (upper (t -ℤ pos addr)) 12)
relocate reloc_lo12 t addr =
    let pc_offset = t -ℤ pos addr in to_int32 (pc_offset -ℤ shl (upper pc_offset) 12)
relocate reloc_boff t addr = to_int32 (t -ℤ pos addr)
relocate reloc_jtgt t addr = to_int32 (t -ℤ pos addr)
relocate reloc_none t addr = to_int32 t

-- `none` is the exit that reports an undefined label and sets `had_error`.
unfoldable pub resolve_label : (Label → ℤ) → Label → Reloc → ℕ → Option ℤ
unfolding relocate
resolve_label search_sym label reloc addr =
    let target = search_sym label in
    if ltb_ℤ target (pos 0) then none else some (relocate reloc (to_int32 target) addr)

-- `require_for_op`, with `require_xlen` and `require_M`
unfoldable pub require_for_op : Arch → Opcode → Bool
require_for_op a op_addw = a.xlen == 64
require_for_op a op_subw = a.xlen == 64
require_for_op a op_sllw = a.xlen == 64
require_for_op a op_srlw = a.xlen == 64
require_for_op a op_sraw = a.xlen == 64
require_for_op a op_addiw = a.xlen == 64
require_for_op a op_srliw = a.xlen == 64
require_for_op a op_sraiw = a.xlen == 64
require_for_op a op_slliw = a.xlen == 64
require_for_op a op_lwu = a.xlen == 64
require_for_op a op_ld = a.xlen == 64
require_for_op a op_sd = a.xlen == 64
require_for_op a op_mul = a.ext_m
require_for_op a op_mulh = a.ext_m
require_for_op a op_mulhsu = a.ext_m
require_for_op a op_mulhu = a.ext_m
require_for_op a op_div = a.ext_m
require_for_op a op_divu = a.ext_m
require_for_op a op_rem = a.ext_m
require_for_op a op_remu = a.ext_m
require_for_op a op_mulw = a.ext_m && a.xlen == 64
require_for_op a op_divw = a.ext_m && a.xlen == 64
require_for_op a op_divuw = a.ext_m && a.xlen == 64
require_for_op a op_remw = a.ext_m && a.xlen == 64
require_for_op a op_remuw = a.ext_m && a.xlen == 64
require_for_op a op = true

-- The immediate of an instruction once its label is resolved. A label without a relocation is an
-- error.
unfoldable pub operand : (Label → ℤ) → ℤ → Option Label → Reloc → ℕ → Option ℤ
operand search_sym imm none reloc addr = some imm
operand search_sym imm (some l) reloc_none addr = none
operand search_sym imm (some l) reloc addr = resolve_label search_sym l reloc addr
