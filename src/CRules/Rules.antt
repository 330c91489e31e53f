-- ===== src/CRules/Rules.antt =====
-- The rules of c_rules.c for arithmetic on registers, one to a function, each with the guards of the
-- source in its order.
use assembler_project.Base.{
  ℕ, bit_and, Bool, not, ◌&&◌, ◌||◌, Option, none, some, ltb, ◌==◌, ◌!=◌, if◌then◌else◌,
}
use assembler_project.Base.Int.{ℤ, pos, negsuc, ltb_ℤ, eqb_ℤ}
use assembler_project.Base.Word.{bits64}
use assembler_project.Ir.Entry.{Entry, Choice, Fmt, if_ca, if_ci, if_cr, reloc_none}
use assembler_project.Ir.Opcode.{
  Opcode, ◌is◌, op_addi, op_slli, op_srai, op_srli, op_andi, op_add, op_jalr, op_ebreak, op_sub,
  op_xor, op_or, op_and, op_subw, op_addw, op_c_addi, op_c_li, op_c_slli, op_c_srai, op_c_srli,
  op_c_andi, op_c_mv, op_c_add, op_c_jr, op_c_jalr, op_c_ebreak, op_c_sub, op_c_xor, op_c_or,
  op_c_and, op_c_subw, op_c_addw,
}
use assembler_project.Pass.{Arch}

-- A choice with no label.
abbrev pub plain : Opcode → Fmt → ℕ → ℕ → ℕ → ℤ → Choice
plain op fmt rd rs1 rs2 imm = record {
  op = op;
  fmt = fmt;
  rd = rd;
  rs1 = rs1;
  rs2 = rs2;
  imm = imm;
  label = none;
  reloc = reloc_none;
}

-- `x < 8 || x > 15`
abbrev pub not_prime : ℕ → Bool
not_prime x = ltb x 8 || ltb 15 x

-- `imm < -32 || imm > 31`, and the test of a shift amount
abbrev pub not_imm6 : ℤ → Bool
not_imm6 imm = ltb_ℤ imm (negsuc 31) || ltb_ℤ (pos 31) imm

abbrev pub not_shamt : Arch → ℤ → Bool
not_shamt a imm = ltb_ℤ imm (pos 0) || ltb (if a.xlen == 64 then 63 else 31) (bits64 imm)

-- `(imm & mask) != 0 || imm > top`
abbrev pub not_offset : ℕ → ℕ → ℤ → Bool
not_offset mask top imm = bit_and (bits64 imm) mask != 0 || ltb_ℤ (pos top) imm

unfoldable pub c_map_addi_self : Entry → Option Choice
c_map_addi_self n =
    if not (n.op is op_addi) || n.rd != n.rs1 || not_imm6 n.imm || n.rd == 0
    then none
    else some (plain op_c_addi if_ci n.rd n.rd 0 n.imm)

unfoldable pub c_map_li_via_addi : Entry → Option Choice
c_map_li_via_addi n =
    if not (n.op is op_addi) || (n.rs1 != 0 || n.rd == 0) || eqb_ℤ n.imm (pos 0) || not_imm6 n.imm
    then none
    else some (plain op_c_li if_ci n.rd 0 0 n.imm)

unfoldable pub c_map_nop : Entry → Option Choice
c_map_nop n =
    if (n.rd != 0 || n.rs1 != 0 || not (eqb_ℤ n.imm (pos 0))) || not (n.op is op_addi)
    then none
    else some (plain op_c_addi if_ci 0 0 0 (pos 0))

unfoldable pub c_map_slli : Arch → Entry → Option Choice
c_map_slli a n =
    if n.rd == 0 || n.rd != n.rs1 || not (n.op is op_slli) || not_shamt a n.imm
    then none
    else some (plain op_c_slli if_ci n.rd n.rd 0 n.imm)

unfoldable pub c_map_srxi_prime : Arch → Entry → Option Choice
c_map_srxi_prime a n =
    if n.rd != n.rs1
      || (not (n.op is op_srai) && not (n.op is op_srli))
      || not_prime n.rd
      || not_shamt a n.imm
    then none
    else some (plain (if n.op is op_srai then op_c_srai else op_c_srli) if_ci n.rd n.rd 0 n.imm)

unfoldable pub c_map_andi_prime : Entry → Option Choice
c_map_andi_prime n =
    if n.rd != n.rs1 || not_prime n.rd || not_imm6 n.imm || not (n.op is op_andi)
    then none
    else some (plain op_c_andi if_ci n.rd n.rd 0 n.imm)

unfoldable pub c_map_mv : Entry → Option Choice
c_map_mv n =
    if (n.rd == 0 || n.rs2 == 0 || n.rs1 != 0) || not (n.op is op_add)
    then none
    else some (plain op_c_mv if_cr n.rd 0 n.rs2 (pos 0))

unfoldable pub c_map_add_cr : Entry → Option Choice
c_map_add_cr n =
    if not (n.op is op_add) || n.rd != n.rs1 || (n.rd == 0 || n.rs2 == 0)
    then none
    else some (plain op_c_add if_cr n.rd n.rd n.rs2 (pos 0))

unfoldable pub c_map_jr : Entry → Option Choice
c_map_jr n =
    if (n.rd != 0 || not (eqb_ℤ n.imm (pos 0)) || n.rs1 == 0) || not (n.op is op_jalr)
    then none
    else some (plain op_c_jr if_cr 0 n.rs1 0 (pos 0))

unfoldable pub c_map_jalr : Entry → Option Choice
c_map_jalr n =
    if (n.rd != 1 || n.rs1 == 0 || not (eqb_ℤ n.imm (pos 0))) || not (n.op is op_jalr)
    then none
    else some (plain op_c_jalr if_cr 1 n.rs1 0 (pos 0))

unfoldable pub c_map_ebreak : Entry → Option Choice
c_map_ebreak n =
    if not (n.op is op_ebreak) then none else some (plain op_c_ebreak if_cr 0 0 0 (pos 0))

unfoldable pub c_map_ca_alu : Entry → Option Choice
c_map_ca_alu n =
    let op =
      if n.op is op_sub
      then op_c_sub
      else if n.op is op_xor
      then op_c_xor
      else if n.op is op_or
      then op_c_or
      else op_c_and in
    if (not (n.op is op_sub) && not (n.op is op_xor) && not (n.op is op_or) && not (n.op is op_and))
      || n.rd != n.rs1
      || (not_prime n.rs2 || not_prime n.rd)
    then none
    else some (plain op if_ca n.rd n.rs1 n.rs2 (pos 0))

unfoldable pub c_map_caw_alu64 : Arch → Entry → Option Choice
c_map_caw_alu64 a n =
    if a.xlen != 64
      || (not (n.op is op_subw) && not (n.op is op_addw))
      || n.rd != n.rs1
      || (not_prime n.rd || not_prime n.rs2)
    then none
    else some
        (plain (if n.op is op_subw then op_c_subw else op_c_addw) if_ca n.rd n.rd n.rs2 (pos 0))
