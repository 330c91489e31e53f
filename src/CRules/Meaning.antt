-- ===== src/CRules/Meaning.antt =====
-- What an instruction does, as the manual has it: its opcode with the operands that count. A
-- compressed instruction stands for the 32-bit one that the manual expands it to.
use assembler_project.Base.{ℕ, ◌≡◌, ◌⊎◌, true, Option, none, some}
use assembler_project.Base.Int.{ℤ, pos}
use assembler_project.Ir.Entry.{Entry, Choice, is_c_fmt}
use assembler_project.Ir.Opcode.{
  Opcode, op_addi, op_slli, op_srai, op_srli, op_andi, op_add, op_jalr, op_ebreak, op_sub, op_xor,
  op_or, op_and, op_subw, op_addw, op_lw, op_ld, op_sw, op_sd, op_beq, op_bne, op_jal, op_c_addi,
  op_c_li, op_c_slli, op_c_srai, op_c_srli, op_c_andi, op_c_mv, op_c_add, op_c_jr, op_c_jalr,
  op_c_ebreak, op_c_sub, op_c_xor, op_c_or, op_c_and, op_c_subw, op_c_addw, op_c_lw, op_c_ld,
  op_c_sw, op_c_sd, op_c_lwsp, op_c_ldsp, op_c_swsp, op_c_sdsp, op_c_beqz, op_c_bnez, op_c_j,
  op_c_jal,
}

pub record Operation : Type 0 where
  pub op : Opcode
  pub rd : ℕ
  pub rs1 : ℕ
  pub rs2 : ℕ
  pub imm : ℤ

abbrev pub operation : Opcode → ℕ → ℕ → ℕ → ℤ → Operation
operation op rd rs1 rs2 imm = record { op = op; rd = rd; rs1 = rs1; rs2 = rs2; imm = imm }

-- The operands that an opcode of the rules does not use are left out.
unfoldable pub meaning : Opcode → ℕ → ℕ → ℕ → ℤ → Operation
meaning op_addi rd rs1 rs2 imm = operation op_addi rd rs1 0 imm
meaning op_slli rd rs1 rs2 imm = operation op_slli rd rs1 0 imm
meaning op_srai rd rs1 rs2 imm = operation op_srai rd rs1 0 imm
meaning op_srli rd rs1 rs2 imm = operation op_srli rd rs1 0 imm
meaning op_andi rd rs1 rs2 imm = operation op_andi rd rs1 0 imm
meaning op_jalr rd rs1 rs2 imm = operation op_jalr rd rs1 0 imm
meaning op_lw rd rs1 rs2 imm = operation op_lw rd rs1 0 imm
meaning op_ld rd rs1 rs2 imm = operation op_ld rd rs1 0 imm
meaning op_add rd rs1 rs2 imm = operation op_add rd rs1 rs2 (pos 0)
meaning op_sub rd rs1 rs2 imm = operation op_sub rd rs1 rs2 (pos 0)
meaning op_xor rd rs1 rs2 imm = operation op_xor rd rs1 rs2 (pos 0)
meaning op_or rd rs1 rs2 imm = operation op_or rd rs1 rs2 (pos 0)
meaning op_and rd rs1 rs2 imm = operation op_and rd rs1 rs2 (pos 0)
meaning op_subw rd rs1 rs2 imm = operation op_subw rd rs1 rs2 (pos 0)
meaning op_addw rd rs1 rs2 imm = operation op_addw rd rs1 rs2 (pos 0)
meaning op_ebreak rd rs1 rs2 imm = operation op_ebreak 0 0 0 (pos 0)
meaning op_sw rd rs1 rs2 imm = operation op_sw 0 rs1 rs2 imm
meaning op_sd rd rs1 rs2 imm = operation op_sd 0 rs1 rs2 imm
meaning op_beq rd rs1 rs2 imm = operation op_beq 0 rs1 rs2 imm
meaning op_bne rd rs1 rs2 imm = operation op_bne 0 rs1 rs2 imm
meaning op_jal rd rs1 rs2 imm = operation op_jal rd 0 0 imm
meaning op rd rs1 rs2 imm = operation op rd rs1 rs2 imm

-- The manual's expansions.
unfoldable pub expand : Opcode → ℕ → ℕ → ℕ → ℤ → Option Operation
expand op_c_addi rd rs1 rs2 imm = some (operation op_addi rd rd 0 imm)
expand op_c_li rd rs1 rs2 imm = some (operation op_addi rd 0 0 imm)
expand op_c_slli rd rs1 rs2 imm = some (operation op_slli rd rd 0 imm)
expand op_c_srai rd rs1 rs2 imm = some (operation op_srai rd rd 0 imm)
expand op_c_srli rd rs1 rs2 imm = some (operation op_srli rd rd 0 imm)
expand op_c_andi rd rs1 rs2 imm = some (operation op_andi rd rd 0 imm)
expand op_c_mv rd rs1 rs2 imm = some (operation op_add rd 0 rs2 (pos 0))
expand op_c_add rd rs1 rs2 imm = some (operation op_add rd rd rs2 (pos 0))
expand op_c_jr rd rs1 rs2 imm = some (operation op_jalr 0 rs1 0 (pos 0))
expand op_c_jalr rd rs1 rs2 imm = some (operation op_jalr 1 rs1 0 (pos 0))
expand op_c_ebreak rd rs1 rs2 imm = some (operation op_ebreak 0 0 0 (pos 0))
expand op_c_sub rd rs1 rs2 imm = some (operation op_sub rd rd rs2 (pos 0))
expand op_c_xor rd rs1 rs2 imm = some (operation op_xor rd rd rs2 (pos 0))
expand op_c_or rd rs1 rs2 imm = some (operation op_or rd rd rs2 (pos 0))
expand op_c_and rd rs1 rs2 imm = some (operation op_and rd rd rs2 (pos 0))
expand op_c_subw rd rs1 rs2 imm = some (operation op_subw rd rd rs2 (pos 0))
expand op_c_addw rd rs1 rs2 imm = some (operation op_addw rd rd rs2 (pos 0))
expand op_c_lw rd rs1 rs2 imm = some (operation op_lw rd rs1 0 imm)
expand op_c_ld rd rs1 rs2 imm = some (operation op_ld rd rs1 0 imm)
expand op_c_sw rd rs1 rs2 imm = some (operation op_sw 0 rs1 rs2 imm)
expand op_c_sd rd rs1 rs2 imm = some (operation op_sd 0 rs1 rs2 imm)
expand op_c_lwsp rd rs1 rs2 imm = some (operation op_lw rd 2 0 imm)
expand op_c_ldsp rd rs1 rs2 imm = some (operation op_ld rd 2 0 imm)
expand op_c_swsp rd rs1 rs2 imm = some (operation op_sw 0 2 rs2 imm)
expand op_c_sdsp rd rs1 rs2 imm = some (operation op_sd 0 2 rs2 imm)
expand op_c_beqz rd rs1 rs2 imm = some (operation op_beq 0 rs1 0 imm)
expand op_c_bnez rd rs1 rs2 imm = some (operation op_bne 0 rs1 0 imm)
expand op_c_j rd rs1 rs2 imm = some (operation op_jal 0 0 0 imm)
expand op_c_jal rd rs1 rs2 imm = some (operation op_jal 1 0 0 imm)
expand _ rd rs1 rs2 imm = none

-- A choice is a 16-bit form that expands to what the entry does, and drops the label or keeps label
-- and relocation.
pub record IsSound (n : Entry) (ch : Choice) : Type 0 where
  pub expands : expand ch.op ch.rd ch.rs1 ch.rs2 ch.imm ≡ some (meaning n.op n.rd n.rs1 n.rs2 n.imm)
  pub target : (ch.label ≡ none) ⊎ (ch.label ≡ n.label) × (ch.reloc ≡ n.reloc)
  pub short : is_c_fmt ch.fmt ≡ true
