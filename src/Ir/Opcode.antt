-- ===== src/Ir/Opcode.antt =====
-- `opcode_t` (Assembler/include/ir.h): the enumeration, its values, and equality of opcodes.
use assembler_project.Base.{
  ℕ, ◌≡◌, refl, ap, sym, ◌∙◌, Bool, true, List, [], ◌∷◌, get_or, ◌==◌, ==_iff,
}

pub data Opcode : Type 0 where
  op_add op_sub op_sll op_slt op_sltu op_xor : Opcode
  op_srl op_sra op_or op_and op_mul op_mulh : Opcode
  op_mulhsu op_mulhu op_div op_divu op_rem op_remu : Opcode
  op_addw op_subw op_sllw op_srlw op_sraw op_mulw : Opcode
  op_divw op_divuw op_remw op_remuw op_addi op_slli : Opcode
  op_lw op_slti op_sltiu op_xori op_ori op_andi : Opcode
  op_srli op_srai op_jalr op_lb op_lh op_lbu : Opcode
  op_lhu op_ecall op_ebreak op_addiw op_slliw op_srliw : Opcode
  op_sraiw op_lwu op_ld op_auipc op_lui op_sw : Opcode
  op_sh op_sb op_sd op_beq op_bne op_blt : Opcode
  op_bge op_bltu op_bgeu op_jal op_c_add op_c_sub : Opcode
  op_c_xor op_c_or op_c_and op_c_subw op_c_addw op_c_jalr : Opcode
  op_c_ebreak op_c_addi op_c_addiw op_c_srli op_c_srai op_c_slli : Opcode
  op_c_lw op_c_ld op_c_beqz op_c_bnez op_c_jal op_c_sd : Opcode
  op_c_sw op_c_lui op_c_swsp op_c_sdsp op_c_ldsp op_c_lwsp : Opcode
  op_c_j op_c_jr op_c_andi op_c_mv op_c_li : Opcode

-- The value that C gives to each enumerator.
unfoldable pub index : Opcode → ℕ
index op_add = 0
index op_sub = 1
index op_sll = 2
index op_slt = 3
index op_sltu = 4
index op_xor = 5
index op_srl = 6
index op_sra = 7
index op_or = 8
index op_and = 9
index op_mul = 10
index op_mulh = 11
index op_mulhsu = 12
index op_mulhu = 13
index op_div = 14
index op_divu = 15
index op_rem = 16
index op_remu = 17
index op_addw = 18
index op_subw = 19
index op_sllw = 20
index op_srlw = 21
index op_sraw = 22
index op_mulw = 23
index op_divw = 24
index op_divuw = 25
index op_remw = 26
index op_remuw = 27
index op_addi = 28
index op_slli = 29
index op_lw = 30
index op_slti = 31
index op_sltiu = 32
index op_xori = 33
index op_ori = 34
index op_andi = 35
index op_srli = 36
index op_srai = 37
index op_jalr = 38
index op_lb = 39
index op_lh = 40
index op_lbu = 41
index op_lhu = 42
index op_ecall = 43
index op_ebreak = 44
index op_addiw = 45
index op_slliw = 46
index op_srliw = 47
index op_sraiw = 48
index op_lwu = 49
index op_ld = 50
index op_auipc = 51
index op_lui = 52
index op_sw = 53
index op_sh = 54
index op_sb = 55
index op_sd = 56
index op_beq = 57
index op_bne = 58
index op_blt = 59
index op_bge = 60
index op_bltu = 61
index op_bgeu = 62
index op_jal = 63
index op_c_add = 64
index op_c_sub = 65
index op_c_xor = 66
index op_c_or = 67
index op_c_and = 68
index op_c_subw = 69
index op_c_addw = 70
index op_c_jalr = 71
index op_c_ebreak = 72
index op_c_addi = 73
index op_c_addiw = 74
index op_c_srli = 75
index op_c_srai = 76
index op_c_slli = 77
index op_c_lw = 78
index op_c_ld = 79
index op_c_beqz = 80
index op_c_bnez = 81
index op_c_jal = 82
index op_c_sd = 83
index op_c_sw = 84
index op_c_lui = 85
index op_c_swsp = 86
index op_c_sdsp = 87
index op_c_ldsp = 88
index op_c_lwsp = 89
index op_c_j = 90
index op_c_jr = 91
index op_c_andi = 92
index op_c_mv = 93
index op_c_li = 94

abbrev opcodes : List Opcode
opcodes =
    op_add ∷ op_sub ∷ op_sll ∷ op_slt ∷ op_sltu ∷ op_xor ∷ op_srl ∷ op_sra ∷ op_or ∷ op_and ∷ op_mul
    ∷ op_mulh ∷ op_mulhsu ∷ op_mulhu ∷ op_div ∷ op_divu ∷ op_rem ∷ op_remu ∷ op_addw ∷ op_subw
    ∷ op_sllw ∷ op_srlw ∷ op_sraw ∷ op_mulw ∷ op_divw ∷ op_divuw ∷ op_remw ∷ op_remuw ∷ op_addi
    ∷ op_slli ∷ op_lw ∷ op_slti ∷ op_sltiu ∷ op_xori ∷ op_ori ∷ op_andi ∷ op_srli ∷ op_srai
    ∷ op_jalr ∷ op_lb ∷ op_lh ∷ op_lbu ∷ op_lhu ∷ op_ecall ∷ op_ebreak ∷ op_addiw ∷ op_slliw
    ∷ op_srliw ∷ op_sraiw ∷ op_lwu ∷ op_ld ∷ op_auipc ∷ op_lui ∷ op_sw ∷ op_sh ∷ op_sb ∷ op_sd
    ∷ op_beq ∷ op_bne ∷ op_blt ∷ op_bge ∷ op_bltu ∷ op_bgeu ∷ op_jal ∷ op_c_add ∷ op_c_sub
    ∷ op_c_xor ∷ op_c_or ∷ op_c_and ∷ op_c_subw ∷ op_c_addw ∷ op_c_jalr ∷ op_c_ebreak ∷ op_c_addi
    ∷ op_c_addiw ∷ op_c_srli ∷ op_c_srai ∷ op_c_slli ∷ op_c_lw ∷ op_c_ld ∷ op_c_beqz ∷ op_c_bnez
    ∷ op_c_jal ∷ op_c_sd ∷ op_c_sw ∷ op_c_lui ∷ op_c_swsp ∷ op_c_sdsp ∷ op_c_ldsp ∷ op_c_lwsp
    ∷ op_c_j ∷ op_c_jr ∷ op_c_andi ∷ op_c_mv ∷ op_c_li ∷ []

of_index-index : (op : Opcode) → get_or opcodes (index op) op_add ≡ op
unfolding index
of_index-index op_add = refl
of_index-index _ = refl

-- `a == b` on opcodes.
infix 50 ◌is◌
abbrev pub ◌is◌ : Opcode → Opcode → Bool
a is b = index a == index b

pub is_eq : (a b : Opcode) → (a is b) ≡ true → a ≡ b
is_eq a b h =
    sym (of_index-index a)
    ∙ ap (λ i. get_or opcodes i op_add) ((==_iff (index a) (index b)).0 h)
    ∙ of_index-index b

pub is_refl : (a : Opcode) → (a is a) ≡ true
is_refl a = (==_iff (index a) (index a)).1 refl
