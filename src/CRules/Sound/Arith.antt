-- ===== src/CRules/Sound/Arith.antt =====
-- The rules for arithmetic on one register and for jumps through a register.
use assembler_project.Base.{◌≡◌, refl, inl, inr, arith, Bool-cases}
use assembler_project.Base.Int.{pos}
use assembler_project.CRules.Meaning.{meaning, expand}
use assembler_project.CRules.Rules.{
  c_map_addi_self, c_map_li_via_addi, c_map_nop, c_map_slli, c_map_srxi_prime, c_map_andi_prime,
  c_map_mv, c_map_add_cr, c_map_jr, c_map_jalr, c_map_ebreak, c_map_ca_alu, c_map_caw_alu64,
}
use assembler_project.Ir.Entry.{Entry}
use assembler_project.Ir.Opcode.{
  ◌is◌, is_eq, op_addi, op_slli, op_srai, op_srli, op_andi, op_add, op_jalr, op_ebreak, op_sub,
  op_xor, op_or, op_and, op_subw, op_addw,
}
use assembler_project.Pass.{Arch}
use assembler_project.CRules.Sound.Outcome.{Yields, past}

pub addi_self_lem : (n : Entry) → Yields n (c_map_addi_self n)
unfolding c_map_addi_self meaning expand
addi_self_lem n = past n _ _ λ t.
    let o = is_eq n.op op_addi (ground arith) in
    let same : n.rd ≡ n.rs1 = ground arith in
    record { expands = rw (o, same); target = inl refl; short = refl }

pub li_via_addi_lem : (n : Entry) → Yields n (c_map_li_via_addi n)
unfolding c_map_li_via_addi meaning expand
li_via_addi_lem n = past n _ _ λ t.
    let o = is_eq n.op op_addi (ground arith) in
    let zero_base : n.rs1 ≡ 0 = ground arith in
    record { expands = rw (o, zero_base); target = inl refl; short = refl }

pub nop_lem : (n : Entry) → Yields n (c_map_nop n)
unfolding c_map_nop meaning expand
nop_lem n = past n _ _ λ t.
    let o = is_eq n.op op_addi (ground arith) in
    let to_zero : n.rd ≡ 0 = ground arith in
    let zero_base : n.rs1 ≡ 0 = ground arith in
    let no_imm : n.imm ≡ pos 0 = ground arith in
    record { expands = rw (o, to_zero, zero_base, no_imm); target = inl refl; short = refl }

pub slli_lem : (a : Arch) (n : Entry) → Yields n (c_map_slli a n)
unfolding c_map_slli meaning expand
slli_lem a n = past n _ _ λ t.
    let o = is_eq n.op op_slli (ground arith) in
    let same : n.rd ≡ n.rs1 = ground arith in
    record { expands = rw (o, same); target = inl refl; short = refl }

pub andi_prime_lem : (n : Entry) → Yields n (c_map_andi_prime n)
unfolding c_map_andi_prime meaning expand
andi_prime_lem n = past n _ _ λ t.
    let o = is_eq n.op op_andi (ground arith) in
    let same : n.rd ≡ n.rs1 = ground arith in
    record { expands = rw (o, same); target = inl refl; short = refl }

pub mv_lem : (n : Entry) → Yields n (c_map_mv n)
unfolding c_map_mv meaning expand
mv_lem n = past n _ _ λ t.
    let o = is_eq n.op op_add (ground arith) in
    let zero_base : n.rs1 ≡ 0 = ground arith in
    record { expands = rw (o, zero_base); target = inl refl; short = refl }

pub add_cr_lem : (n : Entry) → Yields n (c_map_add_cr n)
unfolding c_map_add_cr meaning expand
add_cr_lem n = past n _ _ λ t.
    let o = is_eq n.op op_add (ground arith) in
    let same : n.rd ≡ n.rs1 = ground arith in
    record { expands = rw (o, same); target = inl refl; short = refl }

pub jr_lem : (n : Entry) → Yields n (c_map_jr n)
unfolding c_map_jr meaning expand
jr_lem n = past n _ _ λ t.
    let o = is_eq n.op op_jalr (ground arith) in
    let to_zero : n.rd ≡ 0 = ground arith in
    let no_imm : n.imm ≡ pos 0 = ground arith in
    record { expands = rw (o, to_zero, no_imm); target = inl refl; short = refl }

pub jalr_lem : (n : Entry) → Yields n (c_map_jalr n)
unfolding c_map_jalr meaning expand
jalr_lem n = past n _ _ λ t.
    let o = is_eq n.op op_jalr (ground arith) in
    let to_ra : n.rd ≡ 1 = ground arith in
    let no_imm : n.imm ≡ pos 0 = ground arith in
    record { expands = rw (o, to_ra, no_imm); target = inl refl; short = refl }

pub ebreak_lem : (n : Entry) → Yields n (c_map_ebreak n)
unfolding c_map_ebreak meaning expand
ebreak_lem n = past n _ _ λ t.
    let o = is_eq n.op op_ebreak (ground arith) in
    record { expands = rw (o); target = inl refl; short = refl }

pub srxi_prime_lem : (a : Arch) (n : Entry) → Yields n (c_map_srxi_prime a n)
unfolding c_map_srxi_prime meaning expand
srxi_prime_lem a n = past n _ _ λ t.
    let same : n.rd ≡ n.rs1 = ground arith in
    elim (Bool-cases (n.op is op_srai)) [
      | inl first ↦
          let o = is_eq n.op op_srai first in
          record { expands = rw (first, o, same); target = inl refl; short = refl }
      | inr other ↦
          let o = is_eq n.op op_srli (ground arith) in
          record { expands = rw (other, o, same); target = inl refl; short = refl }
    ]

pub caw_alu64_lem : (a : Arch) (n : Entry) → Yields n (c_map_caw_alu64 a n)
unfolding c_map_caw_alu64 meaning expand
caw_alu64_lem a n = past n _ _ λ t.
    let same : n.rd ≡ n.rs1 = ground arith in
    elim (Bool-cases (n.op is op_subw)) [
      | inl first ↦
          let o = is_eq n.op op_subw first in
          record { expands = rw (first, o, same); target = inl refl; short = refl }
      | inr other ↦
          let o = is_eq n.op op_addw (ground arith) in
          record { expands = rw (other, o, same); target = inl refl; short = refl }
    ]

pub ca_alu_lem : (n : Entry) → Yields n (c_map_ca_alu n)
unfolding c_map_ca_alu meaning expand
ca_alu_lem n = past n _ _ λ t.
    let same : n.rd ≡ n.rs1 = ground arith in
    elim (Bool-cases (n.op is op_sub)) [
      | inl yes_sub ↦
          let o = is_eq n.op op_sub yes_sub in
          record { expands = rw (yes_sub, o, same); target = inl refl; short = refl }
      | inr no_sub ↦ elim (Bool-cases (n.op is op_xor)) [
        | inl yes_xor ↦
            let o = is_eq n.op op_xor yes_xor in
            record { expands = rw (no_sub, yes_xor, o, same); target = inl refl; short = refl }
        | inr no_xor ↦ elim (Bool-cases (n.op is op_or)) [
          | inl yes_or ↦
              let o = is_eq n.op op_or yes_or in
              record {
                expands = rw (no_sub, no_xor, yes_or, o, same);
                target = inl refl;
                short = refl;
              }
          | inr no_or ↦
              let o = is_eq n.op op_and (ground arith) in
              record {
                expands = rw (no_sub, no_xor, no_or, o, same);
                target = inl refl;
                short = refl;
              }
        ]
      ]
    ]
