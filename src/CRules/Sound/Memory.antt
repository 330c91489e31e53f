-- ===== src/CRules/Sound/Memory.antt =====
-- The rules for loads, stores, branches and jumps.
use assembler_project.Base.{◌≡◌, refl, inl, inr, arith, ◌==◌, Bool-cases}
use assembler_project.CRules.Meaning.{meaning, expand}
use assembler_project.CRules.MemoryRules.{
  bad_cl_load, bad_cs_store, bad_sp_load, bad_sp_store, c_map_cl_load, c_map_cs_store,
  c_map_ci_sp_load, c_map_css_sp_store, c_map_cb_branchz, c_map_cj_jump,
}
use assembler_project.Ir.Entry.{Entry}
use assembler_project.Ir.Opcode.{◌is◌, is_eq, op_lw, op_ld, op_sw, op_sd, op_beq, op_bne, op_jal}
use assembler_project.Pass.{Arch}
use assembler_project.CRules.Sound.Outcome.{Yields, branch, within, past}

pub cl_load_lem : (a : Arch) (n : Entry) → Yields n (c_map_cl_load a n)
unfolding c_map_cl_load meaning expand
cl_load_lem a n = within n (bad_cl_load n) _ λ t.
    branch n (n.op is op_lw) _ _
      (λ first.
        let o = is_eq n.op op_lw first in
        past n _ _ λ u. record { expands = rw (o); target = inl refl; short = refl })
      (λ other.
        let o = is_eq n.op op_ld (ground arith) in
        past n _ _ λ u. record { expands = rw (o); target = inl refl; short = refl })

pub cs_store_lem : (n : Entry) → Yields n (c_map_cs_store n)
unfolding c_map_cs_store meaning expand
cs_store_lem n = within n (bad_cs_store n) _ λ t.
    branch n (n.op is op_sw) _ _
      (λ first.
        let o = is_eq n.op op_sw first in
        past n _ _ λ u. record { expands = rw (o); target = inl refl; short = refl })
      (λ other.
        let o = is_eq n.op op_sd (ground arith) in
        past n _ _ λ u. record { expands = rw (o); target = inl refl; short = refl })

pub ci_sp_load_lem : (a : Arch) (n : Entry) → Yields n (c_map_ci_sp_load a n)
unfolding c_map_ci_sp_load meaning expand
ci_sp_load_lem a n = within n (bad_sp_load n) _ λ t.
    let on_stack : n.rs1 ≡ 2 = ground arith in
    branch n (n.op is op_lw) _ _
      (λ first.
        let o = is_eq n.op op_lw first in
        past n _ _ λ u. record { expands = rw (o, on_stack); target = inl refl; short = refl })
      (λ other.
        let o = is_eq n.op op_ld (ground arith) in
        past n _ _ λ u. record { expands = rw (o, on_stack); target = inl refl; short = refl })

pub css_sp_store_lem : (n : Entry) → Yields n (c_map_css_sp_store n)
unfolding c_map_css_sp_store meaning expand
css_sp_store_lem n = within n (bad_sp_store n) _ λ t.
    let on_stack : n.rs1 ≡ 2 = ground arith in
    branch n (n.op is op_sw) _ _
      (λ first.
        let o = is_eq n.op op_sw first in
        past n _ _ λ u. record { expands = rw (o, on_stack); target = inl refl; short = refl })
      (λ other.
        let o = is_eq n.op op_sd (ground arith) in
        past n _ _ λ u. record { expands = rw (o, on_stack); target = inl refl; short = refl })

pub cb_branchz_lem : (n : Entry) → Yields n (c_map_cb_branchz n)
unfolding c_map_cb_branchz meaning expand
cb_branchz_lem n = past n _ _ λ t.
    let on_zero : n.rs2 ≡ 0 = ground arith in
    elim (Bool-cases (n.op is op_beq)) [
      | inl first ↦
          let o = is_eq n.op op_beq first in
          record { expands = rw (first, o, on_zero); target = inr (refl, refl); short = refl }
      | inr other ↦
          let o = is_eq n.op op_bne (ground arith) in
          record { expands = rw (other, o, on_zero); target = inr (refl, refl); short = refl }
    ]

pub cj_jump_lem : (a : Arch) (n : Entry) → Yields n (c_map_cj_jump a n)
unfolding c_map_cj_jump meaning expand
cj_jump_lem a n = past n _ _ λ t.
    let o = is_eq n.op op_jal (ground arith) in
    elim (Bool-cases (n.rd == 0)) [
      | inl plain ↦
          let zero_rd : n.rd ≡ 0 = ground arith in
          record { expands = rw (plain, o, zero_rd); target = inr (refl, refl); short = refl }
      | inr link ↦
          let to_ra : n.rd ≡ 1 = ground arith in
          record { expands = rw (link, o, to_ra); target = inr (refl, refl); short = refl }
    ]
