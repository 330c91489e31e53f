-- ===== src/Layout.antt =====
-- The layout of the code in pass 2: the compressed choices and the addresses
-- (Assembler/src/pass2.c, from `pass2_node_size_now` to `pass2_relayout_and_validate`). The loops
-- over the buffer are recursion on the list of entries. `search_sym` is the symbol table's look-up,
-- an `int`, below 0 where the label is missing.
pub mod Places
pub mod Lands
pub mod Reach
pub mod Rounds
pub mod Settled
pub mod Keeps
use assembler_project.Base.{
  [], ℕ, zero, suc, ◌+◌, ◌-◌, ◌^◌, bit_and, Bool, true, false, not, ◌&&◌, ◌||◌, Option, none, some,
  List, ◌∷◌, ltb, ◌==◌, if◌then◌else◌,
}
use assembler_project.Base.Int.{ℤ, pos, negsuc, ◌+ℤ◌, ◌-ℤ◌, ltb_ℤ}
use assembler_project.Base.Word.{u32, bits32, to_int32}
use assembler_project.CRules.{c_try_map}
use assembler_project.Ir.Buffer.{ir_is_explicit_c, ir_get_forced_size, ir_set_c_choice}
use assembler_project.Ir.Entry.{
  Entry, Choice, Label, Kind, Section, Reloc, ir_data, ir_align, ir_instr, is_size_2, is_size_4,
  sec_text, same_section, reloc_none, reloc_hi20, reloc_lo12, reloc_boff, reloc_jtgt,
}
use assembler_project.Ir.Opcode.{Opcode, ◌is◌, op_c_beqz, op_c_bnez, op_c_j, op_c_jal}
use assembler_project.Pass.{Arch}

unfoldable pub pass2_node_size_now : Entry → ℕ
unfolding ir_is_explicit_c
pass2_node_size_now e =
    if ir_is_explicit_c e
    then 2
    else if is_size_2 e.forced_size
    then 2
    else if is_size_4 e.forced_size
    then 4
    else if e.has_c_choice
    then 2
    else 4

-- `(disp & 1) == 0 && disp >= lo && disp <= hi`
abbrev pub even_within : ℤ → ℤ → ℤ → Bool
even_within lo hi disp = bit_and (bits32 disp) 1 == 0 && not (ltb_ℤ disp lo) && not (ltb_ℤ hi disp)

unfoldable pub pass2_choice_range_ok : Choice → ℤ → Bool
pass2_choice_range_ok ch disp =
    if ch.op is op_c_beqz || ch.op is op_c_bnez
    then even_within (negsuc 255) (pos 254) disp
    else if ch.op is op_c_j || ch.op is op_c_jal
    then even_within (negsuc 2047) (pos 2046) disp
    else true

unfoldable pub pass2_compute_disp : ℕ → ℕ → ℤ
pass2_compute_disp from_addr to_addr = to_int32 (pos to_addr) -ℤ to_int32 (pos from_addr)

unfoldable pub pass2_peek_label_addr : (Label → ℤ) → Label → Option ℕ
pass2_peek_label_addr search_sym label =
    let addr = search_sym label in if ltb_ℤ addr (pos 0) then none else some (bits32 addr)

abbrev pub needs_pc_rel : Opcode → Bool
needs_pc_rel op = op is op_c_beqz || op is op_c_bnez || op is op_c_j || op is op_c_jal

abbrev is_target : Reloc → Bool
is_target reloc_boff = true
is_target reloc_jtgt = true
is_target _ = false

-- Where a choice leads: `none` is `continue`, and `some none` a target that is missing.
abbrev pub target_of : (Label → ℤ) → ℕ → Choice → Option (Option ℕ)
target_of search_sym addr ch =
    let near =
      if is_target ch.reloc
      then some (some (bits32 (to_int32 (pos addr) +ℤ to_int32 ch.imm)))
      else none in
    elim ch.label [
      | some l ↦ elim l [ c ∷ cs ↦ some (pass2_peek_label_addr search_sym (c ∷ cs)) | [] ↦ near ]
      | none ↦ near
    ]

-- `e->has_c_choice = false`, and `choice.imm = disp`
abbrev pub drop_choice : Entry → Entry
drop_choice e = record e { has_c_choice = false }

abbrev pub set_disp : ℤ → Entry → Entry
set_disp disp e = record e { choice = record (e.choice) { imm = disp } }

-- The end of the loop's body. The Boolean is what the turn adds to `changed`.
abbrev pub retarget : Option (Option ℕ) → Entry → Entry × Bool
retarget none e = (e, false)
retarget (some none) e = (drop_choice e, true)
retarget (some (some to_addr)) e =
    let disp = pass2_compute_disp e.addr to_addr in
    if pass2_choice_range_ok e.choice disp then (set_disp disp e, false) else (drop_choice e, true)

unfoldable pub validate_entry : (Label → ℤ) → Section → Entry → Entry × Bool
validate_entry search_sym sect e =
    if not (same_section e.sect sect) || not e.has_c_choice || not (needs_pc_rel e.choice.op)
    then (e, false)
    else retarget (target_of search_sym e.addr e.choice) e

unfoldable pub validate_entries : (Label → ℤ) → Section → List Entry → List Entry × Bool
validate_entries search_sym sect [] = ([], false)
validate_entries search_sym sect (e ∷ es) =
    let head = validate_entry search_sym sect e in
    let rest = validate_entries search_sym sect es in (head.0 ∷ rest.0, head.1 || rest.1)

unfoldable pub pass2_validate_compressed_ranges :
    Arch → (Label → ℤ) → Section → List Entry → List Entry × Bool
pass2_validate_compressed_ranges a search_sym sect es =
    if not a.ext_c || not a.auto_c then (es, false) else validate_entries search_sym sect es

-- One turn of `pass2_assign_addresses`: the entry and the next program counter.
unfoldable pub place : Kind → ℕ → Entry → Entry × ℕ
place ir_data pc e = (record e { addr = pc }, u32 (pc + e.size))
place ir_align pc e =
    let align = bits32 e.imm in
    let aligned = bit_and (u32 (pc + (align - 1))) (2 ^ 32 - 1 - (align - 1)) in
    if ltb 1 align
    then (record e { size = u32 (aligned + 2 ^ 32 - pc); addr = aligned }, aligned)
    else (record e { size = 0; addr = pc }, pc)
place ir_instr pc e =
    let size = pass2_node_size_now e in (record e { size = size; addr = pc }, u32 (pc + size))

unfoldable pub assign_from : Section → ℕ → List Entry → List Entry
assign_from sect pc [] = []
assign_from sect pc (e ∷ es) =
    let placed = place e.kind pc e in
    if not (same_section e.sect sect)
    then e ∷ assign_from sect pc es
    else placed.0 ∷ assign_from sect placed.1 es

unfoldable pub pass2_assign_addresses : Section → List Entry → List Entry
pass2_assign_addresses sect es = assign_from sect 0 es

abbrev is_instr : Kind → Bool
is_instr ir_instr = true
is_instr _ = false

-- A relocation that a choice may carry.
abbrev may_carry : Reloc → Bool
may_carry reloc_hi20 = false
may_carry reloc_lo12 = false
may_carry _ = true

unfoldable pub pass2_node_can_attempt : Arch → Entry → Bool
unfolding ir_is_explicit_c ir_get_forced_size
pass2_node_can_attempt a e =
    a.ext_c
    && a.auto_c
    && is_instr e.kind
    && not (ir_is_explicit_c e)
    && not (is_size_4 (ir_get_forced_size e))
    && e.can_compress
    && may_carry e.reloc
    && same_section e.sect sec_text

abbrev attach : Option Choice → Entry → Entry
attach none e = drop_choice e
attach (some ch) e = ir_set_c_choice e ch

unfoldable pub plan_entry : Arch → Entry → Entry
plan_entry a e = if pass2_node_can_attempt a e then attach (c_try_map a e) e else e

unfoldable pub plan_entries : Arch → List Entry → List Entry
plan_entries a [] = []
plan_entries a (e ∷ es) = plan_entry a e ∷ plan_entries a es

-- The count that the source returns is not used.
unfoldable pub pass2_plan_choices : Arch → List Entry → List Entry
pass2_plan_choices a es = if not a.ext_c || not a.auto_c then es else plan_entries a es

-- The iterations that are left, and the verdict.
unfoldable pub relayout : Arch → (Label → ℤ) → Section → ℕ → List Entry → Bool × List Entry
relayout a search_sym sect zero es = (false, es)
relayout a search_sym sect (suc left) es =
    let out = pass2_validate_compressed_ranges a search_sym sect (pass2_assign_addresses sect es) in
    let rest = relayout a search_sym sect left (out.0) in
    if not (out.1) then (true, out.0) else rest

unfoldable pub pass2_relayout_and_validate :
    Arch → (Label → ℤ) → Section → ℕ → List Entry → Bool × List Entry
pass2_relayout_and_validate a search_sym sect max_iters es =
    relayout a search_sym sect (if max_iters == 0 then 1 else max_iters) es
