-- ===== src/Encode/Full/Shifts.antt =====
-- The shifts by an immediate, and the two system instructions, against the manual's layouts.
use assembler_project.Base.{
  ℕ, ◌/◌, ◌%◌, ◌^◌, ◌≤◌, ◌<◌, bit_and, ◌≡◌, refl, ◌⊎◌, inl, inr, Bool, true, false, not, ◌&&◌, ◌||◌,
  some, arith, ltb, ◌==◌, if◌then◌else◌, Bool-cases,
}
use assembler_project.Base.Int.{ℤ, pos, negsuc, pos_part, ltb_ℤ}
use assembler_project.Base.Word.{bits64, bits32}
use assembler_project.Encode.Full.{
  encode_itype, encode_imm12, encode_shift, is_shift, is_word_shift, max_shamt, pack_r, pack_shift6,
}
use assembler_project.Encode.Full.Fields.{pack_r_sum, pack_shift6_sum, table-IsNarrow}
use assembler_project.Encode.Isa.{ShiftFields, decode_shift, IsIn, Accepts}
use assembler_project.Encode.Table.{encoding_table}
use assembler_project.Ir.Opcode.{Opcode, ◌is◌, index, op_add, op_srai, op_ecall, op_ebreak}

-- RV64 keeps a six-bit function code, which is the seven-bit one without its lowest bit.
shift_code :
    (op : Opcode)
    → is_shift op ≡ true
    → is_word_shift op ≡ false
    → (if op is op_srai then 0x10 else bit_and (encoding_table op).funct7 0x3f)
        ≡ (encoding_table op).funct7 / 2
      × ((encoding_table op).funct7 / 2 < 64)
unfolding index encoding_table
shift_code op_add s t = cc
shift_code _ s t = ground arith

abbrev pub shift_fields : Opcode → ℕ → ℕ → ℤ → ℕ → ShiftFields
shift_fields op rd rs1 imm funct = record {
  opcode = (encoding_table op).opcode;
  rd = rd;
  funct3 = (encoding_table op).funct3;
  rs1 = rs1;
  shamt = pos_part imm;
  funct = funct;
}

abbrev pub IsInt64 : ℤ → Type 0
IsInt64 imm = IsIn (negsuc 9223372036854775807) (pos 9223372036854775807) imm

-- A shift takes six bits of amount under RV64, unless it is a word shift.
abbrev pub is_wide : ℕ → Opcode → Bool
is_wide xlen op = not (is_word_shift op) && xlen == 64

abbrev wide_shift : Opcode → ℕ → ℕ → ℕ → ℕ
wide_shift op rd rs1 n =
    pack_shift6 (if op is op_srai then 0x10 else bit_and (encoding_table op).funct7 0x3f)
      (bits32 (pos n)) rs1 (encoding_table op).funct3 rd (encoding_table op).opcode

abbrev narrow_shift : Opcode → ℕ → ℕ → ℕ → ℕ
narrow_shift op rd rs1 n =
    pack_r (encoding_table op).funct7 (bits32 (pos n)) rs1 (encoding_table op).funct3 rd
      (encoding_table op).opcode

wide_word :
    (op : Opcode) (rd rs1 n : ℕ)
    → is_shift op ≡ true
    → is_word_shift op ≡ false
    → rd < 32
    → rs1 < 32
    → n < 64
    → decode_shift 6 (wide_shift op rd rs1 n)
      ≡ shift_fields op rd rs1 (pos n) ((encoding_table op).funct7 / 2)
wide_word op rd rs1 n s t a b c =
    let i = encoding_table op in
    let code = shift_code op s t in
    rw code.0 (
      ground (
        arith,
        table-IsNarrow op,
        pack_shift6_sum (i.funct7 / 2) (n % 2 ^ 32) rs1 i.funct3 rd i.opcode code.1,
      ))

narrow_word :
    (op : Opcode) (rd rs1 n : ℕ)
    → rd < 32
    → rs1 < 32
    → n < 32
    → decode_shift 5 (narrow_shift op rd rs1 n)
      ≡ shift_fields op rd rs1 (pos n) (encoding_table op).funct7
narrow_word op rd rs1 n a b c =
    let i = encoding_table op in
    ground (arith, table-IsNarrow op, pack_r_sum i.funct7 (n % 2 ^ 32) rs1 i.funct3 rd i.opcode)

-- The test of the amount, with what it means.
amount_cases :
    (top : ℕ) (imm : ℤ)
    → IsInt64 imm
    → (¬ IsIn (pos 0) (pos top) imm) × ((ltb_ℤ imm (pos 0) || ltb top (bits64 imm)) ≡ true)
      ⊎ ((n : ℕ) × (imm ≡ pos n)
          × (n ≤ top)
          × ((ltb_ℤ imm (pos 0) || ltb top (bits64 imm)) ≡ false))
amount_cases top (negsuc n) h = inl ((λ k. omega arith), ground arith)
amount_cases top (pos n) h = elim (Bool-cases (ltb top (bits64 (pos n)))) [
  | inl far ↦ inl ((λ k. ground arith), ground arith)
  | inr near ↦ inr (n, refl, ground arith, ground arith)
]

abbrev pub WideShift : ℕ → Opcode → ℕ → ℕ → ℤ → ℕ → Type 0
WideShift xlen op rd rs1 imm w =
    if is_wide xlen op
    then (decode_shift 6 w ≡ shift_fields op rd rs1 imm ((encoding_table op).funct7 / 2))
    else (decode_shift 5 w ≡ shift_fields op rd rs1 imm (encoding_table op).funct7)

top_amount :
    (xlen : ℕ) (op : Opcode)
    → max_shamt (is_word_shift op) xlen ≡ (if is_wide xlen op then 63 else 31)
top_amount xlen op = elim (Bool-cases (is_word_shift op)) [ inl t ↦ rw t | inr t ↦ rw t ]

abbrev Shifted : ℕ → Opcode → ℕ → ℕ → ℤ → Type 0
Shifted xlen op rd rs1 imm =
    (w : ℕ) × (encode_shift xlen op rd rs1 imm ≡ some w) × WideShift xlen op rd rs1 imm w

encode_shift-in_range :
    (xlen : ℕ) (op : Opcode) (rd rs1 n : ℕ)
    → is_shift op ≡ true
    → rd < 32
    → rs1 < 32
    → n ≤ (if is_wide xlen op then 63 else 31)
    → (ltb_ℤ (pos n) (pos 0) || ltb (max_shamt (is_word_shift op) xlen) (bits64 (pos n))) ≡ false
    → Shifted xlen op rd rs1 (pos n)
unfolding encode_shift
encode_shift-in_range xlen op rd rs1 n s a b le t = elim (Bool-cases (is_wide xlen op)) [
  | inl wide ↦
      let plain : is_word_shift op ≡ false = ground arith in
      let six : n ≤ 63 = rw wide at le in
      (
        wide_shift op rd rs1 n,
        rw (t, wide),
        rw wide (wide_word op rd rs1 n s plain a b (omega arith)),
      )
  | inr narrow ↦
      let five : n ≤ 31 = rw narrow at le in
      (
        narrow_shift op rd rs1 n,
        rw (t, narrow),
        rw narrow (narrow_word op rd rs1 n a b (omega arith)),
      )
]

-- A shift by an immediate accepts the amounts below 32, or below 64 for the plain shifts of RV64,
-- and the word reads back as the amount, the registers and the function code of that width.
pub encode_itype-shift :
    (xlen : ℕ) (op : Opcode) (rd rs1 : ℕ) (imm : ℤ)
    → is_shift op ≡ true
    → rd < 32
    → rs1 < 32
    → IsInt64 imm
    → Accepts
        (IsIn (pos 0) (pos (if is_wide xlen op then 63 else 31)) imm)
        (WideShift xlen op rd rs1 imm)
        (encode_itype xlen op rd rs1 imm)
unfolding encode_itype
encode_itype-shift xlen op rd rs1 imm s a b c =
    rw (s, ← top_amount xlen op)
      (elim (amount_cases (max_shamt (is_word_shift op) xlen) imm c) [
        | inl (far, t) ↦ inr (far, unfold encode_shift in rw t)
        | inr (n, e, le, t) ↦ rw e (
            inl (
              omega arith,
              encode_shift-in_range xlen op rd rs1 n s a b (rw (← top_amount xlen op) le)
                  (rw e at t),
            ))
      ])

-- `ecall` and `ebreak` are the two fixed words of the manual, whatever operands the entry holds.
pub encode_itype-system :
    (xlen rd rs1 : ℕ) (imm : ℤ)
    → (encode_itype xlen op_ecall rd rs1 imm ≡ some 0x00000073)
      × (encode_itype xlen op_ebreak rd rs1 imm ≡ some 0x00100073)
unfolding encode_itype encode_imm12 index encoding_table
encode_itype-system xlen rd rs1 imm = (refl, refl)
