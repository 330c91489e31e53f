-- ===== src/Encode/Isa.antt =====
-- The layouts of the 32-bit formats as the RISC-V manual gives them, read from the word: an
-- independent description that the encoders are compared with.
use assembler_project.Base.{
  ℕ, ◌+◌, ◌-◌, ◌*◌, ◌^◌, ◌≡◌, ◌%◌, ◌⊎◌, Option, none, some, true, false, ◌||◌, arith, inl, inr,
  Bool-cases,
}
use assembler_project.Base.Int.{ℤ, ◌≤ℤ◌, pos_part, neg_part, ltb_ℤ}
use assembler_project.Base.Word.{field, signed}

pub record RFields : Type 0 where
  pub opcode : ℕ
  pub rd : ℕ
  pub funct3 : ℕ
  pub rs1 : ℕ
  pub rs2 : ℕ
  pub funct7 : ℕ

abbrev pub decode_r : ℕ → RFields
decode_r w = record {
  opcode = field 0 7 w;
  rd = field 7 5 w;
  funct3 = field 12 3 w;
  rs1 = field 15 5 w;
  rs2 = field 20 5 w;
  funct7 = field 25 7 w;
}

pub record IFields : Type 0 where
  pub opcode : ℕ
  pub rd : ℕ
  pub funct3 : ℕ
  pub rs1 : ℕ
  pub imm : ℤ

abbrev pub decode_i : ℕ → IFields
decode_i w = record {
  opcode = field 0 7 w;
  rd = field 7 5 w;
  funct3 = field 12 3 w;
  rs1 = field 15 5 w;
  imm = signed 12 (field 20 12 w);
}

-- A store or a branch: two sources and an offset in pieces.
pub record SFields : Type 0 where
  pub opcode : ℕ
  pub funct3 : ℕ
  pub rs1 : ℕ
  pub rs2 : ℕ
  pub imm : ℤ

abbrev pub decode_s : ℕ → SFields
decode_s w = record {
  opcode = field 0 7 w;
  funct3 = field 12 3 w;
  rs1 = field 15 5 w;
  rs2 = field 20 5 w;
  imm = signed 12 (field 25 7 w * 2 ^ 5 + field 7 5 w);
}

-- imm[12] imm[10:5] … imm[4:1] imm[11]
abbrev pub decode_b : ℕ → SFields
decode_b w = record {
  opcode = field 0 7 w;
  funct3 = field 12 3 w;
  rs1 = field 15 5 w;
  rs2 = field 20 5 w;
  imm =
      signed 13
        (field 31 1 w * 2 ^ 12 + field 7 1 w * 2 ^ 11 + field 25 6 w * 2 ^ 5 + field 8 4 w * 2);
}

pub record UFields : Type 0 where
  pub opcode : ℕ
  pub rd : ℕ
  pub imm : ℤ

-- imm[20] imm[10:1] imm[11] imm[19:12]
abbrev pub decode_j : ℕ → UFields
decode_j w = record {
  opcode = field 0 7 w;
  rd = field 7 5 w;
  imm =
      signed 21
        (field 31 1 w * 2 ^ 20 + field 12 8 w * 2 ^ 12 + field 20 1 w * 2 ^ 11 + field 21 10 w * 2);
}

abbrev pub decode_u : ℕ → UFields
decode_u w = record {
  opcode = field 0 7 w;
  rd = field 7 5 w;
  imm = signed 32 (field 12 20 w * 2 ^ 12);
}

-- The shift amount is the low bits of the I-type immediate: six of them and a six-bit function
-- code for RV64, five and a seven-bit code otherwise.
pub record ShiftFields : Type 0 where
  pub opcode : ℕ
  pub rd : ℕ
  pub funct3 : ℕ
  pub rs1 : ℕ
  pub shamt : ℕ
  pub funct : ℕ

abbrev pub decode_shift : ℕ → ℕ → ShiftFields
decode_shift bits w = record {
  opcode = field 0 7 w;
  rd = field 7 5 w;
  funct3 = field 12 3 w;
  rs1 = field 15 5 w;
  shamt = field 20 bits w;
  funct = field (20 + bits) (12 - bits) w;
}

abbrev pub IsIn : ℤ → ℤ → ℤ → Type 0
IsIn lo hi imm = (lo ≤ℤ imm) × (imm ≤ℤ hi)

abbrev pub IsMultiple : ℕ → ℤ → Type 0
IsMultiple k imm = (pos_part imm + neg_part imm) % k ≡ 0

-- `r` is an encoder's result: a word with `P` where the operands fit, an error where they do not.
abbrev pub Accepts : Type 0 → (ℕ → Type 0) → Option ℕ → Type 0
Accepts Fit P r = Fit × ((w : ℕ) × (r ≡ some w) × P w) ⊎ (¬ Fit) × (r ≡ none)

-- The range test that the encoders write, with what it means.
pub range_cases :
    (lo hi imm : ℤ)
    → (¬ IsIn lo hi imm) × ((ltb_ℤ imm lo || ltb_ℤ hi imm) ≡ true)
      ⊎ IsIn lo hi imm × ((ltb_ℤ imm lo || ltb_ℤ hi imm) ≡ false)
range_cases lo hi imm = elim (Bool-cases (ltb_ℤ imm lo || ltb_ℤ hi imm)) [
  | inl bad ↦ inl ((λ h. ground arith), bad)
  | inr fine ↦ inr (ground arith, fine)
]
