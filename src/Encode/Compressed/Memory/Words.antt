-- ===== src/Encode/Compressed/Memory/Words.antt =====
-- Where the loads and stores of words and double words place their registers and offsets.
use assembler_project.Base.{ℕ, ◌+◌, ◌*◌, ◌/◌, ◌%◌, ◌≤◌, ◌<◌, ◌≡◌, arith}
use assembler_project.Base.Word.{field}
use assembler_project.Encode.Compressed.Half.Put.{put_sum}
use assembler_project.Encode.Compressed.Memory.{put_word_offset, put_double_offset, put_registers}
use assembler_project.Base.Bits.{bit_and_mask}

-- The manual's CL and CS formats: the fields of a halfword, with the offset put together.
pub record MemoryFields : Type 0 where
  pub funct3 : ℕ
  pub base : ℕ
  pub reg : ℕ
  pub offset : ℕ
  pub quadrant : ℕ

abbrev pub decode_word : ℕ → MemoryFields
decode_word h = record {
  funct3 = field 13 3 h;
  base = field 7 3 h + 8;
  reg = field 2 3 h + 8;
  offset = field 5 1 h * 64 + field 10 3 h * 8 + field 6 1 h * 4;
  quadrant = field 0 2 h;
}

abbrev pub decode_double : ℕ → MemoryFields
decode_double h = record {
  funct3 = field 13 3 h;
  base = field 7 3 h + 8;
  reg = field 2 3 h + 8;
  offset = field 5 2 h * 64 + field 10 3 h * 8;
  quadrant = field 0 2 h;
}

module _ (f3 q r1p r2p u : ℕ) (hf : f3 < 8) (hq : q < 4) (h1 : r1p < 8) (h2 : r2p < 8) where
  word_sum :
      u ≤ 124
      → put_registers (put_word_offset (f3 * 8192 + q) u) r1p r2p
        ≡ f3 * 8192 + q + u / 8 % 8 * 1024 + u / 4 % 2 * 64 + u / 64 * 32 + r1p * 128 + r2p * 4
  unfolding put_registers put_word_offset
  word_sum small =
      let w0 = f3 * 8192 + q in
      let w1 = w0 + u / 8 % 8 % 8 * 1024 in
      let w2 = w1 + u / 4 % 2 % 2 * 64 in
      let w3 = w2 + u / 64 % 2 % 2 * 32 in
      let w4 = w3 + r1p % 8 % 8 * 128 in
      rw
        (
          bit_and_mask 3 (u / 8),
          bit_and_mask 1 (u / 4),
          bit_and_mask 1 (u / 64),
          bit_and_mask 3 r1p,
          bit_and_mask 3 r2p,
          put_sum 10 2 w0 (u / 8 % 8) (omega arith) (omega arith) (omega arith),
          put_sum 6 0 w1 (u / 4 % 2) (omega arith) (omega arith) (omega arith),
          put_sum 5 0 w2 (u / 64 % 2) (omega arith) (omega arith) (omega arith),
          put_sum 7 2 w3 (r1p % 8) (omega arith) (omega arith) (omega arith),
          put_sum 2 2 w4 (r2p % 8) (omega arith) (omega arith) (omega arith),
        )
        (omega arith)

  double_sum :
      u ≤ 248
      → put_registers (put_double_offset (f3 * 8192 + q) u) r1p r2p
        ≡ f3 * 8192 + q + u / 8 % 8 * 1024 + u / 64 * 32 + r1p * 128 + r2p * 4
  unfolding put_registers put_double_offset
  double_sum small =
      let w0 = f3 * 8192 + q in
      let w1 = w0 + u / 8 % 8 % 8 * 1024 in
      let w2 = w1 + u / 64 % 4 % 4 * 32 in
      let w3 = w2 + r1p % 8 % 8 * 128 in
      rw
        (
          bit_and_mask 3 (u / 8),
          bit_and_mask 2 (u / 64),
          bit_and_mask 3 r1p,
          bit_and_mask 3 r2p,
          put_sum 10 2 w0 (u / 8 % 8) (omega arith) (omega arith) (omega arith),
          put_sum 5 1 w1 (u / 64 % 4) (omega arith) (omega arith) (omega arith),
          put_sum 7 2 w2 (r1p % 8) (omega arith) (omega arith) (omega arith),
          put_sum 2 2 w3 (r2p % 8) (omega arith) (omega arith) (omega arith),
        )
        (omega arith)

  pub decode-word :
      u % 4 ≡ 0
      → u ≤ 124
      → decode_word (put_registers (put_word_offset (f3 * 8192 + q) u) r1p r2p)
        ≡ record { funct3 = f3; base = r1p + 8; reg = r2p + 8; offset = u; quadrant = q }
  decode-word even small = rw (word_sum small) (ground arith)

  pub decode-double :
      u % 8 ≡ 0
      → u ≤ 248
      → decode_double (put_registers (put_double_offset (f3 * 8192 + q) u) r1p r2p)
        ≡ record { funct3 = f3; base = r1p + 8; reg = r2p + 8; offset = u; quadrant = q }
  decode-double even small = rw (double_sum small) (ground arith)
