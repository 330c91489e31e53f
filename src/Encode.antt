-- ===== src/Encode.antt =====
-- The instruction encoders of the second pass (Assembler/src/pass2.c).
pub mod Table
pub mod CTable
pub mod Isa
pub mod Full
pub mod Compressed
