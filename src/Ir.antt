-- ===== src/Ir.antt =====
-- The intermediate representation (Assembler/src/ir.c, Assembler/include/ir.h).
pub mod Opcode
pub mod Entry
pub mod Buffer
pub mod Capacity
pub mod WellFormed
